-- ===== src/Forwarding/Registry/Total.antt =====
-- When an implementation is found.
use mathlib.Core.List.{mem-cons_self}
use native.Mathlib.Omega.{arith}
use kertical.Prelude.{
  String, Bool, true, false, Option, none, some, List, [], ◌∷◌, ◌≡◌, refl, all, any, ◌==◌,
  string_Eq, Bool-cases, inl, inr, ◌⊎◌, ◌∙◌,
}
use kertical.Forwarding.Registry.{
  Implement, Found, chosen, asked, first_available, preferred, find_impl,
}
use kertical.Forwarding.Registry.Choice.{IsChoice, IsChoice-cons}

-- `Available` returns no error, and returns true.
abbrev pub answers : Option Bool → Bool
answers none = false
answers (some b) = true

abbrev pub says_yes : Option Bool → Bool
says_yes none = false
says_yes (some b) = b

module _ {N : Type 0} where
  Chooses : List (Implement N) → Found N → Type 0
  Chooses registry found = (n : N) × (found ≡ chosen n) × IsChoice registry n

  Chooses-asked :
      (x : Implement N) (xs : List (Implement N)) (o : Option Bool) (found : Found N)
      → x.available ≡ o
      → answers o ≡ true
      → (says_yes o ≡ false → Chooses xs found)
      → Chooses (x ∷ xs) (asked x o found)
  unfolding Chooses asked
  Chooses-asked x xs none found e a later = absurd (ground arith)
  Chooses-asked x xs (some true) found e a later =
      (x.make, refl, record { impl = x; listed = mem-cons_self; available = e; made = refl })
  Chooses-asked x xs (some false) found e a later =
      let (n, f, c) = later refl in (n, f, IsChoice-cons x xs n c)

  first-Chooses :
      (xs : List (Implement N))
      → all (λ y. answers y.available) xs ≡ true
      → any (λ y. says_yes y.available) xs ≡ true
      → Chooses xs (first_available xs)
  unfolding first_available
  first-Chooses [] a y = absurd (ground arith)
  first-Chooses (x ∷ xs) a y =
      Chooses-asked x xs x.available (first_available xs) refl (ground (arith, a))
        (λ no. first-Chooses xs (ground (arith, a)) (ground (arith, y, no)))

  asked_cases :
      (x : Implement N) (xs : List (Implement N)) (o : Option Bool) (later otherwise : Found N)
      → x.available ≡ o
      → answers o ≡ true
      → Chooses xs later ⊎ (later ≡ otherwise)
      → Chooses (x ∷ xs) (asked x o later) ⊎ (asked x o later ≡ otherwise)
  unfolding asked Chooses
  asked_cases x xs none later otherwise e a r = absurd (ground arith)
  asked_cases x xs (some true) later otherwise e a r =
      inl (x.make, refl, record { impl = x; listed = mem-cons_self; available = e; made = refl })
  asked_cases x xs (some false) later otherwise e a (inl (n, f, c)) =
      inl (n, f, IsChoice-cons x xs n c)
  asked_cases x xs (some false) later otherwise e a (inr f) = inr f

  -- The first loop chooses, or leaves it to the second.
  preferred_cases :
      (preference : String) (xs : List (Implement N)) (otherwise : Found N)
      → all (λ y. answers y.available) xs ≡ true
      → Chooses xs (preferred preference xs otherwise)
        ⊎ (preferred preference xs otherwise ≡ otherwise)
  unfolding preferred Chooses
  preferred_cases preference [] otherwise a = inr refl
  preferred_cases preference (x ∷ xs) otherwise a = elim (Bool-cases (x.name == preference)) [
    | inl same ↦ rw same (
        asked_cases x xs x.available _ otherwise refl (ground (arith, a))
          (preferred_cases preference xs otherwise (ground (arith, a))))
    | inr apart ↦ rw apart (elim (preferred_cases preference xs otherwise (ground (arith, a))) [
      | inl (n, f, c) ↦ inl (n, f, IsChoice-cons x xs n c)
      | inr f ↦ inr f
    ])
  ]

  -- Where no check of availability fails and some implementation is available, an available
  -- implementation is found, whatever is preferred.
  pub find_impl-total :
      (preference : String) (registry : List (Implement N))
      → all (λ y. answers y.available) registry ≡ true
      → any (λ y. says_yes y.available) registry ≡ true
      → (n : N) × (find_impl preference registry ≡ chosen n) × IsChoice registry n
  unfolding find_impl Chooses
  find_impl-total preference registry a y =
      let (n, f, c) = first-Chooses registry a y in
      elim (Bool-cases (preference == "")) [
        | inl empty ↦ rw empty (n, f, c)
        | inr given ↦
            rw given (elim (preferred_cases preference registry (first_available registry) a) [
              | inl chosen_there ↦ chosen_there
              | inr left ↦ (n, left ∙ f, c)
            ])
      ]
