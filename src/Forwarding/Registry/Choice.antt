-- ===== src/Forwarding/Registry/Choice.antt =====
-- The order of the registry, and which implementation is chosen.
use mathlib.Core.List.{Perm, Mem, perm_middle, append-nil, mem-cons_self, mem-cons_of_mem}
use mathlib.Core.List.Perm
use kertical.Prelude.{
  ℕ, ◌≤◌, Bool, true, false, ◌≡◌, refl, Option, none, some, List, [], ◌∷◌, ◌++◌, inl, inr,
  string_Eq, arith, All, ltb, Bool-cases,
}
use kertical.Forwarding.Registry.{
  Implement, chosen, register_implement, registered, find_impl, insert_sorted, sort_from,
  first_available, asked,
}

module _ {N : Type 0} where
  abbrev pub BelowHead : ℕ → List (Implement N) → Type 0
  BelowHead n = All (λ y. y.order ≤ n)

  -- Falling orders: each is at least all that follow.
  abbrev pub IsFalling : List (Implement N) → Type 0
  IsFalling [] = Unit
  IsFalling (x ∷ xs) = BelowHead x.order xs × IsFalling xs

  BelowHead-le : (n m : ℕ) (xs : List (Implement N)) → n ≤ m → BelowHead n xs → BelowHead m xs
  BelowHead-le n m [] h b = tt
  BelowHead-le n m (x ∷ xs) h b = (omega (arith, b.0), BelowHead-le n m xs h b.1)

  insert_sorted-BelowHead :
      (n : ℕ) (x : Implement N) (xs : List (Implement N))
      → x.order ≤ n
      → BelowHead n xs
      → BelowHead n (insert_sorted x xs)
  unfolding insert_sorted
  insert_sorted-BelowHead n x [] h b = (h, tt)
  insert_sorted-BelowHead n x (y ∷ ys) h b = elim (Bool-cases (ltb y.order x.order)) [
    | inl less ↦ rw less (h, b)
    | inr more ↦ rw more (b.0, insert_sorted-BelowHead n x ys h b.1)
  ]

  insert_sorted-IsFalling :
      (x : Implement N) (xs : List (Implement N)) → IsFalling xs → IsFalling (insert_sorted x xs)
  unfolding insert_sorted
  insert_sorted-IsFalling x [] f = (tt, tt)
  insert_sorted-IsFalling x (y ∷ ys) f = elim (Bool-cases (ltb y.order x.order)) [
    | inl less ↦
        let le : y.order ≤ x.order = ground arith in
        rw less ((le, BelowHead-le y.order x.order ys le f.0), f)
    | inr more ↦
        rw more (
          insert_sorted-BelowHead y.order x ys (ground arith) f.0,
          insert_sorted-IsFalling x ys f.1,
        )
  ]

  insert_sorted-perm :
      (x : Implement N) (xs : List (Implement N)) → Perm (insert_sorted x xs) (x ∷ xs)
  unfolding insert_sorted
  insert_sorted-perm x [] = Perm.rfl
  insert_sorted-perm x (y ∷ ys) = elim (Bool-cases (ltb y.order x.order)) [
    | inl less ↦ rw less Perm.rfl
    | inr more ↦ rw more (Perm.trans (Perm.cons y (insert_sorted-perm x ys)) (Perm.swap x y ys))
  ]

  sort_from-IsFalling :
      (sorted xs : List (Implement N)) → IsFalling sorted → IsFalling (sort_from sorted xs)
  unfolding sort_from
  sort_from-IsFalling sorted [] f = f
  sort_from-IsFalling sorted (x ∷ xs) f =
      sort_from-IsFalling (insert_sorted x sorted) xs (insert_sorted-IsFalling x sorted f)

  sort_from-perm : (sorted xs : List (Implement N)) → Perm (sort_from sorted xs) (xs ++ sorted)
  unfolding sort_from
  sort_from-perm sorted [] = Perm.rfl
  sort_from-perm sorted (x ∷ xs) =
      Perm.trans (sort_from-perm (insert_sorted x sorted) xs)
        (Perm.trans (Perm.append_left xs (insert_sorted-perm x sorted)) (perm_middle xs sorted))

  register-perm :
      (registry : List (Implement N)) (impl : Implement N)
      → Perm (register_implement registry impl) (impl ∷ registry)
  unfolding register_implement
  register-perm registry impl =
      Perm.trans (sort_from-perm [] (registry ++ impl ∷ []))
        (rw append-nil (Perm.trans (perm_middle registry []) (rw append-nil Perm.rfl)))

  -- Registering keeps the registry in falling order, and loses and invents nothing.
  pub registered_lem :
      (registry impls : List (Implement N))
      → IsFalling registry
      → IsFalling (registered registry impls) × Perm (registered registry impls) (impls ++ registry)
  unfolding registered
  registered_lem registry [] f = (f, Perm.rfl)
  registered_lem registry (impl ∷ impls) f =
      let sorted = sort_from-IsFalling [] (registry ++ impl ∷ []) tt in
      let (falling, perm) =
        registered_lem (register_implement registry impl) impls
          (unfold register_implement in sorted) in
      (
        falling,
        Perm.trans perm (
            Perm.trans (Perm.append_left impls (register-perm registry impl))
              (perm_middle impls registry)),
      )

  -- An available implementation of the registry, made into `n`.
  pub record IsChoice (registry : List (Implement N)) (n : N) : Type 0 where
    pub impl : Implement N
    pub listed : Mem impl registry
    pub available : impl.available ≡ some true
    pub made : impl.make ≡ n

  pub IsChoice-cons :
      (x : Implement N) (xs : List (Implement N)) (n : N) → IsChoice xs n → IsChoice (x ∷ xs) n
  IsChoice-cons x xs n c = record {
    impl = c.impl;
    listed = mem-cons_of_mem x c.listed;
    available = c.available;
    made = c.made;
  }

  -- The choice has the highest order of those available.
  abbrev pub Best : List (Implement N) → N → Type 0
  Best registry n =
      (c : IsChoice registry n) × All (λ y. y.available ≡ some true → y.order ≤ c.impl.order)
        registry

  BelowHead-available :
      (m : ℕ) (xs : List (Implement N))
      → BelowHead m xs
      → All (λ y. y.available ≡ some true → y.order ≤ m) xs
  BelowHead-available m [] b = tt
  BelowHead-available m (x ∷ xs) b = ((λ _. b.0), BelowHead-available m xs b.1)

  asked-Best :
      (x : Implement N) (xs : List (Implement N)) (n : N) (o : Option Bool)
      → x.available ≡ o
      → BelowHead x.order xs
      → (first_available xs ≡ chosen n → Best xs n)
      → asked x o (first_available xs) ≡ chosen n
      → Best (x ∷ xs) n
  unfolding asked IsChoice-cons
  asked-Best x xs n none o b rest e = absurd (cc)
  asked-Best x xs n (some true) o b rest e = (
    record { impl = x; listed = mem-cons_self; available = o; made = made },
    ((λ _. omega arith), BelowHead-available x.order xs b),
  )
    where
      made : x.make ≡ n
      made = cc
  asked-Best x xs n (some false) o b rest e =
      let (c, top) = rest e in (IsChoice-cons x xs n c, ((λ h. absurd (cc)), top))

  first_available-Best :
      (xs : List (Implement N)) (n : N) → IsFalling xs → first_available xs ≡ chosen n → Best xs n
  unfolding first_available
  first_available-Best [] n f e = absurd (cc)
  first_available-Best (x ∷ xs) n f e =
      asked-Best x xs n x.available refl f.0 (first_available-Best xs n f.1) e

  -- With no preference, what is chosen is available, and no available implementation has a higher
  -- order.
  pub find_impl-Best :
      (registry impls : List (Implement N)) (n : N)
      → IsFalling registry
      → find_impl "" (registered registry impls) ≡ chosen n
      → Best (registered registry impls) n
  unfolding find_impl
  find_impl-Best registry impls n f e =
      first_available-Best (registered registry impls) n (registered_lem registry impls f).0 e
