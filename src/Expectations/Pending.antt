-- ===== src/Expectations/Pending.antt =====
-- What each method does to the set of outstanding expectations.
use kertical.Prelude.{
  ℕ, String, Bool, true, false, not, ◌&&◌, ◌||◌, ◌≡◌, ◌↔◌, refl, Option, none, some, [], ◌∷◌,
  update, ◌==◌, SetPackage, arith, Bool-cases, inl, inr, string_Eq,
}
use text.Mathlib.TextEquality.{eq_iff}
use kertical.Expectations.{
  Action, creations, deletions, ObjectStore, Cache, action_eq_iff, expect, observe,
  satisfied_expectations, delete_expectations, insert_object, observe_in, action_Eq, with_value,
  store_or_new, non_empty, any_left, observe_at, satisfied_at,
}

module _ (sets : SetPackage String) where
  open sets use {Set, has, has-new, has-insert, has-delete, len_zero, len, delete}

  abbrev has? : String → Option Set → Bool
  has? name none = false
  has? name (some s) = has name s

  abbrev has_in : Action → String → Option (ObjectStore sets) → Bool
  has_in action name none = false
  has_in action name (some o) = has? name (o.objects action)

  -- The controller `key` still waits for `action` on the object `name`.
  unfoldable pub pending : Cache sets → String → Action → String → Bool
  pending cache key action name = has_in action name (cache key)

  has-with_value :
      (n m : String) (s : Option Set) → has m (with_value sets n s) ≡ (n == m || has? m s)
  unfolding with_value
  has-with_value n m none = ground (arith, has-new m (n ∷ []))
  has-with_value n m (some s) = ground (arith, has-insert n m s)

  has-insert_object :
      (a b : Action) (n m : String) (o : Option (ObjectStore sets))
      → has_in b m (some (insert_object sets a n (store_or_new sets o)))
        ≡ (a == b && n == m || has_in b m o)
  unfolding insert_object store_or_new
  has-insert_object a b n m none = ground (arith, action_eq_iff a b, has-with_value n m none)
  has-insert_object a b n m (some o) =
      ground (arith, action_eq_iff a b, has-with_value n m (o.objects a))

  -- `Expect` adds its expectation and no other.
  pub pending-expect :
      (cache : Cache sets) (k j : String) (a b : Action) (n m : String)
      → pending (expect sets k a n cache) j b m
        ≡ (k == j && (a == b && n == m) || pending cache j b m)
  unfolding pending
  pending-expect cache k j a b n m =
      unfold expect in ground (arith, eq_iff k j, has-insert_object a b n m (cache k))

  -- `elem.Len() > 0` fails exactly for a set with no member.
  non_empty_iff : (s : Option Set) → (non_empty sets s ≡ false) ↔ ((m : String) → has? m s ≡ false)
  non_empty_iff none = ((λ h m. refl), (λ h. refl))
  non_empty_iff (some s) = (
    (λ h. (len_zero s).0 (ground arith)),
    (λ h. let empty : len s ≡ 0 = (len_zero s).1 h in ground arith),
  )

  any_left_iff :
      (objects : Action → Option Set)
      → (any_left sets objects ≡ false) ↔ ((b : Action) (m : String) → has? m (objects b) ≡ false)
  any_left_iff objects = (none_left, (λ h. ground (arith, empty h creations, empty h deletions)))
    where
      none_left :
          any_left sets objects ≡ false → (b : Action) (m : String) → has? m (objects b) ≡ false
      none_left h creations m = (non_empty_iff (objects creations)).0 (ground arith) m
      none_left h deletions m = (non_empty_iff (objects deletions)).0 (ground arith) m

      empty :
          ((b : Action) (m : String) → has? m (objects b) ≡ false)
          → (b : Action) → non_empty sets (objects b) ≡ false
      empty h b = (non_empty_iff (objects b)).1 (h b)

  has-update_delete :
      (a b : Action) (n m : String) (s : Set) (objects : Action → Option Set)
      → objects a ≡ some s
      → has? m (update a (delete n s) objects b) ≡ (not (a == b && n == m) && has? m (objects b))
  has-update_delete a b n m s objects e =
      ground (arith, action_eq_iff a b, eq_iff n m, has-delete n m s)

  module _ (cache : Cache sets) (k j : String) (a b : Action) (n m : String) (o : ObjectStore sets)
      (stored : cache k ≡ some o) where
    pending-observe_in :
        (s : Option Set)
        → o.objects a ≡ s
        → pending (observe_in sets k a n o s cache) j b m
          ≡ (not (k == j && (a == b && n == m)) && pending cache j b m)
    unfolding pending observe_in
    pending-observe_in none e = ground (arith, eq_iff k j, action_eq_iff a b)
    pending-observe_in (some s) e =
        elim (Bool-cases (any_left sets (update a (delete n s) o.objects))) [
          | inl left ↦ rw left (ground (arith, has-update_delete a b n m s o.objects e, eq_iff k j))
          | inr done ↦ rw done (
              ground (
                arith,
                has-update_delete a b n m s o.objects e,
                eq_iff k j,
                (any_left_iff (update a (delete n s) o.objects)).0 done b m,
              ))
        ]

  pending-observe_at :
      (cache : Cache sets) (k j : String) (a b : Action) (n m : String)
      → (o : Option (ObjectStore sets)) → cache k ≡ o
      → pending (observe_at sets k a n o cache) j b m
        ≡ (not (k == j && (a == b && n == m)) && pending cache j b m)
  unfolding observe_at
  pending-observe_at cache k j a b n m none e = unfold pending in ground (arith, eq_iff k j)
  pending-observe_at cache k j a b n m (some o) e =
      pending-observe_in cache k j a b n m o e (o.objects a) refl

  -- `Observe` removes its expectation and no other.
  pub pending-observe :
      (cache : Cache sets) (k j : String) (a b : Action) (n m : String)
      → pending (observe sets k a n cache) j b m
        ≡ (not (k == j && (a == b && n == m)) && pending cache j b m)
  unfolding observe
  pending-observe cache k j a b n m = pending-observe_at cache k j a b n m (cache k) refl

  -- No expectation of the controller is outstanding.
  abbrev pub IsSettled : Cache sets → String → Type 0
  IsSettled cache key = (b : Action) (m : String) → pending cache key b m ≡ false

  -- The check answers for the outstanding expectations, and changes none.
  satisfied_at_lem :
      (cache : Cache sets) (key : String) (now later : ℕ) (o : Option (ObjectStore sets))
      → cache key ≡ o
      → (((satisfied_at sets key now later o cache).1 ≡ true) ↔ IsSettled cache key)
        × ((j : String) (b : Action) (m : String)
            → pending (satisfied_at sets key now later o cache).0 j b m ≡ pending cache j b m)
  unfolding satisfied_at pending
  satisfied_at_lem cache key now later none e = (((λ h b m. rw e), (λ h. refl)), (λ j b m. refl))
  satisfied_at_lem cache key now later (some o) e = elim (Bool-cases (any_left sets o.objects)) [
    | inl left ↦ rw left (
      ((λ h. cc), (λ h. cc (left, (any_left_iff o.objects).1 (λ b m. rw e at (h b m))))),
      (λ j b m. ground (arith, eq_iff key j)),
    )
    | inr done ↦ rw done (
      ((λ h b m. rw e ((any_left_iff o.objects).0 done b m)), (λ h. refl)),
      (λ j b m. ground (arith, eq_iff key j, (any_left_iff o.objects).0 done b m)),
    )
  ]

  pub pending-satisfied :
      (cache : Cache sets) (key j : String) (now later : ℕ) (b : Action) (m : String)
      → pending (satisfied_expectations sets key now later cache).0 j b m ≡ pending cache j b m
  unfolding satisfied_expectations
  pending-satisfied cache key j now later b m =
      (satisfied_at_lem cache key now later (cache key) refl).1 j b m

  pub satisfied_iff :
      (cache : Cache sets) (key : String) (now later : ℕ)
      → ((satisfied_expectations sets key now later cache).1 ≡ true) ↔ IsSettled cache key
  unfolding satisfied_expectations
  satisfied_iff cache key now later = (satisfied_at_lem cache key now later (cache key) refl).0

  pub pending-delete :
      (cache : Cache sets) (k j : String) (b : Action) (m : String)
      → pending (delete_expectations sets k cache) j b m ≡ (not (k == j) && pending cache j b m)
  unfolding pending delete_expectations
  pending-delete cache k j b m = ground (arith, eq_iff k j)
