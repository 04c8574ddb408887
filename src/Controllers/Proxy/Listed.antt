-- ===== src/Controllers/Proxy/Listed.antt =====
-- The EndpointSlices that are listed, and the index of their names.
use kertical.Prelude.{
  String, string_Eq, Bool, true, not, ◌&&◌, ◌||◌, ◌≡◌, ◌≢◌, ◌∙◌, none, some, List, [], ◌∷◌, ◌==◌,
  SetPackage, Bool-cases, inl, inr, arith, elem, All,
}
use text.Mathlib.TextEquality.{eq_iff}
use kertical.Controllers.Proxy.{Object, SliceSpec}
use kertical.Controllers.Proxy.Kinds.{Kind, World}
use kertical.Controllers.Proxy.Keeping.{names_of, Store}
use kertical.Controllers.Proxy.Sync.{index_put, index_all, find_named, drop_named}

-- Labels and annotations are not nil, so nothing that is copied to them panics.
abbrev pub IsWritable : {S : Type 0} → Object S → Type 0
IsWritable o = (o.meta.labels ≢ none) × (o.meta.annotations ≢ none)

module _ (sets : SetPackage String) {K : Type 0} (kind : Kind K SliceSpec) (key : String)
    (store : Store kind) where
  open store use {has, has-create, has-update, named, sorts}

  -- The names are there, with all that was there before.
  abbrev pub Come : (String → Bool) → World sets kind key → World sets kind key → Type 0
  Come come (cache, k) (cache', k') = (n : String) → has k' n ≡ (come n || has k n)

  abbrev pub Is : String → String → Bool
  Is name n = name == n

  -- Each object is in the cluster, and can be updated.
  abbrev pub IsListed : K → List (Object SliceSpec) → Type 0
  IsListed k index = All (λ o. (has k o.meta.name ≡ true) × IsWritable o) index

  pub find_named-IsListed :
      (k : K) (name : String) (index : List (Object SliceSpec)) (o : Object SliceSpec)
      → IsListed k index
      → find_named name index ≡ some o
      → (has k name ≡ true) × IsWritable o
  unfolding find_named
  find_named-IsListed k name [] o listed e = absurd (cc)
  find_named-IsListed k name (x ∷ xs) o ((there, writable), listed) e =
      elim (Bool-cases (x.meta.name == name)) [
        | inl same ↦
            let here : x ≡ o = ground (arith, e, same) in
            (ground (arith, there, same, eq_iff x.meta.name name), rw⁻¹ here writable)
        | inr apart ↦ find_named-IsListed k name xs o listed (ground (arith, e, apart))
      ]

  pub IsListed-keep :
      (f : String → Bool) (w w' : World sets kind key) (name : String)
      (index : List (Object SliceSpec))
      → Come f w w'
      → IsListed w.1 index
      → IsListed w'.1 (drop_named name index)
  unfolding drop_named
  IsListed-keep f (c, k) (c', k') name [] come listed = tt
  IsListed-keep f (c, k) (c', k') name (o ∷ index) come ((there, writable), listed) =
      elim (Bool-cases (o.meta.name == name)) [
        | inl same ↦ rw same (IsListed-keep f (c, k) (c', k') name index come listed)
        | inr apart ↦ rw apart (
          (ground (arith, come o.meta.name, there), writable),
          IsListed-keep f (c, k) (c', k') name index come listed,
        )
      ]

  pub elem-drop_named :
      (n name : String) (index : List (Object SliceSpec))
      → elem n (names_of (drop_named name index)) ≡ (elem n (names_of index) && not (name == n))
  unfolding drop_named
  elem-drop_named n name [] = ground arith
  elem-drop_named n name (o ∷ index) = ground (
    arith,
    elem-drop_named n name index,
    eq_iff o.meta.name name,
    eq_iff n o.meta.name,
    eq_iff name n,
  )

  elem-index_put :
      (n : String) (o : Object SliceSpec) (index : List (Object SliceSpec))
      → elem n (names_of (index_put o index)) ≡ (elem n (names_of index) || o.meta.name == n)
  unfolding index_put
  elem-index_put n o [] = ground (arith, eq_iff n o.meta.name, eq_iff o.meta.name n)
  elem-index_put n o (x ∷ index) = ground (
    arith,
    elem-index_put n o index,
    eq_iff x.meta.name o.meta.name,
    eq_iff n x.meta.name,
    eq_iff o.meta.name n,
    eq_iff n o.meta.name,
  )

  pub elem-index_all :
      (n : String) (os index : List (Object SliceSpec))
      → elem n (names_of (index_all index os)) ≡ (elem n (names_of index) || elem n (names_of os))
  unfolding index_all
  elem-index_all n [] index = ground arith
  elem-index_all n (o ∷ os) index =
      elem-index_all n os (index_put o index)
      ∙ ground (arith, elem-index_put n o index, eq_iff n o.meta.name, eq_iff o.meta.name n)

  index_put-IsListed :
      (k : K) (o : Object SliceSpec) (index : List (Object SliceSpec))
      → (has k o.meta.name ≡ true) × IsWritable o
      → IsListed k index
      → IsListed k (index_put o index)
  unfolding index_put
  index_put-IsListed k o [] new listed = (new, tt)
  index_put-IsListed k o (x ∷ index) new (old, listed) =
      elim (Bool-cases (x.meta.name == o.meta.name)) [
        | inl same ↦ rw same (new, listed)
        | inr apart ↦ rw apart (old, index_put-IsListed k o index new listed)
      ]

  pub index_all-IsListed :
      (k : K) (os index : List (Object SliceSpec))
      → IsListed k os
      → IsListed k index
      → IsListed k (index_all index os)
  unfolding index_all
  index_all-IsListed k [] index new listed = listed
  index_all-IsListed k (o ∷ os) index (one, new) listed =
      index_all-IsListed k os (index_put o index) new (index_put-IsListed k o index one listed)
