-- ===== src/Controllers/Proxy/Tests/SliceStore.antt =====
-- A cluster that is the list of its EndpointSlices, the latest first, which takes an update only of one that is
-- there.
use kertical.Prelude.{
  ◌∙◌, ap, sym, String, string_Eq, Bool, true, false, not, ◌&&◌, ◌||◌, ◌≡◌, refl, Option, none,
  some, List, [], ◌∷◌, ◌==◌, arith, if◌then◌else◌, Bool-cases, inl, inr,
}
use text.Mathlib.TextEquality.{eq_iff}
use kertical.Controllers.Cluster.{not_found, answered, refused}
use kertical.Controllers.Proxy.{Object, SliceSpec}
use kertical.Controllers.Proxy.Kinds.{Kind}
use kertical.Controllers.Proxy.Sync.{find_named, drop_named}
use kertical.Controllers.Proxy.Keeping.{Store}
use kertical.Controllers.Proxy.Contents.{Contents}
use kertical.Controllers.Proxy.Tests.{slice_at, two_slices}

abbrev Slices : Type 0
Slices = List (Object SliceSpec)

abbrev found : Option (Object SliceSpec) → Bool
found none = false
found (some o) = true

abbrev holds : Slices → String → Bool
holds k n = found (find_named n k)

abbrev slices : Kind Slices SliceSpec
slices = record {
  list_owned = λ namespace uid k. answered two_slices;
  create = λ o k. (answered tt, o ∷ k);
  update = λ o k. if holds k o.meta.name then (answered tt, o ∷ k) else (refused not_found, k);
  delete = λ o k. (answered tt, drop_named o.meta.name k);
  set_controller = λ uid o. answered (record o { meta = record o.meta { owner = some uid } });
  sort_created = λ os. os;
}

find-drop_named :
    (name n : String) (k : Slices)
    → find_named n (drop_named name k) ≡ (if name == n then none else find_named n k)
unfolding find_named drop_named
find-drop_named name n [] = ground arith
find-drop_named name n (o ∷ k) =
    ground (
      arith,
      find-drop_named name n k,
      eq_iff o.meta.name name,
      eq_iff o.meta.name n,
      eq_iff name n,
    )

find-cons :
    (o : Object SliceSpec) (k : Slices) (n : String)
    → find_named n (o ∷ k) ≡ (if o.meta.name == n then some o else find_named n k)
unfolding find_named
find-cons o k n = refl

holds-cons :
    (o : Object SliceSpec) (k : Slices) (n : String)
    → holds (o ∷ k) n ≡ (o.meta.name == n || holds k n)
holds-cons o k n = elim (Bool-cases (o.meta.name == n)) [
  | inl same ↦ ap found (find-cons o k n) ∙ rw same refl
  | inr apart ↦ ap found (find-cons o k n) ∙ rw apart refl
]

holds-drop_named :
    (name n : String) (k : Slices) → holds (drop_named name k) n ≡ (not (name == n) && holds k n)
holds-drop_named name n k = elim (Bool-cases (name == n)) [
  | inl same ↦ ap found (find-drop_named name n k) ∙ rw same refl
  | inr apart ↦ ap found (find-drop_named name n k) ∙ rw apart refl
]

held :
    (o : Object SliceSpec) (k : Slices) (n : String)
    → holds k o.meta.name ≡ true
    → holds (o ∷ k) n ≡ holds k n
held o k n there = holds-cons o k n ∙ elim (Bool-cases (o.meta.name == n)) [
  | inl same ↦
      let e : o.meta.name ≡ n = (eq_iff o.meta.name n).0 same in
      rw same (sym (ap (holds k) (sym e) ∙ there))
  | inr apart ↦ rw apart refl
]

updates :
    (o : Object SliceSpec) (k : Slices) (n : String)
    → (slices.update o k).0 ≡ answered tt
    → (holds (slices.update o k).1 n ≡ holds k n)
      × (find_named n (slices.update o k).1 ≡ (if o.meta.name == n then some o else find_named n k))
updates o k n ok = elim (Bool-cases (holds k o.meta.name)) [
  | inl there ↦ rw there (held o k n there, find-cons o k n)
  | inr missing ↦ absurd (ground (arith, ok, missing))
]

controlled :
    (uid : String) (o o' : Object SliceSpec)
    → answered (record o { meta = record o.meta { owner = some uid } }) ≡ answered o'
    → (o'.meta.name ≡ o.meta.name) × (o'.spec ≡ o.spec) × (o'.meta.annotations ≡ o.meta.annotations)
controlled uid o o' e =
    let same : record o { meta = record o.meta { owner = some uid } } ≡ o' = cc in
    rw⁻¹ same (refl, refl, refl)

abbrev store : Store slices
store = record {
  has = holds;
  has-create = λ o k n ok. holds-cons o k n;
  has-update = λ o k n ok. (updates o k n ok).0;
  has-delete = λ o k n ok. holds-drop_named o.meta.name n k;
  named = λ uid o o' e. (controlled uid o o' e).0;
  sorts = λ os n. refl;
  sorts_all = λ P os all. all;
}

abbrev contents : Contents slices
contents = record {
  find = λ k n. find_named n k;
  find-create = λ o k n ok. find-cons o k n;
  find-update = λ o k n ok. (updates o k n ok).1;
  find-delete = λ o k n ok. find-drop_named o.meta.name n k;
  controlled = λ uid o o' e. ((controlled uid o o' e).1, (controlled uid o o' e).2);
}

abbrev cluster : Slices
cluster = slice_at "v4" ∷ slice_at "old" ∷ slice_at "other" ∷ []
