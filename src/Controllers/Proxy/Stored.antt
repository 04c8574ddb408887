-- ===== src/Controllers/Proxy/Stored.antt =====
-- The loops of SyncEndpointSlices over the contents of the EndpointSlices.
use kertical.Prelude.{
  ℕ, String, string_Eq, Bool, true, false, ◌≡◌, ◌∙◌, refl, ap, sym, Option, none, some, List, [],
  ◌∷◌, ◌==◌, SetPackage, Bool-cases, inl, inr, arith, elem, All, if◌then◌else◌,
}
use text.Mathlib.TextEquality.{eq_iff}
use kertical.Expectations.{deletions, Cache}
use kertical.Controllers.Cluster.{Failure, Reply, answered, refused}
use kertical.Controllers.Proxy.{Object, SliceSpec, ExternalProxy}
use kertical.Controllers.Proxy.Build.Revised.{IsRevised}
use kertical.Controllers.Proxy.Kinds.{Kind, World, settle, expecting, delete_expected, delete_all}
use kertical.Controllers.Proxy.Keeping.{
  names_of, Store, Refuses, on_delete, After, then-After, map-After, elem-names,
}
use kertical.Controllers.Proxy.Listed.{IsWritable}
use kertical.Controllers.Proxy.Contents.{
  Contents, Distinct, IsStored, Frame, Settles, settle_slice-Settles,
}
use kertical.Controllers.Proxy.Sync.{index_put, index_all, find_named, drop_named, settle_slices}

module _ (sets : SetPackage String) {K : Type 0} (kind : Kind K SliceSpec) (key : String)
    (store : Store kind) (contents : Contents kind) (print : ℕ → String)
    (parse4 parse6 : String → Option String)
    (slice_name : (service : String) → (index : ℕ) → (suffix : String) → String)
    (p : ExternalProxy) where
  open contents use {find, find-create, find-update, find-delete, controlled}

  abbrev pub AreStored : List (Object SliceSpec) → (before after : K) → Type 0
  AreStored ds before after =
      All
        (λ d. IsStored sets kind key store contents print parse4 parse6 slice_name p before after d)
        ds

  -- The object is the one that is held under its name, and can be updated.
  abbrev pub IsIndexed : K → Object SliceSpec → Type 0
  IsIndexed k o = (find k o.meta.name ≡ some o) × IsWritable o

  find_named-IsIndexed :
      (k : K) (name : String) (index : List (Object SliceSpec)) (o : Object SliceSpec)
      → All (IsIndexed k) index
      → find_named name index ≡ some o
      → (find k name ≡ some o) × (o.meta.name ≡ name) × IsWritable o
  unfolding find_named
  find_named-IsIndexed k name [] o all e = absurd (cc)
  find_named-IsIndexed k name (x ∷ xs) o ((there, writable), all) e =
      elim (Bool-cases (x.meta.name == name)) [
        | inl same ↦
            let here : x ≡ o = ground (arith, e, same) in
            let named : x.meta.name ≡ name = (eq_iff x.meta.name name).0 same in
            rw⁻¹ here (ap (find k) (sym named) ∙ there, named, writable)
        | inr apart ↦ find_named-IsIndexed k name xs o all (ground (arith, e, apart))
      ]

  drop_named-IsIndexed :
      (k k' : K) (name : String) (index : List (Object SliceSpec))
      → Frame sets kind key store contents print parse4 parse6 slice_name p (λ n. name == n) k k'
      → All (IsIndexed k) index
      → All (IsIndexed k') (drop_named name index)
  unfolding drop_named
  drop_named-IsIndexed k k' name [] frame all = tt
  drop_named-IsIndexed k k' name (o ∷ index) frame ((there, writable), all) =
      elim (Bool-cases (o.meta.name == name)) [
        | inl same ↦ rw same (drop_named-IsIndexed k k' name index frame all)
        | inr apart ↦
            let other : (name == o.meta.name) ≡ false =
              ground (arith, apart, eq_iff o.meta.name name, eq_iff name o.meta.name) in
            rw apart (
              (frame o.meta.name other ∙ there, writable),
              drop_named-IsIndexed k k' name index frame all,
            )
      ]

  index_put-IsIndexed :
      (k : K) (o : Object SliceSpec) (index : List (Object SliceSpec))
      → IsIndexed k o
      → All (IsIndexed k) index
      → All (IsIndexed k) (index_put o index)
  unfolding index_put
  index_put-IsIndexed k o [] new all = (new, tt)
  index_put-IsIndexed k o (x ∷ index) new (old, all) =
      elim (Bool-cases (x.meta.name == o.meta.name)) [
        | inl same ↦ rw same (new, all)
        | inr apart ↦ rw apart (old, index_put-IsIndexed k o index new all)
      ]

  pub index_all-IsIndexed :
      (k : K) (os index : List (Object SliceSpec))
      → All (IsIndexed k) os
      → All (IsIndexed k) index
      → All (IsIndexed k) (index_all index os)
  unfolding index_all
  index_all-IsIndexed k [] index new all = all
  index_all-IsIndexed k (o ∷ os) index (one, new) all =
      index_all-IsIndexed k os (index_put o index) new (index_put-IsIndexed k o index one all)

  abbrev pub Keeps : List (Object SliceSpec) → (before after : K) → Type 0
  Keeps ds before after =
      AreStored ds before after
      × Frame sets kind key store contents print parse4 parse6 slice_name p
          (λ n. elem n (names_of ds)) before after

  apart-names :
      (name : String) (d : Object SliceSpec) (ds : List (Object SliceSpec))
      → elem name (names_of (d ∷ ds)) ≡ false
      → ((name == d.meta.name) ≡ false)
        × ((d.meta.name == name) ≡ false)
        × (elem name (names_of ds) ≡ false)
  apart-names name d ds absent = (
    ground (
      arith,
      absent,
      elem-names sets kind key store name d ds,
      eq_iff name d.meta.name,
      eq_iff d.meta.name name,
    ),
    ground (arith, absent, elem-names sets kind key store name d ds),
    ground (arith, absent, elem-names sets kind key store name d ds),
  )

  -- What was there before a step that wrote under another name
  moved :
      (name : String) (ds : List (Object SliceSpec)) (k k' k'' : K)
      → elem name (names_of ds) ≡ false
      → Frame sets kind key store contents print parse4 parse6 slice_name p (λ n. name == n) k k'
      → AreStored ds k' k''
      → AreStored ds k k''
  moved name [] k k' k'' absent frame all = tt
  moved name (d ∷ ds) k k' k'' absent frame ((o, found, revision, spec), all) =
      let (apart, _, later) = apart-names name d ds absent in
      (
        (
          o,
          found,
          revision,
          elim spec [ inl e ↦ inl e | inr before ↦ inr (sym (frame d.meta.name apart) ∙ before) ],
        ),
        moved name ds k k' k'' later frame all,
      )

  Keeps-cons :
      (d : Object SliceSpec) (ds : List (Object SliceSpec)) (k k' k'' : K)
      → elem d.meta.name (names_of ds) ≡ false
      → Settles sets kind key store contents print parse4 parse6 slice_name p d k k'
      → Keeps ds k' k''
      → Keeps (d ∷ ds) k k''
  Keeps-cons d ds k k' k'' absent ((o, found, revision, spec), frame) (all, frames) = (
    (
      (o, frames d.meta.name absent ∙ found, revision, spec),
      moved d.meta.name ds k k' k'' absent frame all,
    ),
    (λ n outside.
        let (_, apart, later) = apart-names n d ds outside in frames n later ∙ frame n apart),
  )

  pub settle_slices-Keeps :
      (controller owner : String) (ds index : List (Object SliceSpec)) (w : World sets kind key)
      → All (IsRevised print parse4 parse6 slice_name p) ds
      → Distinct (names_of ds)
      → All (IsIndexed w.1) index
      → After sets kind key store
          (λ _ w'. Keeps ds w.1 w'.1)
          (settle_slices sets print parse4 parse6 slice_name controller p key kind owner ds index w)
  unfolding settle_slices
  settle_slices-Keeps controller owner [] index w revised distinct all = (tt, (λ n e. refl))
  settle_slices-Keeps controller owner (d ∷ ds) index w (revision, revised) (absent, distinct) all =
      then-After sets kind key store
        (λ _ w'. Settles sets kind key store contents print parse4 parse6 slice_name p d w.1 w'.1)
        (λ _ w'. Keeps (d ∷ ds) w.1 w'.1) _ _
        (settle_slice-Settles sets kind key store contents print parse4 parse6 slice_name p
          controller owner d (find_named d.meta.name index) w revision
          (λ o e. find_named-IsIndexed w.1 d.meta.name index o all e))
        (λ _ w' one.
          map-After sets kind key store (λ _ w''. Keeps ds w'.1 w''.1)
            (λ _ w''. Keeps (d ∷ ds) w.1 w''.1) _
            (settle_slices-Keeps controller owner ds (drop_named d.meta.name index) w' revised
              distinct (drop_named-IsIndexed w.1 w'.1 d.meta.name index one.1 all))
            (λ _ w'' others. Keeps-cons d ds w.1 w'.1 w''.1 absent one others))

  deleted-Frame :
      (o : Object SliceSpec) (k : K) (cache : Cache sets) (r : Reply Unit × K)
      → (r.0 ≡ answered tt
          → (n : String) → find r.1 n ≡ (if o.meta.name == n then none else find k n))
      → ((e : Failure) → r.0 ≡ refused e → Refuses kind e)
      → After sets kind key store
          (λ _ w'.
            Frame sets kind key store contents print parse4 parse6 slice_name p
              (λ n. o.meta.name == n)
              k
              w'.1)
          (settle sets kind key deletions o.meta.name cache r)
  unfolding settle
  deleted-Frame o k cache (answered x, k') made fail = λ n apart. made refl n ∙ rw apart refl
  deleted-Frame o k cache (refused e, k') made fail = fail e refl

  delete_expected-Frame :
      (o : Object SliceSpec) (w : World sets kind key)
      → After sets kind key store
          (λ _ w'.
            Frame sets kind key store contents print parse4 parse6 slice_name p
              (λ n. o.meta.name == n)
              w.1
              w'.1)
          (delete_expected sets kind key o w)
  unfolding delete_expected expecting
  delete_expected-Frame o (cache, k) =
      deleted-Frame o k _ (kind.delete o k) (λ ok n. find-delete o k n ok)
        (λ e bad. on_delete o k e bad)

  pub delete_all-Frame :
      (os : List (Object SliceSpec)) (w : World sets kind key)
      → After sets kind key store
          (λ _ w'.
            Frame sets kind key store contents print parse4 parse6 slice_name p
              (λ n. elem n (names_of os))
              w.1
              w'.1)
          (delete_all sets kind key os w)
  unfolding delete_all
  delete_all-Frame [] w = λ n e. refl
  delete_all-Frame (o ∷ os) w =
      then-After sets kind key store
        (λ _ w'.
          Frame sets kind key store contents print parse4 parse6 slice_name p
            (λ n. o.meta.name == n) w.1 w'.1)
        (λ _ w'.
          Frame sets kind key store contents print parse4 parse6 slice_name p
            (λ n. elem n (names_of (o ∷ os))) w.1 w'.1)
        (delete_expected sets kind key o w) (λ _ w. delete_all sets kind key os w)
        (delete_expected-Frame o w)
        (λ _ w' one.
          map-After sets kind key store
            (λ _ w''.
              Frame sets kind key store contents print parse4 parse6 slice_name p
                (λ n. elem n (names_of os)) w'.1 w''.1)
            (λ _ w''.
              Frame sets kind key store contents print parse4 parse6 slice_name p
                (λ n. elem n (names_of (o ∷ os))) w.1 w''.1)
            (delete_all sets kind key os w') (delete_all-Frame os w')
            (λ _ w'' others n outside.
              let (_, apart, later) = apart-names n o os outside in others n later ∙ one n apart))

  -- What is stored stays where none of the names is touched.
  pub untouched :
      (ds : List (Object SliceSpec)) (touched : String → Bool) (k k' k'' : K)
      → ((n : String) → elem n (names_of ds) ≡ true → touched n ≡ false)
      → Frame sets kind key store contents print parse4 parse6 slice_name p touched k' k''
      → AreStored ds k k'
      → AreStored ds k k''
  untouched [] touched k k' k'' free frame all = tt
  untouched (d ∷ ds) touched k k' k'' free frame ((o, found, revision, spec), all) = (
    (
      o,
      frame d.meta.name (
            free d.meta.name (
              ground (
                arith,
                elem-names sets kind key store d.meta.name d ds,
                eq_iff d.meta.name d.meta.name,
              )))
          ∙ found,
      revision,
      spec,
    ),
    untouched ds touched k k' k''
        (λ n inside. free n (ground (arith, inside, elem-names sets kind key store n d ds))) frame
        all,
  )
