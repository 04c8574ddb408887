-- ===== src/Controllers/Proxy/Revision.antt =====
-- The revision of an object: what is written once is not written again, and what an update may panic on.
use kertical.Prelude.{
  ℕ, String, Bool, true, false, ◌≡◌, ◌≢◌, ◌∙◌, ◌↔◌, ◌⊎◌, ap, inl, inr, refl, Option, none, some,
  List, [], ◌∷◌, ◌==◌, string_Eq, SetPackage, if◌then◌else◌, Bool-cases, arith, ==_refl,
}
use text.Mathlib.TextEquality.{eq_iff}
use kertical.Expectations.{Cache}
use kertical.Controllers.Cluster.{Reply, answered, refused}
use kertical.Controllers.Proxy.{
  StringMap, Object, ServiceSpec, ExternalProxy, entry, or_empty, value_of, drop_entry, put,
  put_all, copy_map,
}
use kertical.Controllers.Proxy.Build.{
  revision_key, annotated, inject_revision, service_of, should_reconcile, new_service,
}
use kertical.Controllers.Proxy.Kinds.{
  Ran, gives, crashes, Kind, World, merged, merge, update_merged, updated,
}
use kertical.Controllers.Proxy.Sync.{settle_service, service_update}

entry-drop_entry :
    (j k : String) (m : List (String × String))
    → entry j (drop_entry k m) ≡ (if k == j then none else entry j m)
unfolding entry drop_entry
entry-drop_entry j k [] = ground arith
entry-drop_entry j k ((i, v) ∷ m) =
    ground (arith, entry-drop_entry j k m, eq_iff k j, eq_iff i j, eq_iff i k)

entry-put :
    (j k v : String) (m : List (String × String))
    → entry j (put k v m) ≡ (if k == j then some v else entry j m)
unfolding entry put
entry-put j k v m = ground (arith, entry-drop_entry j k m)

-- Entries of other keys leave an entry as it is.
entry-put_all :
    (j : String) (entries m : List (String × String))
    → entry j entries ≡ none
    → entry j (put_all m entries) ≡ entry j m
unfolding entry put_all
entry-put_all j [] m h = refl
entry-put_all j ((k, v) ∷ entries) m h = elim (Bool-cases (k == j)) [
  | inl same ↦ ground (arith, same, h)
  | inr apart ↦
      entry-put_all j entries (put k v m) (ground (arith, apart, h))
      ∙ ground (arith, entry-put j k v m, apart)
]

either_iff : {A B C D : Type 0} → A ↔ B → C ↔ D → A ⊎ C ↔ B ⊎ D
either_iff (f, g) (h, i) = (
  (λ x. elim x [ inl a ↦ inl (f a) | inr c ↦ inr (h c) ]),
  (λ x. elim x [ inl b ↦ inl (g b) | inr d ↦ inr (i d) ]),
)

abbrev pub has_entries : StringMap → Bool
has_entries none = false
has_entries (some []) = false
has_entries (some (x ∷ m)) = true

module _ (print : ℕ → String) (parse4 parse6 : String → Option String)
    (slice_name : (service : String) → (index : ℕ) → (suffix : String) → String) where
  pub value-annotated :
      (revision : String) (m : StringMap)
      → value_of revision_key (annotated print parse4 parse6 slice_name revision m) ≡ revision
  unfolding annotated value_of put entry
  value-annotated revision none = refl
  value-annotated revision (some m) = refl

  -- What maps.Copy makes of the annotations of an object that carries the revision.
  value-put_all :
      (m rest : List (String × String)) (revision : String)
      → entry revision_key rest ≡ none
      → value_of revision_key (some (put_all m ((revision_key, revision) ∷ rest))) ≡ revision
  unfolding value_of put_all
  value-put_all m rest revision h = ap or_empty (
      entry-put_all revision_key rest (put revision_key revision m) h
      ∙ entry-put revision_key revision_key revision m)

  pub value-copy_map :
      (old m : StringMap) (revision : String) (out : StringMap)
      → copy_map old (annotated print parse4 parse6 slice_name revision m) ≡ some out
      → value_of revision_key out ≡ revision
  unfolding copy_map annotated put entry
  value-copy_map none none revision out e = absurd (cc)
  value-copy_map none (some m) revision out e = absurd (cc)
  value-copy_map (some old) none revision out e =
      let same : some (put_all old ((revision_key, revision) ∷ [])) ≡ out = cc in
      rw⁻¹ same (value-put_all old [] revision refl)
  value-copy_map (some old) (some m) revision out e =
      let same : some (put_all old ((revision_key, revision) ∷ drop_entry revision_key m)) ≡ out =
        cc in
      rw⁻¹ same (
        value-put_all old (drop_entry revision_key m) revision
          (entry-drop_entry revision_key revision_key m))

  -- An object with the annotations of one that was built carries the revision.
  built-Current :
      {S : Type 0} (p : ExternalProxy) (built stored : Object S)
      → stored.meta.annotations
        ≡ (inject_revision print parse4 parse6 slice_name p built).meta.annotations
      → should_reconcile print parse4 parse6 slice_name p stored ≡ false
  unfolding should_reconcile inject_revision
  built-Current p built stored e = ground (
    arith,
    e,
    value-annotated (print p.generation) built.meta.annotations,
    ==_refl (print p.generation),
  )

  merged-Current :
      {S : Type 0} (p : ExternalProxy) (old new out : Object S) (spec : S)
      (labels annotations : Option StringMap)
      → ((m : StringMap) → annotations ≡ some m → value_of revision_key m ≡ print p.generation)
      → merged old new spec labels annotations ≡ some out
      → should_reconcile print parse4 parse6 slice_name p out ≡ false
  unfolding merged should_reconcile
  merged-Current p old new out spec (some labels) (some annotations) h e =
      let same : record old {
        meta = record old.meta { labels = labels; annotations = annotations };
        spec = spec;
      }
          ≡ out =
        cc in
      rw⁻¹ same (ground (arith, h annotations refl, ==_refl (print p.generation)))
  merged-Current p old new out spec (some labels) none h e = absurd (cc)
  merged-Current p old new out spec none annotations h e = absurd (cc)

  merge-Current :
      {S : Type 0} (p : ExternalProxy) (old built out : Object S) (spec : S)
      → merge old (inject_revision print parse4 parse6 slice_name p built) spec ≡ some out
      → should_reconcile print parse4 parse6 slice_name p out ≡ false
  unfolding merge inject_revision
  merge-Current p old built out spec e =
      let new =
        annotated print parse4 parse6 slice_name (print p.generation) built.meta.annotations in
      merged-Current p old (inject_revision print parse4 parse6 slice_name p built) out spec
        (copy_map old.meta.labels built.meta.labels) (copy_map old.meta.annotations new)
        (λ m h. value-copy_map old.meta.annotations built.meta.annotations (print p.generation) m h)
        e

  module _ (sets : SetPackage String) {K : Type 0} (controller : String) (p : ExternalProxy)
      (key : String) (kind : Kind K ServiceSpec) where
    abbrev settle :
        Option (Object ServiceSpec) → World sets kind key → Ran (World sets kind key) Unit
    settle found w =
        settle_service sets print parse4 parse6 slice_name controller p key kind found w

    settle-skips :
        (o : Object ServiceSpec) (w : World sets kind key)
        → should_reconcile print parse4 parse6 slice_name p o ≡ false
        → settle (some o) w ≡ gives tt w
    unfolding settle_service
    settle-skips o w h = rw h refl

    -- Once the Service of an ExternalProxy has been built, or updated with no panic, SyncService writes it no
    -- more while the generation is the same: neither a Service with the annotations of the one that was
    -- built, nor the one that an update of a Service of that name has made.
    pub settle_service-again :
        (old out stored : Object ServiceSpec) (w : World sets kind key)
        → stored.meta.annotations ≡ (new_service print parse4 parse6 slice_name p).meta.annotations
        → merge old
            (new_service print parse4 parse6 slice_name p)
            (service_update old.spec (new_service print parse4 parse6 slice_name p).spec)
          ≡ some out
        → (settle (some stored) w ≡ gives tt w) × (settle (some out) w ≡ gives tt w)
    unfolding new_service
    settle_service-again old out stored w same e = (
      settle-skips stored w
          (built-Current p (service_of print parse4 parse6 slice_name p) stored same),
      settle-skips out w (
          merge-Current p old (service_of print parse4 parse6 slice_name p) out
            (service_update old.spec (new_service print parse4 parse6 slice_name p).spec) e),
    )

    annotations-none :
        (old m : StringMap) (revision : String)
        → (copy_map old (annotated print parse4 parse6 slice_name revision m) ≡ none) ↔ (old ≡ none)
    unfolding copy_map annotated put
    annotations-none none none revision = ((λ e. refl), (λ e. refl))
    annotations-none none (some m) revision = ((λ e. refl), (λ e. refl))
    annotations-none (some old) none revision = ((λ e. absurd (cc)), (λ e. absurd (cc)))
    annotations-none (some old) (some m) revision = ((λ e. absurd (cc)), (λ e. absurd (cc)))

    labels-none :
        (old m : StringMap) → (copy_map old m ≡ none) ↔ (old ≡ none) × (has_entries m ≡ true)
    unfolding copy_map
    labels-none old none = ((λ e. absurd (cc)), (λ e. absurd (cc)))
    labels-none old (some []) = ((λ e. absurd (cc)), (λ e. absurd (cc)))
    labels-none none (some (x ∷ m)) = ((λ e. (refl, refl)), (λ e. refl))
    labels-none (some old) (some (x ∷ m)) = ((λ e. absurd (cc)), (λ e. absurd (cc)))

    updated-runs :
        (r : Reply Unit × K) (cache : Cache sets) → updated sets kind key r cache ≢ crashes
    unfolding updated
    updated-runs (answered a, k) cache = λ e. cc
    updated-runs (refused x, k) cache = λ e. cc

    merged-crashes :
        (old new : Object ServiceSpec) (spec : ServiceSpec) (labels annotations : Option StringMap)
        (w : World sets kind key)
        → (update_merged sets kind key (merged old new spec labels annotations) w ≡ crashes)
          ↔ (annotations ≡ none) ⊎ (labels ≡ none)
    unfolding merged update_merged
    merged-crashes old new spec none annotations w = ((λ e. inr refl), (λ e. refl))
    merged-crashes old new spec (some labels) none w = ((λ e. inl refl), (λ e. refl))
    merged-crashes old new spec (some labels) (some annotations) (cache, k) = (
      (λ e. absurd (updated-runs (kind.update _ k) cache e)),
      (λ e. elim e [ inl x ↦ absurd (cc) | inr x ↦ absurd (cc) ]),
    )

    -- When the existing Service has another revision, SyncService panics on it exactly if its annotations are
    -- a nil map, or its labels are a nil map and the ExternalProxy asks for labels.
    pub settle_service-crashes :
        (old : Object ServiceSpec) (w : World sets kind key)
        → should_reconcile print parse4 parse6 slice_name p old ≡ true
        → (settle (some old) w ≡ crashes)
          ↔ (old.meta.annotations ≡ none)
            ⊎ ((old.meta.labels ≡ none) × (has_entries p.service.labels ≡ true))
    unfolding settle_service merge new_service inject_revision
    settle_service-crashes old w stale =
        let new = new_service print parse4 parse6 slice_name p in
        let c =
          merged-crashes old new (service_update old.spec new.spec)
            (copy_map old.meta.labels p.service.labels)
            (copy_map old.meta.annotations new.meta.annotations) w in
        let e =
          either_iff
            (annotations-none old.meta.annotations p.service.annotations (print p.generation))
            (labels-none old.meta.labels p.service.labels) in
        rw stale ((λ x. e.0 (c.0 x)), (λ x. c.1 (e.1 x)))
