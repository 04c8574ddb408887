-- ===== src/Controllers/Proxy/Contents.antt =====
-- What the EndpointSlices of a Service hold after the loop of SyncEndpointSlices.
use kertical.Prelude.{
  ℕ, String, string_Eq, Bool, false, ◌≡◌, ◌≢◌, ◌∙◌, refl, ap, sym, ◌⊎◌, Option, none, some, List,
  [], ◌∷◌, ◌==◌, SetPackage, Bool-cases, inl, inr, elem, if◌then◌else◌, ==_refl,
}
use text.Mathlib.TextEquality.{eq_iff}
use kertical.Expectations.{creations, Cache}
use kertical.Controllers.Cluster.{Failure, Reply, answered, refused}
use kertical.Controllers.Proxy.{StringMap, Object, SliceSpec, ExternalProxy, copy_map, value_of}
use kertical.Controllers.Proxy.Build.{revision_key, annotated, should_reconcile}
use kertical.Controllers.Proxy.Build.Revised.{IsRevised}
use kertical.Controllers.Proxy.Revision.{value-annotated, value-copy_map}
use kertical.Controllers.Proxy.Kinds.{
  Kind, World, settle, expecting, create_controlled, create_expected, updated, update_merged,
  merged, merge,
}
use kertical.Controllers.Proxy.Keeping.{Store, Refuses, on_create, on_update, on_controller, After}
use kertical.Controllers.Proxy.Listed.{IsWritable}
use kertical.Controllers.Proxy.Slices.{copy_map-some}
use kertical.Controllers.Proxy.Sync.{settle_slice}

-- What the API server holds under a name: what was written last, where no admission plugin changes it and
-- nobody else writes it. A reference to the controller changes neither
-- the specification nor the annotations.
pub record Contents {K S : Type 0} (kind : Kind K S) : Type 1 where
  pub find : K → String → Option (Object S)
  pub find-create :
      (o : Object S) (k : K) (n : String)
      → (kind.create o k).0 ≡ answered tt
      → find (kind.create o k).1 n ≡ (if o.meta.name == n then some o else find k n)
  pub find-update :
      (o : Object S) (k : K) (n : String)
      → (kind.update o k).0 ≡ answered tt
      → find (kind.update o k).1 n ≡ (if o.meta.name == n then some o else find k n)
  pub find-delete :
      (o : Object S) (k : K) (n : String)
      → (kind.delete o k).0 ≡ answered tt
      → find (kind.delete o k).1 n ≡ (if o.meta.name == n then none else find k n)
  pub controlled :
      (uid : String) (o o' : Object S)
      → kind.set_controller uid o ≡ answered o'
      → (o'.spec ≡ o.spec) × (o'.meta.annotations ≡ o.meta.annotations)

abbrev pub Distinct : List String → Type 0
Distinct [] = Unit
Distinct (n ∷ ns) = (elem n ns ≡ false) × Distinct ns

module _ (sets : SetPackage String) {K : Type 0} (kind : Kind K SliceSpec) (key : String)
    (store : Store kind) (contents : Contents kind) (print : ℕ → String)
    (parse4 parse6 : String → Option String)
    (slice_name : (service : String) → (index : ℕ) → (suffix : String) → String)
    (p : ExternalProxy) where
  open contents use {find, find-create, find-update, find-delete, controlled}

  -- The object of the name has the revision of the ExternalProxy, and the specification that is desired, if
  -- it is not the object that was there before.
  abbrev pub IsStored : (before after : K) → Object SliceSpec → Type 0
  IsStored before after d =
      (o : Object SliceSpec) × (find after d.meta.name ≡ some o)
      × (value_of revision_key o.meta.annotations ≡ print p.generation)
      × ((o.spec ≡ d.spec) ⊎ (find before d.meta.name ≡ some o))

  -- Nothing has changed but under the names.
  abbrev pub Frame : (String → Bool) → (before after : K) → Type 0
  Frame names before after = (n : String) → names n ≡ false → find after n ≡ find before n

  abbrev pub Settles : Object SliceSpec → (before after : K) → Type 0
  Settles d before after = IsStored before after d × Frame (λ n. d.meta.name == n) before after

  written-Settles :
      (d o : Object SliceSpec) (k k' : K)
      → o.meta.name ≡ d.meta.name
      → o.spec ≡ d.spec
      → value_of revision_key o.meta.annotations ≡ print p.generation
      → ((n : String) → find k' n ≡ (if o.meta.name == n then some o else find k n))
      → Settles d k k'
  written-Settles d o k k' same spec revision made = (
    (o, made d.meta.name ∙ rw same (rw (==_refl d.meta.name) refl), revision, inl spec),
    (λ n apart. made n ∙ rw same (rw apart refl)),
  )

  created-Settles :
      (d o : Object SliceSpec) (k : K) (name : String) (cache : Cache sets) (r : Reply Unit × K)
      → (r.0 ≡ answered tt → Settles d k r.1)
      → ((e : Failure) → r.0 ≡ refused e → Refuses kind e)
      → After sets kind key store
          (λ _ w'. Settles d k w'.1)
          (settle sets kind key creations name cache r)
  unfolding settle
  created-Settles d o k name cache (answered x, k') made fail = made refl
  created-Settles d o k name cache (refused e, k') made fail = fail e refl

  controlled-Settles :
      (owner : String) (d : Object SliceSpec) (w : World sets kind key)
      (r : Reply (Object SliceSpec))
      → value_of revision_key d.meta.annotations ≡ print p.generation
      → kind.set_controller owner d ≡ r
      → After sets kind key store (λ _ w'. Settles d w.1 w'.1) (create_controlled sets kind key r w)
  unfolding create_controlled expecting
  controlled-Settles owner d w (refused e) revision set = on_controller owner d e set
  controlled-Settles owner d (cache, k) (answered o) revision set =
      let (spec, annotations) = controlled owner d o set in
      created-Settles d o k o.meta.name _ (kind.create o k)
        (λ ok.
          written-Settles d o k (kind.create o k).1 (store.named owner d o set) spec
            (ap (value_of revision_key) annotations ∙ revision) (λ n. find-create o k n ok))
        (λ e bad. on_create o k e bad)

  create-Settles :
      (owner : String) (d : Object SliceSpec) (w : World sets kind key)
      → value_of revision_key d.meta.annotations ≡ print p.generation
      → After sets kind key store
          (λ _ w'. Settles d w.1 w'.1)
          (create_expected sets kind key owner d w)
  unfolding create_expected
  create-Settles owner d w revision = controlled-Settles owner d w _ revision refl

  updated-Settles :
      (d : Object SliceSpec) (k : K) (cache : Cache sets) (r : Reply Unit × K)
      → (r.0 ≡ answered tt → Settles d k r.1)
      → ((e : Failure) → r.0 ≡ refused e → Refuses kind e)
      → After sets kind key store (λ _ w'. Settles d k w'.1) (updated sets kind key r cache)
  unfolding updated
  updated-Settles d k cache (answered x, k') made fail = made refl
  updated-Settles d k cache (refused e, k') made fail = fail e refl

  merged-Settles :
      (o d : Object SliceSpec) (labels annotations : StringMap) (w : World sets kind key)
      → o.meta.name ≡ d.meta.name
      → value_of revision_key annotations ≡ print p.generation
      → After sets kind key store
          (λ _ w'. Settles d w.1 w'.1)
          (update_merged sets kind key (merged o d d.spec (some labels) (some annotations)) w)
  unfolding merged update_merged
  merged-Settles o d labels annotations (cache, k) same revision =
      updated-Settles d k cache (kind.update _ k)
        (λ ok. written-Settles d _ k _ same refl revision (λ n. find-update _ k n ok))
        (λ e bad. on_update _ k e bad)

  copied-Settles :
      (o d : Object SliceSpec) (labels annotations : Option StringMap) (w : World sets kind key)
      → o.meta.name ≡ d.meta.name
      → labels ≢ none
      → annotations ≢ none
      → ((out : StringMap)
          → annotations ≡ some out
          → value_of revision_key out ≡ print p.generation)
      → After sets kind key store
          (λ _ w'. Settles d w.1 w'.1)
          (update_merged sets kind key (merged o d d.spec labels annotations) w)
  unfolding merged update_merged
  copied-Settles o d none annotations w same ls as_ revision = absurd (ls refl)
  copied-Settles o d (some labels) none w same ls as_ revision = absurd (as_ refl)
  copied-Settles o d (some labels) (some annotations) w same ls as_ revision =
      merged-Settles o d labels annotations w same (revision annotations refl)

  merge-Settles :
      (o d : Object SliceSpec) (m : StringMap) (w : World sets kind key)
      → o.meta.name ≡ d.meta.name
      → d.meta.annotations ≡ annotated print parse4 parse6 slice_name (print p.generation) m
      → o.meta.annotations ≢ none
      → o.meta.labels ≢ none
      → After sets kind key store
          (λ _ w'. Settles d w.1 w'.1)
          (update_merged sets kind key (merge o d d.spec) w)
  unfolding merge
  merge-Settles o d m w same revised annotations labels =
      copied-Settles o d (copy_map o.meta.labels d.meta.labels)
        (copy_map o.meta.annotations d.meta.annotations) w same
        (copy_map-some o.meta.labels d.meta.labels labels)
        (copy_map-some o.meta.annotations d.meta.annotations annotations)
        (λ out e.
          value-copy_map print parse4 parse6 slice_name o.meta.annotations m (print p.generation)
            out (ap (copy_map o.meta.annotations) (sym revised) ∙ e))

  pub settle_slice-Settles :
      (controller owner : String) (d : Object SliceSpec) (found : Option (Object SliceSpec))
      (w : World sets kind key)
      → IsRevised print parse4 parse6 slice_name p d
      → ((o : Object SliceSpec)
          → found ≡ some o
          → (find w.1 d.meta.name ≡ some o) × (o.meta.name ≡ d.meta.name) × IsWritable o)
      → After sets kind key store
          (λ _ w'. Settles d w.1 w'.1)
          (settle_slice sets print parse4 parse6 slice_name controller p key kind owner d found w)
  unfolding settle_slice should_reconcile
  settle_slice-Settles controller owner d none w (m, revised) there = create-Settles owner d w (
      ap (value_of revision_key) revised
      ∙ value-annotated print parse4 parse6 slice_name (print p.generation) m)
  settle_slice-Settles controller owner d (some o) (cache, k) (m, revised) there =
      let (here, same, (labels, annotations)) = there o refl in
      elim (Bool-cases (value_of revision_key o.meta.annotations == print p.generation)) [
        | inl current ↦ rw current (
          (
            o,
            here,
            (eq_iff (value_of revision_key o.meta.annotations) (print p.generation)).0 current,
            inr here,
          ),
          (λ n apart. refl),
        )
        | inr stale ↦ rw stale (merge-Settles o d m (cache, k) same revised annotations labels)
      ]
