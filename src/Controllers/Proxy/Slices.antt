-- ===== src/Controllers/Proxy/Slices.antt =====
-- SyncEndpointSlices: which EndpointSlices a Service has after it.
use kertical.Prelude.{
  ℕ, String, string_Eq, true, not, ◌&&◌, ◌||◌, ◌≡◌, ◌≢◌, refl, Option, none, some, List, [], ◌∷◌,
  ◌==◌, SetPackage, Bool-cases, inl, inr, arith, elem,
}
use text.Mathlib.TextEquality.{eq_iff}
use kertical.Expectations.{creations, Cache}
use kertical.Controllers.Cluster.{Failure, Reply, answered, refused}
use kertical.Controllers.Proxy.{StringMap, Object, SliceSpec, ExternalProxy, copy_map}
use kertical.Controllers.Proxy.Build.{should_reconcile}
use kertical.Controllers.Proxy.Kinds.{
  Kind, World, settle, expecting, create_controlled, create_expected, updated, update_merged,
  merged, merge,
}
use kertical.Controllers.Proxy.Keeping.{
  names_of, Store, Refuses, on_create, on_update, on_controller, After, then-After, map-After,
  elem-names,
}
use kertical.Controllers.Proxy.Listed.{
  IsWritable, Come, Is, IsListed, find_named-IsListed, IsListed-keep, elem-drop_named,
}
use kertical.Controllers.Proxy.Sync.{find_named, drop_named, settle_slice, settle_slices}

pub copy_map-some : (old new : StringMap) → old ≢ none → copy_map old new ≢ none
unfolding copy_map
copy_map-some old none h = λ e. cc
copy_map-some old (some []) h = λ e. cc
copy_map-some none (some (x ∷ m)) h = absurd (h refl)
copy_map-some (some old) (some (x ∷ m)) h = λ e. cc

module _ (sets : SetPackage String) {K : Type 0} (kind : Kind K SliceSpec) (key : String)
    (store : Store kind) where
  open store use {has, has-create, has-update, named, sorts}

  settle-Come :
      (name : String) (o : Object SliceSpec) (w : World sets kind key) (cache : Cache sets)
      (r : Reply Unit × K)
      → o.meta.name ≡ name
      → (r.0 ≡ answered tt → (n : String) → has r.1 n ≡ (o.meta.name == n || has w.1 n))
      → ((e : Failure) → r.0 ≡ refused e → Refuses kind e)
      → After sets kind key store
          (λ _ w'. Come sets kind key store (Is sets kind key store name) w w')
          (settle sets kind key creations o.meta.name cache r)
  unfolding settle
  settle-Come name o (c, k) cache (answered x, k') same made fail =
      λ n. ground (arith, same, made refl n)
  settle-Come name o (c, k) cache (refused e, k') same made fail = fail e refl

  controlled-Come :
      (owner : String) (d : Object SliceSpec) (w : World sets kind key)
      (r : Reply (Object SliceSpec))
      → kind.set_controller owner d ≡ r
      → After sets kind key store
          (λ _ w'. Come sets kind key store (Is sets kind key store d.meta.name) w w')
          (create_controlled sets kind key r w)
  unfolding create_controlled expecting
  controlled-Come owner d w (refused e) set = on_controller owner d e set
  controlled-Come owner d (cache, k) (answered o) set =
      settle-Come d.meta.name o (cache, k) _ (kind.create o k) (named owner d o set)
        (λ ok n. has-create o k n ok) (λ e bad. on_create o k e bad)

  create_expected-Come :
      (owner : String) (d : Object SliceSpec) (w : World sets kind key)
      → After sets kind key store
          (λ _ w'. Come sets kind key store (Is sets kind key store d.meta.name) w w')
          (create_expected sets kind key owner d w)
  unfolding create_expected
  create_expected-Come owner d w = controlled-Come owner d w (kind.set_controller owner d) refl

  updated-Come :
      (name : String) (w : World sets kind key) (cache : Cache sets) (r : Reply Unit × K)
      → has w.1 name ≡ true
      → (r.0 ≡ answered tt → (n : String) → has r.1 n ≡ has w.1 n)
      → ((e : Failure) → r.0 ≡ refused e → Refuses kind e)
      → After sets kind key store
          (λ _ w'. Come sets kind key store (Is sets kind key store name) w w')
          (updated sets kind key r cache)
  unfolding updated
  updated-Come name (c, k) cache (answered x, k') there same fail =
      λ n. ground (arith, eq_iff name n, there, same refl n)
  updated-Come name (c, k) cache (refused e, k') there same fail = fail e refl

  merged-Come :
      (name : String) (o d : Object SliceSpec) (spec : SliceSpec)
      (labels annotations : Option StringMap) (w : World sets kind key)
      → has w.1 name ≡ true
      → labels ≢ none
      → annotations ≢ none
      → After sets kind key store
          (λ _ w'. Come sets kind key store (Is sets kind key store name) w w')
          (update_merged sets kind key (merged o d spec labels annotations) w)
  unfolding merged update_merged
  merged-Come name o d spec none annotations w there ls as_ = absurd (ls refl)
  merged-Come name o d spec (some labels) none w there ls as_ = absurd (as_ refl)
  merged-Come name o d spec (some labels) (some annotations) (cache, k) there ls as_ =
      updated-Come name (cache, k) cache (kind.update _ k) there (λ ok n. has-update _ k n ok)
        (λ e bad. on_update _ k e bad)

  update_merged-Come :
      (name : String) (o d : Object SliceSpec) (w : World sets kind key)
      → has w.1 name ≡ true
      → IsWritable o
      → After sets kind key store
          (λ _ w'. Come sets kind key store (Is sets kind key store name) w w')
          (update_merged sets kind key (merge o d d.spec) w)
  unfolding merge
  update_merged-Come name o d w there (labels, annotations) =
      merged-Come name o d d.spec (copy_map o.meta.labels d.meta.labels)
        (copy_map o.meta.annotations d.meta.annotations) w there
        (copy_map-some o.meta.labels d.meta.labels labels)
        (copy_map-some o.meta.annotations d.meta.annotations annotations)

  module _ (print : ℕ → String) (parse4 parse6 : String → Option String)
      (slice_name : (service : String) → (index : ℕ) → (suffix : String) → String)
      (controller : String) (p : ExternalProxy) where
    settle_slice-Come :
        (owner : String) (d : Object SliceSpec) (found : Option (Object SliceSpec))
        (w : World sets kind key)
        → ((o : Object SliceSpec) → found ≡ some o → (has w.1 d.meta.name ≡ true) × IsWritable o)
        → After sets kind key store
            (λ _ w'. Come sets kind key store (Is sets kind key store d.meta.name) w w')
            (settle_slice sets print parse4 parse6 slice_name controller p key kind owner d found w)
    unfolding settle_slice
    settle_slice-Come owner d none w there = create_expected-Come owner d w
    settle_slice-Come owner d (some o) (c, k) there =
        let (here, writable) = there o refl in
        elim (Bool-cases (should_reconcile print parse4 parse6 slice_name p o)) [
          | inl stale ↦ rw stale (update_merged-Come d.meta.name o d (c, k) here writable)
          | inr current ↦ rw current (λ n. ground (arith, eq_iff d.meta.name n, here))
        ]

    abbrev pub Settled :
        (ds index : List (Object SliceSpec))
        → World sets kind key
        → List (Object SliceSpec)
        → World sets kind key
        → Type 0
    Settled ds index w index' w' =
        ((n : String)
          → elem n (names_of index') ≡ (elem n (names_of index) && not (elem n (names_of ds))))
        × Come sets kind key store (λ n. elem n (names_of ds)) w w'

    Settled-cons :
        (d : Object SliceSpec) (ds index index' : List (Object SliceSpec))
        (w w' w'' : World sets kind key)
        → Come sets kind key store (Is sets kind key store d.meta.name) w w'
        → Settled ds (drop_named d.meta.name index) w' index' w''
        → Settled (d ∷ ds) index w index' w''
    Settled-cons d ds index index' (c, k) (c', k') (c'', k'') come (left, later) = (
      (λ n. ground (
        arith,
        left n,
        elem-drop_named sets kind key store n d.meta.name index,
        elem-names sets kind key store n d ds,
      )),
      (λ n. ground (arith, later n, come n, elem-names sets kind key store n d ds)),
    )

    pub settle_slices-Settled :
        (owner : String) (ds index : List (Object SliceSpec)) (w : World sets kind key)
        → IsListed sets kind key store w.1 index
        → After sets kind key store (Settled ds index w) (
            settle_slices sets print parse4 parse6 slice_name controller p key kind owner ds index
              w)
    unfolding settle_slices
    settle_slices-Settled owner [] index (c, k) listed = ((λ n. ground arith), (λ n. ground arith))
    settle_slices-Settled owner (d ∷ ds) index w listed =
        then-After sets kind key store
          (λ _ w'. Come sets kind key store (Is sets kind key store d.meta.name) w w')
          (Settled (d ∷ ds) index w)
          (settle_slice sets print parse4 parse6 slice_name controller p key kind owner d
            (find_named d.meta.name index) w)
          (λ _ w.
            settle_slices sets print parse4 parse6 slice_name controller p key kind owner ds
              (drop_named d.meta.name index) w)
          (settle_slice-Come owner d (find_named d.meta.name index) w
            (λ o e. find_named-IsListed sets kind key store w.1 d.meta.name index o listed e))
          (λ _ w' come.
            map-After sets kind key store (Settled ds (drop_named d.meta.name index) w')
              (Settled (d ∷ ds) index w) _
              (settle_slices-Settled owner ds (drop_named d.meta.name index) w' (
                IsListed-keep sets kind key store (Is sets kind key store d.meta.name) w w'
                  d.meta.name index come listed))
              (λ index' w'' s. Settled-cons d ds index index' w w' w'' come s))
