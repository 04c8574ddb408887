-- ===== src/Controllers/Proxy/Synced.antt =====
-- SyncEndpointSlices as a whole.
use kertical.Prelude.{ℕ, String, string_Eq, not, ◌&&◌, ◌||◌, ◌≡◌, Option, List, SetPackage, elem}
use kertical.Controllers.Proxy.{Object, SliceSpec, ExternalProxy}
use kertical.Controllers.Proxy.Build.{new_endpoint_slices}
use kertical.Controllers.Proxy.Kinds.{Kind, World}
use kertical.Controllers.Proxy.Keeping.{names_of, Store}
use kertical.Controllers.Proxy.Contents.{Contents}
use kertical.Controllers.Proxy.Stored.{AreStored, Keeps}
use kertical.Controllers.Proxy.Slices.{Settled}

module _ (sets : SetPackage String) {K : Type 0} (kind : Kind K SliceSpec) (key : String)
    (store : Store kind) (contents : Contents kind) (print : ℕ → String)
    (parse4 parse6 : String → Option String)
    (slice_name : (service : String) → (index : ℕ) → (suffix : String) → String)
    (controller : String) (p : ExternalProxy)
    (iterate : List (Object SliceSpec) → List (Object SliceSpec)) where
  open store use {has, sorts, sorts_all}

  abbrev desired : List (Object SliceSpec)
  desired = new_endpoint_slices print parse4 parse6 slice_name controller p

  -- The desired names are there, and of those that were listed no others; under the desired names is what is
  -- desired.
  abbrev pub IsSynced : List (Object SliceSpec) → K → World sets kind key → Type 0
  IsSynced owned k w' =
      ((n : String)
        → has w'.1 n ≡ (
            elem n (names_of (new_endpoint_slices print parse4 parse6 slice_name controller p))
            || (not (elem n (names_of owned)) && has k n)))
      × AreStored sets kind key store contents print parse4 parse6 slice_name p
          (new_endpoint_slices print parse4 parse6 slice_name controller p) k w'.1

  abbrev Looped :
      List (Object SliceSpec)
      → World sets kind key
      → List (Object SliceSpec)
      → World sets kind key
      → Type 0
  Looped index w index' w' =
      Settled sets kind key store print parse4 parse6 slice_name controller p desired index w index'
        w'
      × Keeps sets kind key store contents print parse4 parse6 slice_name p desired w.1 w'.1
