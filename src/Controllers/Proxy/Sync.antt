-- ===== src/Controllers/Proxy/Sync.antt =====
-- internal/controller/networking/externalproxy_controller.go: SyncService, SyncEndpointSlices, SyncIngress.
use kertical.Prelude.{
  ℕ, String, Option, none, some, List, [], ◌∷◌, ◌==◌, string_Eq, SetPackage, if◌then◌else◌,
}
use kertical.Events.{Request}
use kertical.Controllers.Cluster.{Reply, answered, refused}
use kertical.Controllers.Proxy.{
  Object, ServiceSpec, SliceSpec, IngressSpec, ProxyIngress, ExternalProxy,
}
use kertical.Controllers.Proxy.Build.{
  service_key, should_reconcile, new_service, new_endpoint_slices, new_ingress,
}
use kertical.Controllers.Proxy.Kinds.{
  Ran, gives, stops, crashes, then_run, Kind, merge, World, create_expected, update_merged,
  list_live, sync_activated, delete_all,
}

-- endpointSliceIndex, as the objects under their names; `iterate` is the order in which a map is ranged over.
unfoldable pub index_put : {S : Type 0} → Object S → List (Object S) → List (Object S)
index_put o [] = o ∷ []
index_put o (x ∷ xs) =
    let rest = index_put o xs in if x.meta.name == o.meta.name then o ∷ xs else x ∷ rest

unfoldable pub index_all : {S : Type 0} → List (Object S) → List (Object S) → List (Object S)
unfolding index_put
index_all index [] = index
index_all index (o ∷ os) = index_all (index_put o index) os

unfoldable pub find_named : {S : Type 0} → String → List (Object S) → Option (Object S)
find_named name [] = none
find_named name (o ∷ os) =
    let rest = find_named name os in if o.meta.name == name then some o else rest

unfoldable pub drop_named : {S : Type 0} → String → List (Object S) → List (Object S)
drop_named name [] = []
drop_named name (o ∷ os) =
    let rest = drop_named name os in if o.meta.name == name then rest else o ∷ rest

-- The spec that an update of an existing object has.
abbrev pub service_update : ServiceSpec → ServiceSpec → ServiceSpec
service_update old new = record old { service_type = new.service_type; ports = new.ports }

abbrev pub class_or : Option String → Option String → Option String
class_or old none = old
class_or old (some class) = some class

abbrev pub ingress_update : IngressSpec → IngressSpec → IngressSpec
ingress_update old new = record new { class_name = class_or old.class_name new.class_name }

module _ (sets : SetPackage String) {K : Type 0} (print : ℕ → String)
    (parse4 parse6 : String → Option String)
    (slice_name : (service : String) → (index : ℕ) → (suffix : String) → String)
    (controller : String) (p : ExternalProxy) (key : String) where
  -- What is done with the object of the name, if there is one, once the others are deleted.
  unfoldable pub settle_service :
      (kind : Kind K ServiceSpec)
      → Option (Object ServiceSpec)
      → World sets kind key
      → Ran (World sets kind key) Unit
  settle_service kind none w =
      create_expected sets kind key p.uid (new_service print parse4 parse6 slice_name p) w
  settle_service kind (some o) w =
      let new = new_service print parse4 parse6 slice_name p in
      if should_reconcile print parse4 parse6 slice_name p o
      then update_merged sets kind key (merge o new (service_update o.spec new.spec)) w
      else gives tt w

  unfoldable pub sync_service :
      (kind : Kind K ServiceSpec) → World sets kind key → Ran (World sets kind key) Unit
  unfolding settle_service
  sync_service kind w = then_run (list_live sets kind key p.key.namespace p.uid w) (λ owned w.
      then_run (sync_activated sets kind key p.service.name none owned w) (settle_service kind))

  -- One desired EndpointSlice, with the one of its name; `owner` is the UID of the Service.
  unfoldable pub settle_slice :
      (kind : Kind K SliceSpec) (owner : String)
      → Object SliceSpec
      → Option (Object SliceSpec)
      → World sets kind key
      → Ran (World sets kind key) Unit
  settle_slice kind owner d none w = create_expected sets kind key owner d w
  settle_slice kind owner d (some o) w =
      if should_reconcile print parse4 parse6 slice_name p o
      then update_merged sets kind key (merge o d d.spec) w
      else gives tt w

  -- The loop over the desired EndpointSlices, with the index that it leaves.
  unfoldable pub settle_slices :
      (kind : Kind K SliceSpec) (owner : String)
      → (desired index : List (Object SliceSpec)) → World sets kind key
      → Ran (World sets kind key) (List (Object SliceSpec))
  unfolding settle_slice
  settle_slices kind owner [] index w = gives index w
  settle_slices kind owner (d ∷ ds) index w =
      then_run (settle_slice kind owner d (find_named d.meta.name index) w)
        (λ _ w. settle_slices kind owner ds (drop_named d.meta.name index) w)

  unfoldable pub sync_slices_of :
      (kind : Kind K SliceSpec) (iterate : List (Object SliceSpec) → List (Object SliceSpec))
      → Reply (Object ServiceSpec)
      → World sets kind key
      → Ran (World sets kind key) Unit
  unfolding settle_slices
  sync_slices_of kind iterate (refused e) w = stops e w
  sync_slices_of kind iterate (answered service) w =
      then_run (list_live sets kind key service.meta.namespace service.meta.uid w) (λ owned w.
        then_run
          (settle_slices kind service.meta.uid
            (new_endpoint_slices print parse4 parse6 slice_name controller p) (index_all [] owned)
            w)
          (λ index w. delete_all sets kind key (iterate index) w))

  unfoldable pub sync_endpoint_slices :
      (kind : Kind K SliceSpec) (iterate : List (Object SliceSpec) → List (Object SliceSpec))
      (get_service : Request → K → Reply (Object ServiceSpec))
      → World sets kind key
      → Ran (World sets kind key) Unit
  unfolding sync_slices_of
  sync_endpoint_slices kind iterate get_service (cache, k) =
      sync_slices_of kind iterate (get_service (service_key p) k) (cache, k)

  unfoldable pub settle_ingress :
      (kind : Kind K IngressSpec)
      → Option (Object IngressSpec)
      → Option (Object IngressSpec)
      → World sets kind key
      → Ran (World sets kind key) Unit
  settle_ingress kind none found w = crashes
  settle_ingress kind (some new) none w = create_expected sets kind key p.uid new w
  settle_ingress kind (some new) (some o) w =
      if should_reconcile print parse4 parse6 slice_name p o
      then update_merged sets kind key (merge o new (ingress_update o.spec new.spec)) w
      else gives tt w

  unfoldable pub sync_ingresses :
      (kind : Kind K IngressSpec)
      → Option ProxyIngress
      → List (Object IngressSpec)
      → World sets kind key
      → Ran (World sets kind key) Unit
  unfolding settle_ingress
  sync_ingresses kind none owned w = delete_all sets kind key owned w
  sync_ingresses kind (some i) owned w =
      then_run (sync_activated sets kind key i.name none owned w)
        (settle_ingress kind (new_ingress print parse4 parse6 slice_name p i))

  unfoldable pub sync_ingress :
      (kind : Kind K IngressSpec) → World sets kind key → Ran (World sets kind key) Unit
  unfolding sync_ingresses
  sync_ingress kind w =
      then_run (list_live sets kind key p.key.namespace p.uid w)
        (λ owned w. sync_ingresses kind p.ingress owned w)
