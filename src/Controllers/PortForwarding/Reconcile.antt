-- ===== src/Controllers/PortForwarding/Reconcile.antt =====
-- `Reconcile` with what it calls, over a client and a forwarder.
use kertical.Prelude.{
  ℕ, String, Bool, true, false, Option, none, some, List, [], ◌∷◌, if◌then◌else◌,
}
use kertical.Events.{Request}
use kertical.Forwarding.Types.{PortForwarding}
use kertical.Controllers.Ports.{
  Service, EndpointSlice, State, no_target, ForwardedPort, sync_forwarding_ports,
}
use kertical.Controllers.Cluster.{
  not_found, conflict, other_failure, Reply, answered, refused, Retrying, Reconciled, finished,
  requeued, erred, crashed,
}
use kertical.Controllers.Objects.{
  Finalizers, Resource, Client, add_finalizer, remove_finalizer, patch_node_forwarded_status,
}
use kertical.Controllers.PortForwarding.{
  Visited, visited, stopped, panicked, visit, remove_port, apply_sync, node_ports, active_ports,
  live_slices,
}

unfoldable pub status_written : {U K : Type 0} → U → Reply Unit × K → Reconciled (U × K)
status_written u (answered _, k) = finished (u, k)
status_written u (refused e, k) = erred (u, k)

unfoldable pub released : {U K : Type 0} → U → Reply Bool × K → Reconciled (U × K)
released u (refused e, k) = erred (u, k)
released u (answered true, k) = requeued (u, k)
released u (answered false, k) = finished (u, k)

-- `sort_hosts` and `sort_ports` are the two calls of slices.SortFunc.
module _ (names : Finalizers) {K : Type 0} (retrying : Retrying K) (client : Client K names.Names)
    (atoi : String → ℕ) {U : Type 0} (impl : PortForwarding U) (node : String)
    (sort_hosts : List String → List String)
    (sort_ports : List ForwardedPort → List ForwardedPort) where
  open names use {Names, contains}
  open client use {get, get_service, list_endpoint_slices}

  -- The status is written once a loop has come to its end.
  unfoldable pub write_status : Request → List ForwardedPort → U → K → Reconciled (U × K)
  unfolding status_written
  write_status key ports u k =
      status_written u (patch_node_forwarded_status names retrying client key node ports k)

  unfoldable pub write_visited : Request → Visited U → K → Reconciled (U × K)
  unfolding write_status
  write_visited key (visited ports u) k = write_status key ports u k
  write_visited key (stopped u) k = erred (u, k)
  write_visited key panicked k = crashed

  -- Nothing to do for a node with no ports.
  unfoldable pub remove_active :
      Request → Option State → List ForwardedPort → U → K → Reconciled (U × K)
  unfolding write_visited
  remove_active key reason [] u k = finished (u, k)
  remove_active key reason (f ∷ fs) u k =
      write_visited key (visit (remove_port atoi impl reason) (f ∷ fs) u) k

  -- removePortForwarding
  unfoldable pub remove_port_forwarding : Resource Names → Option State → U → K → Reconciled (U × K)
  unfolding remove_active
  remove_port_forwarding o reason u k =
      remove_active o.key reason (active_ports node o.node_statuses) u k

  unfoldable pub sorted : Visited U → Visited U
  sorted (visited ports u) = visited (sort_ports ports) u
  sorted (stopped u) = stopped u
  sorted panicked = panicked

  abbrev pub service_key : Resource Names → Request
  service_key o = record { namespace = o.key.namespace; name = o.service_name }

  unfoldable pub sync_listed :
      Resource Names → Service → Reply (List (Bool × EndpointSlice)) → U → K → Reconciled (U × K)
  unfolding sorted write_visited
  sync_listed o svc (refused e) u k = erred (u, k)
  sync_listed o svc (answered slices) u k =
      write_visited o.key
        (sorted (
          apply_sync atoi impl o.service_name
            (sync_forwarding_ports sort_hosts o.ports (node_ports node o.node_statuses) svc
              (live_slices slices))
            u))
        k

  unfoldable pub sync_service : Resource Names → Reply Service → U → K → Reconciled (U × K)
  unfolding sync_listed
  sync_service o (refused not_found) u k = remove_port_forwarding o (some no_target) u k
  sync_service o (refused conflict) u k = erred (u, k)
  sync_service o (refused other_failure) u k = erred (u, k)
  sync_service o (answered svc) u k = sync_listed o svc (list_endpoint_slices (service_key o) k) u k

  unfoldable pub sync_port_forwarding : Resource Names → U → K → Reconciled (U × K)
  unfolding sync_service
  sync_port_forwarding o u k = sync_service o (get_service (service_key o) k) u k

  -- After removePortForwarding of an object that is being deleted.
  unfoldable pub release_with : Resource Names → Reconciled (U × K) → Reconciled (U × K)
  unfolding released
  release_with o (finished (u, k)) = released u (remove_finalizer names retrying client o k)
  release_with o (requeued w) = requeued w
  release_with o (erred w) = erred w
  release_with o (Reconciled.requeued_after delay w) = Reconciled.requeued_after delay w
  release_with o crashed = crashed

  unfoldable pub reconcile_deleting : Resource Names → U → K → Reconciled (U × K)
  unfolding release_with
  reconcile_deleting o u k =
      if contains o.finalizers
      then release_with o (remove_port_forwarding o none u k)
      else finished (u, k)

  unfoldable pub sync_registered : Resource Names → U → Reply Unit × K → Reconciled (U × K)
  unfolding sync_port_forwarding
  sync_registered o u (refused e, k) = erred (u, k)
  sync_registered o u (answered _, k) = sync_port_forwarding o u k

  unfoldable pub reconcile_live : Resource Names → U → K → Reconciled (U × K)
  unfolding sync_registered
  reconcile_live o u k = sync_registered o u (add_finalizer names retrying client o.key k)

  unfoldable pub reconcile_got : Reply (Resource Names) → U → K → Reconciled (U × K)
  unfolding reconcile_live reconcile_deleting
  reconcile_got (refused not_found) u k = finished (u, k)
  reconcile_got (refused conflict) u k = erred (u, k)
  reconcile_got (refused other_failure) u k = erred (u, k)
  reconcile_got (answered o) u k =
      if o.deleting then reconcile_deleting o u k else reconcile_live o u k

  unfoldable pub reconcile : Request → U → K → Reconciled (U × K)
  unfolding reconcile_got
  reconcile key u k = reconcile_got (get key k) u k
