-- ===== src/Controllers/PortForwarding/Deletion.antt =====
-- The finalizer of a PortForwarding: how it holds the object back, and when it goes.
use kertical.Prelude.{
  ℕ, String, Bool, true, false, ◌&&◌, ◌≡◌, Option, none, List, [], ◌∷◌, string_Eq, Bool-cases, inl,
  inr,
}
use kertical.Events.{Request}
use kertical.Forwarding.Types.{PortForwarding}
use kertical.Controllers.Ports.{State, ForwardedPort}
use kertical.Controllers.Cluster.{
  Reply, answered, refused, Retrying, Reconciled, finished, requeued, erred, crashed,
}
use kertical.Controllers.Objects.{
  NodeStatus, Finalizers, Resource, Client, set_node_ports, has_ports, remove_from,
  remove_finalizer, patch_status, patch_node_forwarded_status,
}
use kertical.Controllers.PortForwarding.{
  Visited, visited, stopped, panicked, visit, remove_port, active_ports,
}
use kertical.Controllers.PortForwarding.Reconcile.{
  status_written, write_status, write_visited, remove_active, remove_port_forwarding, released,
  release_with, reconcile_deleting, reconcile_got, reconcile,
}

module _ (names : Finalizers) {K : Type 0} (retrying : Retrying K)
    (client : Client K names.Names) where
  -- The state `Kept` of the cluster, after a reconciliation that returned.
  abbrev pub LeavesKept : {U : Type 0} → (K → Type 0) → Reconciled (U × K) → Type 0
  LeavesKept Kept (finished (u, k)) = Kept k
  LeavesKept Kept (requeued (u, k)) = Kept k
  LeavesKept Kept (erred (u, k)) = Kept k
  LeavesKept Kept (Reconciled.requeued_after delay (u, k)) = Kept k
  LeavesKept Kept crashed = Unit

  module _ (Kept : K → Type 0)
      (status_keeps : (o : Resource names.Names) (k : K)
        → Kept k
        → Kept (client.update_status o k).1) where
    remove_from_keeps :
        (seen : List NodeStatus) (r : Reply (Resource names.Names)) (k : K)
        → has_ports seen ≡ true
        → Kept k
        → Kept (remove_from names retrying client seen r k).1
    unfolding remove_from
    remove_from_keeps seen (refused e) k some_ports h = h
    remove_from_keeps seen (answered o) k some_ports h =
        elim (Bool-cases (o.deleting && names.contains o.finalizers)) [
          | inl held ↦ rw (held, some_ports) h
          | inr free ↦ rw free h
        ]

    patch_keeps :
        (node : String) (ports : List ForwardedPort) (r : Reply (Resource names.Names)) (k : K)
        → Kept k
        → Kept (patch_status names retrying client node ports r k).1
    unfolding patch_status
    patch_keeps node ports (refused e) k h = h
    patch_keeps node ports (answered o) k h =
        status_keeps (record o { node_statuses = set_node_ports node ports o.node_statuses }) k h

    written_keeps :
        {U : Type 0} (u : U) (r : Reply Unit × K) → Kept r.1 → LeavesKept Kept (status_written u r)
    unfolding status_written
    written_keeps u (answered _, k) h = h
    written_keeps u (refused e, k) h = h

    -- The parameters of `Reconcile` that the cluster does not depend on.
    module _ {U : Type 0} (atoi : String → ℕ) (impl : PortForwarding U) (node : String)
        (sort_hosts : List String → List String)
        (sort_ports : List ForwardedPort → List ForwardedPort) where
      write_keeps :
          (key : Request) (v : Visited U) (k : K)
          → Kept k
          → LeavesKept Kept
              (write_visited names retrying client atoi impl node sort_hosts sort_ports key v k)
      unfolding write_visited write_status patch_node_forwarded_status
      write_keeps key (visited ports u) k h = written_keeps u _ (
          retrying.retry_keeps Kept
            (λ k. patch_status names retrying client node ports (client.get key k) k)
            (λ k h. patch_keeps node ports (client.get key k) k h) k h)
      write_keeps key (stopped u) k h = h
      write_keeps key panicked k h = tt

      released_keeps : (u : U) (r : Reply Bool × K) → Kept r.1 → LeavesKept Kept (released u r)
      unfolding released
      released_keeps u (refused e, k) h = h
      released_keeps u (answered true, k) h = h
      released_keeps u (answered false, k) h = h

      release_keeps :
          (o : Resource names.Names) (r : Reconciled (U × K))
          → has_ports o.node_statuses ≡ true
          → LeavesKept Kept r
          → LeavesKept Kept
              (release_with names retrying client atoi impl node sort_hosts sort_ports o r)
      unfolding release_with remove_finalizer
      release_keeps o (finished (u, k)) some_ports h =
          released_keeps u
            (retrying.retry
              (λ k. remove_from names retrying client o.node_statuses (client.get o.key k) k) k)
            (retrying.retry_keeps Kept
              (λ k. remove_from names retrying client o.node_statuses (client.get o.key k) k)
              (λ k h. remove_from_keeps o.node_statuses (client.get o.key k) k some_ports h) k h)
      release_keeps o (requeued (u, k)) some_ports h = h
      release_keeps o (erred (u, k)) some_ports h = h
      release_keeps o (Reconciled.requeued_after delay (u, k)) some_ports h = h
      release_keeps o crashed some_ports h = tt

      removal_keeps :
          (key : Request) (reason : Option State) (fs : List ForwardedPort) (u : U) (k : K)
          → Kept k
          → LeavesKept Kept (
              remove_active names retrying client atoi impl node sort_hosts sort_ports key reason fs
                u k)
      unfolding remove_active
      removal_keeps key reason [] u k h = h
      removal_keeps key reason (f ∷ fs) u k h =
          write_keeps key (visit (remove_port atoi impl reason) (f ∷ fs) u) k h

      -- Reconciling an object that is being deleted, has the finalizer and whose status, as it was read,
      -- shows ports on some node, keeps every property of the cluster that no write of a status
      -- ends, such as that the object has the finalizer.
      pub reconcile-LeavesKept :
          (key : Request) (o : Resource names.Names) (u : U) (k : K)
          → client.get key k ≡ answered o
          → o.deleting ≡ true
          → names.contains o.finalizers ≡ true
          → has_ports o.node_statuses ≡ true
          → Kept k
          → LeavesKept Kept
              (reconcile names retrying client atoi impl node sort_hosts sort_ports key u k)
      unfolding reconcile reconcile_got reconcile_deleting remove_port_forwarding remove_finalizer
      reconcile-LeavesKept key o u k got deleting held some_ports h =
          rw (got, deleting, held)
            (release_keeps o
              (remove_active names retrying client atoi impl node sort_hosts sort_ports o.key none
                (active_ports node o.node_statuses) u k)
              some_ports (removal_keeps o.key none (active_ports node o.node_statuses) u k h))
