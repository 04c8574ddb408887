-- ===== src/Controllers/PortForwarding/Release.antt =====
-- The finalizer of a PortForwarding that is being deleted: when it goes.
use kertical.Prelude.{
  ℕ, String, true, false, ◌≡◌, ◌∙◌, refl, none, List, [], ◌∷◌, string_Eq, Bool-cases, inl, inr,
  arith, if◌then◌else◌,
}
use kertical.Forwarding.Types.{PortForwarding}
use kertical.Controllers.Ports.{ForwardedPort}
use kertical.Controllers.Cluster.{Reply, not_found, answered, refused, Retrying, finished, requeued}
use kertical.Controllers.Objects.{
  NodeStatus, Finalizers, Resource, Client, not_empty, set_node_ports, has_ports, requeue_after,
  remove_from, remove_finalizer, patch_status, patch_node_forwarded_status,
}
use kertical.Controllers.Server.{Server, answers_once}
use kertical.Controllers.PortForwarding.{visited, visit, remove_port, active_ports}
use kertical.Controllers.PortForwarding.Reconcile.{
  status_written, write_status, write_visited, remove_active, remove_port_forwarding, released,
  release_with, reconcile_deleting, reconcile_got, reconcile,
}

status_written_lem :
    {U K : Type 0} (u : U) (r : Reply Unit × K)
    → r.0 ≡ answered tt
    → status_written u r ≡ finished (u, r.1)
unfolding status_written
status_written_lem u (answered a, k) e = refl
status_written_lem u (refused x, k) e = absurd (cc)

requeue_after_lem :
    {K : Type 0} (r : Reply Unit × K) → r.0 ≡ answered tt → requeue_after r ≡ (answered false, r.1)
unfolding requeue_after
requeue_after_lem (answered a, k) e = refl
requeue_after_lem (refused x, k) e = absurd (cc)

active_ports-has_ports :
    (node : String) (ns : List NodeStatus) (f : ForwardedPort) (fs : List ForwardedPort)
    → active_ports node ns ≡ f ∷ fs
    → has_ports ns ≡ true
unfolding active_ports has_ports
active_ports-has_ports node [] f fs e = absurd (cc)
active_ports-has_ports node (n ∷ ns) f fs e = elim (Bool-cases (not_empty n.forwarded_ports)) [
  | inl some_ports ↦ rw some_ports refl
  | inr no_ports ↦ ground (arith, e, no_ports, active_ports-has_ports node ns f fs)
]

has_ports-active_ports :
    (node : String) (ns : List NodeStatus) → has_ports ns ≡ false → active_ports node ns ≡ []
unfolding active_ports has_ports
has_ports-active_ports node [] e = refl
has_ports-active_ports node (n ∷ ns) e = elim (Bool-cases (not_empty n.forwarded_ports)) [
  | inl some_ports ↦ ground (arith, e, some_ports)
  | inr no_ports ↦ ground (arith, e, no_ports, has_ports-active_ports node ns)
]

module _ (names : Finalizers) {K : Type 0} (retrying : Retrying K) (client : Client K names.Names)
    (server : Server names client) where
  abbrev with_status : Resource names.Names → List NodeStatus → Resource names.Names
  with_status o ns = record o { node_statuses = ns }

  module _ {U : Type 0} (atoi : String → ℕ) (impl : PortForwarding U) (node : String)
      (sort_hosts : List String → List String)
      (sort_ports : List ForwardedPort → List ForwardedPort) where
    -- The status of an object that is found is written.
    written :
        (o : Resource names.Names) (ports : List ForwardedPort) (u : U) (k : K)
        → client.get o.key k ≡ answered o
        → (k' : K) × (write_status names retrying client atoi impl node sort_hosts sort_ports o.key
              ports u k
            ≡ finished (u, k'))
          × (client.get o.key k'
              ≡ answered (with_status o (set_node_ports node ports o.node_statuses)))
    unfolding write_status patch_node_forwarded_status patch_status status_written
    written o ports u k got =
        let (ok, found) = server.status_takes o (set_node_ports node ports o.node_statuses) k got in
        let k' =
          (client.update_status (with_status o (set_node_ports node ports o.node_statuses)) k).1 in
        let call =
          λ (k : K). patch_status names retrying client node ports (client.get o.key k) k in
        let e : (call k).0 ≡ answered tt = rw got ok in
        (k', rw (answers_once retrying call k e) (rw got (status_written_lem u _ ok)), found)

    freed : (o : Resource names.Names) → Resource names.Names
    freed o = record o { finalizers = names.remove o.finalizers }

    -- With its last finalizer the object goes.
    gone_or_freed : (o : Resource names.Names) → Reply (Resource names.Names)
    gone_or_freed o =
        if names.none_left (names.remove o.finalizers)
        then refused not_found
        else answered (record o { finalizers = names.remove o.finalizers })

    -- The finalizer of an object whose status has no ports is removed.
    finalizer_goes :
        (o : Resource names.Names) (u : U) (k : K)
        → client.get o.key k ≡ answered o
        → o.deleting ≡ true
        → names.contains o.finalizers ≡ true
        → has_ports o.node_statuses ≡ false
        → (k' : K) × (released u (remove_finalizer names retrying client o k) ≡ finished (u, k'))
          × (client.get o.key k' ≡ gone_or_freed o)
    unfolding remove_finalizer remove_from released freed gone_or_freed
    finalizer_goes o u k got deleting held no_ports =
        let (ok, found) = server.removal_takes o k got deleting in
        let k' = (client.update (freed o) k).1 in
        let call =
          λ (k : K). remove_from names retrying client o.node_statuses (client.get o.key k) k in
        let e : call k ≡ (answered false, k') = rw got (
          ground
            (arith, deleting, held, no_ports, requeue_after_lem (client.update (freed o) k) ok)) in
        let e0 : (call k).0 ≡ answered false = rw e refl in
        (k', rw (answers_once retrying call k e0) (rw e refl), found)

    -- The status that the caller holds still has ports: it is to come again.
    finalizer_waits :
        (o : Resource names.Names) (ns : List NodeStatus) (u : U) (k : K)
        → client.get o.key k ≡ answered (with_status o ns)
        → o.deleting ≡ true
        → names.contains o.finalizers ≡ true
        → has_ports o.node_statuses ≡ true
        → released u (remove_finalizer names retrying client o k) ≡ requeued (u, k)
    unfolding remove_finalizer remove_from released
    finalizer_waits o ns u k got deleting held some_ports =
        let call =
          λ (k : K). remove_from names retrying client o.node_statuses (client.get o.key k) k in
        let e : call k ≡ (answered true, k) = rw got (ground (arith, deleting, held, some_ports)) in
        let e0 : (call k).0 ≡ answered true = rw e refl in
        rw (answers_once retrying call k e0) (rw e refl)

    first_round :
        (o : Resource names.Names) (f : ForwardedPort) (fs : List ForwardedPort) (u u' : U) (k : K)
        → client.get o.key k ≡ answered o
        → o.deleting ≡ true
        → names.contains o.finalizers ≡ true
        → active_ports node o.node_statuses ≡ f ∷ fs
        → visit (remove_port atoi impl none) (f ∷ fs) u ≡ visited [] u'
        → (k' : K) × (reconcile_deleting names retrying client atoi impl node sort_hosts sort_ports
              o u k
            ≡ requeued (u', k'))
          × (client.get o.key k'
              ≡ answered (with_status o (set_node_ports node [] o.node_statuses)))
    unfolding reconcile_deleting remove_port_forwarding remove_active write_visited release_with
    first_round o f fs u u' k got deleting held ports end =
        let (k', e, found) = written o [] u' k got in
        let waits =
          finalizer_waits o (set_node_ports node [] o.node_statuses) u' k' found deleting held
            (active_ports-has_ports node o.node_statuses f fs ports) in
        (k', rw (held, ports, end, e) waits, found)

    second_round :
        (o : Resource names.Names) (u : U) (k : K)
        → client.get o.key k ≡ answered o
        → o.deleting ≡ true
        → names.contains o.finalizers ≡ true
        → has_ports o.node_statuses ≡ false
        → (k' : K) × (reconcile_deleting names retrying client atoi impl node sort_hosts sort_ports
              o u k
            ≡ finished (u, k'))
          × (client.get o.key k' ≡ gone_or_freed o)
    unfolding reconcile_deleting remove_port_forwarding remove_active release_with
    second_round o u k got deleting held no_ports =
        let (k', e, found) = finalizer_goes o u k got deleting held no_ports in
        (k', rw (held, has_ports-active_ports node o.node_statuses no_ports) e, found)

    got_deleting :
        (r : Reply (Resource names.Names)) (o : Resource names.Names) (u : U) (k : K)
        → r ≡ answered o
        → o.deleting ≡ true
        → reconcile_got names retrying client atoi impl node sort_hosts sort_ports r u k
          ≡ reconcile_deleting names retrying client atoi impl node sort_hosts sort_ports o u k
    unfolding reconcile_got
    got_deleting r o u k got deleting = rw got (ground (arith, deleting))

    -- Over a server that takes writes of what was just read: when an object that is being deleted has the
    -- finalizer and ports of this node, of no other node, and each of its ports can be removed, the first
    -- reconciliation removes the ports, asks to come again, and leaves the object with this node's ports
    -- emptied in its status and with its finalizers; the second one ends, and then the object is gone, if no
    -- other finalizer is left, and else is there without the finalizer.
    pub reconcile-twice :
        (o : Resource names.Names) (f : ForwardedPort) (fs : List ForwardedPort) (u u' : U) (k : K)
        → client.get o.key k ≡ answered o
        → o.deleting ≡ true
        → names.contains o.finalizers ≡ true
        → active_ports node o.node_statuses ≡ f ∷ fs
        → has_ports (set_node_ports node [] o.node_statuses) ≡ false
        → visit (remove_port atoi impl none) (f ∷ fs) u ≡ visited [] u'
        → let emptied = record o { node_statuses = set_node_ports node [] o.node_statuses } in
          let left = record emptied { finalizers = names.remove o.finalizers } in
          (k' : K) × (k'' : K) × (reconcile names retrying client atoi impl node sort_hosts
              sort_ports o.key u k
            ≡ requeued (u', k'))
          × (client.get o.key k' ≡ answered emptied)
          × (reconcile names retrying client atoi impl node sort_hosts sort_ports o.key u' k'
              ≡ finished (u', k''))
          × (client.get o.key k''
              ≡ (if names.none_left left.finalizers then refused not_found else answered left))
    unfolding reconcile gone_or_freed
    reconcile-twice o f fs u u' k got deleting held ports alone end =
        let o' = with_status o (set_node_ports node [] o.node_statuses) in
        let (k', first, found) = first_round o f fs u u' k got deleting held ports end in
        let (k'', second, gone) = second_round o' u' k' found deleting held alone in
        (
          k',
          k'',
          got_deleting (client.get o.key k) o u k got deleting ∙ first,
          found,
          got_deleting (client.get o.key k') o' u' k' found deleting ∙ second,
          gone,
        )
