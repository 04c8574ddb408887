-- ===== src/Controllers/PortForwarding/Tests.antt =====
-- One object in a cluster that takes every write, and a node that forwards in pure Go.
use kertical.Prelude.{
  none, ℕ, String, Bool, true, false, ◌≡◌, refl, some, List, [], ◌∷◌, list_sets, nat_Eq, not, ◌&&◌,
  if◌then◌else◌, Bool-cases, inl, inr, arith, ap,
}
use kertical.Events.{Object, referenced_create, referenced_update, referenced_delete}
use kertical.Controllers.PortForwarding.Resolve.{IsWoken, resolve_referenced, service_event-IsWoken}
use kertical.Forwarding.Types.{Protocol, tcp, PortForwarding}
use kertical.Forwarding.Transport.{Proc}
use kertical.Forwarding.Guard.{Guard, new_guard}
use kertical.Forwarding.Guard.Contract.{IsValid, new_guard-IsValid}
use kertical.Forwarding.PureGo.{new_purego, purego, remove_forwarding}
use kertical.Forwarding.PureGo.Sound.{starts_idle, purego_contract}
use kertical.Forwarding.PureGo.Errors.{purego_leaves}
use kertical.Controllers.Ports.{from_int, State, ready, no_target, ForwardedPort}
use kertical.Controllers.Cluster.{Reply, not_found, answered, refused, Retrying, finished, requeued}
use kertical.Controllers.Objects.{
  NodeStatus, Finalizers, Resource, Client, set_node_ports, has_ports,
}
use kertical.Controllers.Forwarder.{Tracked, guarded, guarded-Tracked}
use kertical.Controllers.PortForwarding.{
  visit, and_visit, prepend, int_value, removed, remove_port, ensure_port, add_port, active_ports,
}
use kertical.Controllers.PortForwarding.Reconcile.{reconcile}
use kertical.Controllers.PortForwarding.Removal.{Clears, remove_ports-Clears}
use kertical.Controllers.PortForwarding.Ready.{Reports, sync_loops-Reports}
use kertical.Controllers.PortForwarding.Deletion.{LeavesKept, reconcile-LeavesKept}
use kertical.Controllers.PortForwarding.Register.{IsHeldFirst, reconcile_live-IsHeldFirst}
use kertical.Controllers.Server.{Server}
use kertical.Controllers.PortForwarding.Release.{reconcile-twice}

abbrev flags : Finalizers
flags = record {
  Names = Bool;
  contains = λ b. b;
  add = λ b. true;
  remove = λ b. false;
  none_left = λ b. not b;
  contains-add = λ b. refl;
  contains-remove = λ b. refl;
}

abbrev Cluster : Type 0
Cluster = Resource Bool

abbrev calls_once : Retrying Cluster
calls_once = record {
  retry = λ call k. call k;
  retry_once = λ call k no_conflict. refl;
  retry_keeps = λ Kept call keeps k h. keeps k h;
}

-- An object that is being deleted is there as long as it has the finalizer.
abbrev one_found : Cluster → Reply Cluster
one_found k = if k.deleting && not k.finalizers then refused not_found else answered k

abbrev one_object : Client Cluster Bool
one_object = record {
  get = λ key k. one_found k;
  update = λ o k. (answered tt, o);
  update_status = λ o k. (answered tt, record k { node_statuses = o.node_statuses });
  get_service = λ key k. refused not_found;
  list_endpoint_slices = λ key k. answered [];
}

abbrev no_atoi : String → ℕ
no_atoi text = 0

abbrev binds : Protocol → (from ctx : ℕ) → Bool
binds proto from ctx = true

abbrev quiet : Proc
quiet filename = some (record { lines = []; cut_short = false })

abbrev port_at : ℕ → State → ForwardedPort
port_at port state = record {
  protocol = tcp;
  source_port = from_int port;
  target_hosts = "10.1.0.1" ∷ [];
  target_port = 80;
  state = state;
}

abbrev two_ports : List ForwardedPort
two_ports = port_at 80 ready ∷ port_at 81 State.conflict ∷ []

abbrev leaving : Cluster
leaving = record {
  key = record { namespace = "default"; name = "web" };
  deleting = true;
  finalizers = true;
  service_name = "web";
  ports = [];
  node_statuses = record { node_name = "n1"; forwarded_ports = two_ports } ∷ [];
}

abbrev Node : Type 0
Node = Guard list_sets (purego binds)

abbrev node : PortForwarding Node
node = guarded list_sets (purego binds) (purego_contract binds) (purego_leaves binds) quiet

abbrev node_tracked : Tracked node
node_tracked =
    guarded-Tracked list_sets (purego binds) (purego_contract binds) (purego_leaves binds) quiet

abbrev idle : Node
idle = new_guard list_sets (purego binds) new_purego

idle-IsValid : IsValid list_sets (purego binds) (purego_contract binds) idle
idle-IsValid =
    new_guard-IsValid list_sets (purego binds) (purego_contract binds) new_purego
      (starts_idle binds).0 (starts_idle binds).1

remove_ports-Clears_example :
    Clears no_atoi node node_tracked idle two_ports
      (visit (remove_port no_atoi node (some no_target)) two_ports idle)
unfolding guarded-Tracked
remove_ports-Clears_example =
    remove_ports-Clears no_atoi node node_tracked (some no_target) two_ports idle idle-IsValid

sync_loops-Reports_example :
    Reports no_atoi node node_tracked idle (visit (ensure_port no_atoi node "web") two_ports idle)
    × Reports no_atoi node node_tracked idle (visit (add_port no_atoi node "web") two_ports idle)
unfolding guarded-Tracked
sync_loops-Reports_example =
    sync_loops-Reports no_atoi node node_tracked "web" two_ports idle idle-IsValid

abbrev same : {A : Type 0} → List A → List A
same xs = xs

reconcile-LeavesKept_example :
    LeavesKept flags calls_once one_object
      (λ k. k.finalizers ≡ true)
      (reconcile flags calls_once one_object no_atoi
        (purego binds)
        "n1"
        same
        same
        leaving.key
        new_purego
        leaving)
unfolding has_ports
reconcile-LeavesKept_example =
    reconcile-LeavesKept flags calls_once one_object (λ k. k.finalizers ≡ true) (λ o k h. h) no_atoi
      (purego binds) "n1" same same leaving.key leaving new_purego leaving refl refl refl refl refl

found_object :
    (o : Cluster) (ns : List NodeStatus) (k : Cluster)
    → one_found k ≡ answered o
    → (◌≡◌ {A = Reply Unit} (answered tt) (answered tt))
      × (one_found (record k { node_statuses = ns }) ≡ answered (record o { node_statuses = ns }))
found_object o ns k got = elim (Bool-cases (k.deleting && not k.finalizers)) [
  | inl gone ↦ absurd (ground (arith, gone, got))
  | inr here ↦
      let same : k ≡ o = ground (arith, here, got) in
      (refl, rw here (ap {A = Cluster} (λ o. answered (record o { node_statuses = ns })) same))
]

one-Server : Server flags one_object
one-Server = record {
  addition_takes = λ o k got live. (refl, ground (arith, live));
  removal_takes = λ o k got deleting. (refl, ground (arith, deleting));
  status_takes = λ o ns k got. found_object o ns k got;
}

reconcile-twice_example :
    (k' : Cluster) × (k'' : Cluster) × (reconcile flags calls_once one_object no_atoi
        (purego binds)
        "n1"
        same
        same
        leaving.key
        new_purego
        leaving
      ≡ requeued (new_purego, k'))
    × (one_found k'
        ≡ answered (record leaving {
          node_statuses = record { node_name = "n1"; forwarded_ports = [] } ∷ [];
        }))
    × (reconcile flags calls_once one_object no_atoi
          (purego binds)
          "n1"
          same
          same
          leaving.key
          new_purego
          k'
        ≡ finished (new_purego, k''))
    × (one_found k'' ≡ refused not_found)
unfolding has_ports active_ports set_node_ports visit and_visit remove_port prepend removed
    int_value remove_forwarding
reconcile-twice_example =
    reconcile-twice flags calls_once one_object one-Server no_atoi (purego binds) "n1" same same
      leaving (port_at 80 ready) (port_at 81 State.conflict ∷ []) new_purego new_purego leaving refl
      refl refl refl refl refl

abbrev two_resources : (namespace : String) → Cluster → Reply (List Cluster)
two_resources namespace k = answered (leaving ∷ record leaving { service_name = "dns" } ∷ [])

abbrev web_service : Object
web_service = record {
  namespace = "default";
  name = "web";
  controller = none;
  deleting = false;
  typed = true;
}

service_event-IsWoken_example :
    let list = two_resources in
    IsWoken list web_service
      (list "default" leaving)
      (referenced_create (resolve_referenced list leaving) web_service)
    × IsWoken list web_service
        (list "default" leaving)
        (referenced_update (resolve_referenced list leaving) web_service)
    × IsWoken list web_service
        (list "default" leaving)
        (referenced_delete (resolve_referenced list leaving) web_service)
service_event-IsWoken_example = service_event-IsWoken two_resources leaving web_service refl

abbrev fresh : Cluster
fresh = record leaving { deleting = false; finalizers = false; node_statuses = [] }

same_key : (o : Cluster) → one_found fresh ≡ answered o → o.key ≡ fresh.key
same_key o e = let same : fresh ≡ o = cc in rw⁻¹ same refl

reconcile_live-IsHeldFirst_example :
    IsHeldFirst flags calls_once one_object one-Server no_atoi
      (purego binds)
      "n1"
      same
      same
      fresh
      new_purego
      fresh
      (answered fresh)
reconcile_live-IsHeldFirst_example =
    reconcile_live-IsHeldFirst flags calls_once one_object one-Server no_atoi (purego binds) "n1"
      same same fresh new_purego fresh same_key
