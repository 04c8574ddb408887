-- ===== src/Controllers/PortForwarding.antt =====
-- internal/controller/networking/portforwarding_controller.go: the reconciliation of a PortForwarding on
-- one node. The state is that of the forwarder, `U`, with the cluster, `K`.
pub mod Reconcile
pub mod Removal
pub mod Ready
pub mod Deletion
pub mod Release
pub mod Resolve
pub mod Register
mod Tests
use kertical.Prelude.{
  ℕ, ◌%◌, ◌^◌, String, Bool, true, false, not, ◌&&◌, Option, none, some, List, [], ◌∷◌, ◌++◌, ◌==◌,
  string_Eq, nat_Eq, ltb, if◌then◌else◌,
}
use kertical.Events.{Request}
use kertical.Forwarding.Types.{
  Error, port_already_inuse, port_not_forwarded, port_already_forwarded, failure, Outcome, done,
  fails, panics, PortForwarding,
}
use kertical.Controllers.Ports.{
  IntOrString, Service, EndpointSlice, State, ready, conflict, rejected, residual, failed, unknown,
  no_target, ForwardedPort, Sync, sync_forwarding_ports,
}
use kertical.Controllers.Cluster.{
  Failure, not_found, other_failure, Reply, answered, refused, Retrying, Reconciled, finished,
  requeued, erred, crashed,
}
use kertical.Controllers.Objects.{
  NodeStatus, Finalizers, Resource, Client, not_empty, add_finalizer, remove_finalizer,
  patch_node_forwarded_status,
}

-- `atoi`: strconv.Atoi, 0 where it fails, as in IntOrString.IntValue.
unfoldable pub int_value : (String → ℕ) → IntOrString → ℕ
int_value atoi p = if p.is_string then atoi p.str_val else p.int_val

abbrev pub uint16 : ℕ → ℕ
uint16 n = n % 2 ^ 16

-- What a loop over ports gives: the ports that go into the status, an error that ends it, or a panic.
pub data Visited (U : Type 0) : Type 0 where
  visited : List ForwardedPort → U → Visited U
  stopped : U → Visited U
  panicked : Visited U

unfoldable pub prepend : {U : Type 0} → List ForwardedPort → Visited U → Visited U
prepend ports (visited rest u) = visited (ports ++ rest) u
prepend ports (stopped u) = stopped u
prepend ports panicked = panicked

unfoldable pub and_visit : {U : Type 0} → Visited U → (U → Visited U) → Visited U
unfolding prepend
and_visit (visited ports u) next = prepend ports (next u)
and_visit (stopped u) next = stopped u
and_visit panicked next = panicked

unfoldable pub visit :
    {U : Type 0} → (ForwardedPort → U → Visited U) → List ForwardedPort → U → Visited U
unfolding and_visit
visit body [] u = visited [] u
visit body (f ∷ fs) u = and_visit (body f u) (visit body fs)

abbrev pub with_state : State → ForwardedPort → ForwardedPort
with_state state f = record f { state = state }

-- The loop over the unchanged ports, once AddForwarding has returned.
unfoldable pub ensured : {U : Type 0} → ForwardedPort → Outcome × U → Visited U
ensured f (done, u) = visited (with_state ready f ∷ []) u
ensured f (fails port_already_forwarded, u) = visited (f ∷ []) u
ensured f (fails port_already_inuse, u) = visited (with_state failed f ∷ []) u
ensured f (fails port_not_forwarded, u) = visited (with_state failed f ∷ []) u
ensured f (fails failure, u) = visited (with_state failed f ∷ []) u
ensured f (panics, u) = panicked

-- The loop over the deletions.
unfoldable pub deleted : {U : Type 0} → ForwardedPort → Outcome × U → Visited U
deleted f (done, u) = visited [] u
deleted f (fails port_not_forwarded, u) = visited [] u
deleted f (fails port_already_inuse, u) = visited (with_state residual f ∷ []) u
deleted f (fails port_already_forwarded, u) = visited (with_state residual f ∷ []) u
deleted f (fails failure, u) = visited (with_state residual f ∷ []) u
deleted f (panics, u) = panicked

-- The loop over the additions.
unfoldable pub added : {U : Type 0} → ForwardedPort → Outcome × U → Visited U
added f (done, u) = visited (f ∷ []) u
added f (fails port_already_forwarded, u) = visited (with_state conflict f ∷ []) u
added f (fails port_already_inuse, u) = visited (with_state rejected f ∷ []) u
added f (fails port_not_forwarded, u) = visited (with_state failed f ∷ []) u
added f (fails failure, u) = visited (with_state failed f ∷ []) u
added f (panics, u) = panicked

-- The loop of removePortForwarding; with a reason, the port stays in the status.
abbrev pub kept : Option State → ForwardedPort → List ForwardedPort
kept none f = []
kept (some reason) f = record f { target_hosts = []; target_port = 0; state = reason } ∷ []

unfoldable pub removed : {U : Type 0} → Option State → ForwardedPort → Outcome × U → Visited U
removed reason f (done, u) = visited (kept reason f) u
removed reason f (fails port_not_forwarded, u) = visited (kept reason f) u
removed reason f (fails port_already_inuse, u) = stopped u
removed reason f (fails port_already_forwarded, u) = stopped u
removed reason f (fails failure, u) = stopped u
removed reason f (panics, u) = panicked

module _ (atoi : String → ℕ) {U : Type 0} (impl : PortForwarding U) where
  open impl use {add, remove}

  unfoldable pub ensure_port : String → ForwardedPort → U → Visited U
  unfolding ensured
  ensure_port comment f u =
      let port = uint16 (int_value atoi f.source_port) in
      if ltb 0 port
      then ensured f (add f.protocol port f.target_hosts (uint16 f.target_port) comment u)
      else visited (with_state unknown f ∷ []) u

  -- The test reads the number or the text of the port, the call the number only.
  unfoldable pub delete_port : ForwardedPort → U → Visited U
  unfolding deleted
  delete_port f u =
      if ltb 0 (uint16 (int_value atoi f.source_port))
      then deleted f
          (remove f.protocol (uint16 f.source_port.int_val) f.target_hosts (uint16 f.target_port) u)
      else visited [] u

  unfoldable pub add_port : String → ForwardedPort → U → Visited U
  unfolding added
  add_port comment f u = added f (
      add f.protocol (uint16 (int_value atoi f.source_port)) f.target_hosts (uint16 f.target_port)
        comment u)

  unfoldable pub remove_port : Option State → ForwardedPort → U → Visited U
  unfolding removed
  remove_port reason f u =
      let port = uint16 (int_value atoi f.source_port) in
      if ltb 0 port
      then removed reason f (remove f.protocol port f.target_hosts (uint16 f.target_port) u)
      else visited [] u

  -- The three loops of syncPortForwarding; the list starts with the errors.
  unfoldable pub apply_sync : String → Sync → U → Visited U
  unfolding prepend and_visit
  apply_sync comment r u = prepend r.errors (
      and_visit (visit (ensure_port comment) r.unchanged u)
        (λ u. and_visit (visit delete_port r.deletions u) (visit (add_port comment) r.additions)))

-- The ports of the node in a status.
unfoldable pub node_ports : String → List NodeStatus → List ForwardedPort
node_ports node [] = []
node_ports node (n ∷ ns) = if n.node_name == node then n.forwarded_ports else node_ports node ns

-- The first entry of the node that has ports.
unfoldable pub active_ports : String → List NodeStatus → List ForwardedPort
active_ports node [] = []
active_ports node (n ∷ ns) =
    let rest = active_ports node ns in
    if n.node_name == node && not_empty n.forwarded_ports then n.forwarded_ports else rest

unfoldable pub live_slices : List (Bool × EndpointSlice) → List EndpointSlice
live_slices [] = []
live_slices ((deleting, s) ∷ slices) =
    let rest = live_slices slices in if deleting then rest else s ∷ rest
