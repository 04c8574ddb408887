-- ===== src/Controllers/Ports.antt =====
-- internal/controller/networking/portforwarding/portforwarding.go: which ports of a node are to be
-- forwarded, and what that changes. Ports are natural numbers, as the API server validates them.
pub mod Decided
pub mod Kept
pub mod Unnamed
mod Tests
use kertical.Prelude.{
  ℕ, String, Bool, true, false, ◌&&◌, ◌||◌, not, Option, none, some, List, [], ◌∷◌, ◌++◌, ◌==◌,
  nat_Eq, string_Eq, if◌then◌else◌,
}
use kertical.Forwarding.Types.{Protocol, tcp, other, protocol_Eq}

-- intstr.IntOrString; `==` on it compares all three fields.
pub record IntOrString : Type 0 where
  pub is_string : Bool
  pub int_val : ℕ
  pub str_val : String

abbrev pub bool_eq : Bool → Bool → Bool
bool_eq true b = b
bool_eq false b = not b

unfoldable pub same_port : IntOrString → IntOrString → Bool
same_port a b =
    bool_eq a.is_string b.is_string && (a.int_val == b.int_val && a.str_val == b.str_val)

abbrev pub from_int : ℕ → IntOrString
from_int n = record { is_string = false; int_val = n; str_val = "" }

pub record ServicePort : Type 0 where
  pub name : String
  pub protocol : Protocol
  pub port : ℕ
  pub target_port : IntOrString
  pub app_protocol : Option String

pub record Service : Type 0 where
  pub cluster_ip : String
  pub ports : List ServicePort

pub record EndpointPort : Type 0 where
  pub name : Option String
  pub protocol : Option Protocol
  pub port : Option ℕ
  pub app_protocol : Option String

pub record Endpoint : Type 0 where
  pub ready : Option Bool
  pub addresses : List String

pub record EndpointSlice : Type 0 where
  pub ports : List EndpointPort
  pub endpoints : List Endpoint

pub data State : Type 0 where
  ready conflict rejected residual failed unknown no_target : State
  state_name : String → State

pub record ForwardedPort : Type 0 where
  pub protocol : Protocol
  pub source_port : IntOrString
  pub target_hosts : List String
  pub target_port : ℕ
  pub state : State

-- A port of the specification
pub record Wanted : Type 0 where
  pub target : IntOrString
  pub host_port : Option ℕ

-- ptr.Deref
abbrev pub deref {ℓ} : {A : Type ℓ} → Option A → A → A
deref none d = d
deref (some a) d = a

-- FindEndpointSlicePort
unfoldable pub find_in_slice : IntOrString → List EndpointPort → Option EndpointPort
find_in_slice target [] = none
find_in_slice target (p ∷ ps) =
    if deref p.name "" == target.str_val || deref p.port 0 == target.int_val
    then some p
    else find_in_slice target ps

slice_port : IntOrString → List EndpointPort → Option EndpointPort → Option EndpointPort
unfolding find_in_slice
slice_port target (p ∷ []) later = some p
slice_port target ps later = elim (find_in_slice target ps) [ none ↦ later | some p ↦ some p ]

unfoldable pub find_endpoint_slice_port : IntOrString → List EndpointSlice → Option EndpointPort
unfolding slice_port
find_endpoint_slice_port target [] = none
find_endpoint_slice_port target (s ∷ slices) =
    slice_port target s.ports (find_endpoint_slice_port target slices)

abbrev pub is_headless : Service → Bool
is_headless svc = svc.cluster_ip == "None"

-- What FindServicePort returns for the first port that matches.
unfoldable pub chosen_port : Service → ServicePort → List EndpointSlice → Option ServicePort
unfolding find_endpoint_slice_port
chosen_port svc p slices = elim (is_headless svc) [
  | false ↦ some p
  | true ↦ elim (find_endpoint_slice_port p.target_port slices) [
    | none ↦ none
    | some e ↦ some (record {
      name = deref e.name "";
      protocol = deref e.protocol tcp;
      port = deref e.port 0;
      target_port = from_int 0;
      app_protocol = none;
    })
  ]
]

find_port : Service → IntOrString → List EndpointSlice → List ServicePort → Option ServicePort
unfolding chosen_port
find_port svc target slices [] = none
find_port svc target slices (p ∷ ps) =
    if p.port == target.int_val || p.name == target.str_val
    then chosen_port svc p slices
    else find_port svc target slices ps

unfoldable pub find_service_port : Service → IntOrString → List EndpointSlice → Option ServicePort
unfolding find_port
find_service_port svc target slices = find_port svc target slices svc.ports

ready_addresses : List Endpoint → List String
ready_addresses [] = []
ready_addresses (e ∷ es) =
    let rest = ready_addresses es in if deref e.ready false then e.addresses ++ rest else rest

pod_addresses : List EndpointSlice → List String
unfolding ready_addresses
pod_addresses [] = []
pod_addresses (s ∷ slices) = ready_addresses s.endpoints ++ pod_addresses slices

unfoldable pub same_hosts : List String → List String → Bool
same_hosts [] [] = true
same_hosts (a ∷ as_hosts) (b ∷ bs) = a == b && same_hosts as_hosts bs
same_hosts _ _ = false

-- The four lists of SyncForwardingPorts, and what is left of its map: a forwarded port is its own key.
pub record Sync : Type 0 where
  pub additions : List ForwardedPort
  pub deletions : List ForwardedPort
  pub unchanged : List ForwardedPort
  pub errors : List ForwardedPort
  pub forwarded : List ForwardedPort

-- `delete(m, key)` and the lookup; the keys of a map are different.
unfoldable pub look_up : IntOrString → List ForwardedPort → Option ForwardedPort
look_up key [] = none
look_up key (f ∷ fs) = if same_port f.source_port key then some f else look_up key fs

unfoldable pub without_port : IntOrString → List ForwardedPort → List ForwardedPort
without_port key [] = []
without_port key (f ∷ fs) =
    let rest = without_port key fs in if same_port f.source_port key then fs else f ∷ rest

-- `m[elem.SourcePort] = elem` for each port of the node's status.
unfoldable pub recorded : List ForwardedPort → List ForwardedPort → List ForwardedPort
unfolding without_port
recorded [] m = m
recorded (f ∷ fs) m = recorded fs (f ∷ without_port f.source_port m)

-- The entry of a port whose service port was not found.
abbrev pub failure_of : Wanted → ForwardedPort
failure_of w = record {
  protocol = other "";
  source_port = w.target;
  target_hosts = [];
  target_port = 0;
  state = failed;
}

-- `sort`: slices.SortFunc by the addresses.
module _ (sort : List String → List String) where
  unfoldable pub target_hosts_of : Service → List EndpointSlice → List String
  unfolding pod_addresses
  target_hosts_of svc slices =
      sort (if is_headless svc then pod_addresses slices else svc.cluster_ip ∷ [])

  unfoldable pub wanted_port : ServicePort → Wanted → List String → ForwardedPort
  wanted_port p w hosts = record {
    protocol = p.protocol;
    source_port = from_int (deref w.host_port p.port);
    target_hosts = hosts;
    target_port = p.port;
    state = ready;
  }

  unfoldable pub is_unchanged : ForwardedPort → ForwardedPort → Bool
  unfolding same_hosts
  is_unchanged wanted old =
      old.protocol == wanted.protocol
      && (same_port old.source_port wanted.source_port
          && same_hosts wanted.target_hosts old.target_hosts)

  -- The port is in the map, or not.
  unfoldable pub sync_found : ForwardedPort → Option ForwardedPort → Sync → Sync
  unfolding is_unchanged
  sync_found wanted none s = record s { additions = s.additions ++ (wanted ∷ []) }
  sync_found wanted (some old) s =
      let rest = without_port wanted.source_port s.forwarded in
      if is_unchanged wanted old
      then record s { unchanged = s.unchanged ++ (old ∷ []); forwarded = rest }
      else record s {
        deletions = s.deletions ++ (old ∷ []);
        additions = s.additions ++ (wanted ∷ []);
        forwarded = rest;
      }

  -- One round of the loop, with the service port that was found.
  unfoldable pub sync_port : List String → Wanted → Option ServicePort → Sync → Sync
  unfolding sync_found
  sync_port hosts w none s = record s { errors = s.errors ++ (failure_of w ∷ []) }
  sync_port hosts w (some p) s =
      sync_found (wanted_port p w hosts) (look_up (from_int (deref w.host_port p.port)) s.forwarded)
        s

  unfoldable pub sync_all : Service → List EndpointSlice → List Wanted → Sync → Sync
  unfolding sync_port
  sync_all svc slices [] s = s
  sync_all svc slices (w ∷ ws) s =
      sync_all svc slices ws
        (sync_port (target_hosts_of svc slices) w (find_service_port svc w.target slices) s)

  -- SyncForwardingPorts, for the ports of the specification and of the node's status.
  unfoldable pub sync_forwarding_ports :
      List Wanted → List ForwardedPort → Service → List EndpointSlice → Sync
  unfolding sync_all recorded
  sync_forwarding_ports spec status svc slices =
      let done = sync_all svc slices spec (record {
        additions = [];
        deletions = [];
        unchanged = [];
        errors = [];
        forwarded = recorded status [];
      }) in
      record done { deletions = done.deletions ++ done.forwarded }
