-- ===== src/Controllers/Objects.antt =====
-- The PortForwarding resource as the API server has it, and the calls that change it:
-- internal/controller/networking/portforwarding/finalizer.go and status.go. Reading leaves the cluster
-- `K` as it is; a call that changes it returns it changed.
use kertical.Prelude.{
  String, Bool, true, false, ◌≡◌, List, [], ◌∷◌, ◌&&◌, ◌||◌, ◌==◌, string_Eq, if◌then◌else◌,
}
use kertical.Events.{Request}
use kertical.Controllers.Ports.{Service, EndpointSlice, ForwardedPort, Wanted}
use kertical.Controllers.Cluster.{Reply, answered, refused, ignore_not_found, Retrying}

pub record NodeStatus : Type 0 where
  pub node_name : String
  pub forwarded_ports : List ForwardedPort

-- controllerutil, for the one finalizer of the program among those of an object.
pub record Finalizers : Type 1 where
  pub Names : Type 0
  pub contains : Names → Bool
  pub add : Names → Names
  pub remove : Names → Names
  pub none_left : Names → Bool
  pub contains-add : (names : Names) → contains (add names) ≡ true
  pub contains-remove : (names : Names) → contains (remove names) ≡ false

-- What the program reads of a PortForwarding; `deleting`: the deletion timestamp is set.
pub record Resource (F : Type 0) : Type 0 where
  pub key : Request
  pub deleting : Bool
  pub finalizers : F
  pub service_name : String
  pub ports : List Wanted
  pub node_statuses : List NodeStatus

-- The client, with what the program calls of it. An EndpointSlice is listed with whether its deletion
-- timestamp is set.
pub record Client (K F : Type 0) : Type 0 where
  pub get : Request → K → Reply (Resource F)
  pub update : Resource F → K → Reply Unit × K
  pub update_status : Resource F → K → Reply Unit × K
  pub get_service : Request → K → Reply Service
  pub list_endpoint_slices : Request → K → Reply (List (Bool × EndpointSlice))

abbrev pub not_empty : {A : Type 0} → List A → Bool
not_empty [] = false
not_empty (x ∷ xs) = true

-- The first entry of the node, or a new one at the end.
unfoldable pub set_node_ports : String → List ForwardedPort → List NodeStatus → List NodeStatus
set_node_ports node ports [] = record { node_name = node; forwarded_ports = ports } ∷ []
set_node_ports node ports (n ∷ ns) =
    let rest = set_node_ports node ports ns in
    if n.node_name == node then record n { forwarded_ports = ports } ∷ ns else n ∷ rest

unfoldable pub has_ports : List NodeStatus → Bool
has_ports [] = false
has_ports (n ∷ ns) = not_empty n.forwarded_ports || has_ports ns

unfoldable pub requeue_after : {K : Type 0} → Reply Unit × K → Reply Bool × K
requeue_after (answered _, k) = (answered false, k)
requeue_after (refused e, k) = (refused e, k)

module _ (names : Finalizers) {K : Type 0} (retrying : Retrying K)
    (client : Client K names.Names) where
  open names use {Names, contains, add, remove}
  open retrying use {retry}
  open client use {get, update, update_status}

  -- AddFinalizer. An object that is gone is no error.
  unfoldable pub add_to : Reply (Resource Names) → K → Reply Unit × K
  add_to (refused e) k = (ignore_not_found tt e, k)
  add_to (answered o) k =
      if o.deleting || contains o.finalizers
      then (answered tt, k)
      else update (record o { finalizers = add o.finalizers }) k

  unfoldable pub add_finalizer : Request → K → Reply Unit × K
  unfolding add_to
  add_finalizer key = retry (λ k. add_to (get key k) k)

  -- RemoveFinalizer, with the flag to requeue. `seen` is the status that the caller holds.
  unfoldable pub remove_from : List NodeStatus → Reply (Resource Names) → K → Reply Bool × K
  unfolding requeue_after
  remove_from seen (refused e) k = (ignore_not_found false e, k)
  remove_from seen (answered o) k =
      if o.deleting && contains o.finalizers
      then if has_ports seen
        then (answered true, k)
        else requeue_after (update (record o { finalizers = remove o.finalizers }) k)
      else (answered false, k)

  unfoldable pub remove_finalizer : Resource Names → K → Reply Bool × K
  unfolding remove_from
  remove_finalizer o = retry (λ k. remove_from o.node_statuses (get o.key k) k)

  -- PatchNodeForwardedStatus
  unfoldable pub patch_status :
      String → List ForwardedPort → Reply (Resource Names) → K → Reply Unit × K
  patch_status node ports (refused e) k = (refused e, k)
  patch_status node ports (answered o) k =
      update_status (record o { node_statuses = set_node_ports node ports o.node_statuses }) k

  unfoldable pub patch_node_forwarded_status :
      Request → String → List ForwardedPort → K → Reply Unit × K
  unfolding patch_status
  patch_node_forwarded_status key node ports = retry (λ k. patch_status node ports (get key k) k)
