-- ===== src/Controllers/Proxy/Kinds.antt =====
-- The calls of the API server for one kind of object, and the steps that expect what they ask for. The state
-- is the cache of expectations of the kind, with the cluster `K`.
use kertical.Prelude.{
  String, Option, none, some, List, [], ◌∷◌, ◌==◌, string_Eq, SetPackage, if◌then◌else◌,
}
use kertical.Expectations.{Action, creations, deletions, Cache, expect, observe}
use kertical.Controllers.Cluster.{Failure, Reply, answered, refused}
use kertical.Controllers.Proxy.{Object, StringMap, copy_map}

-- What a step of the controller gives: a value, an error, or a panic.
pub data Ran (W A : Type 0) : Type 0 where
  gives : A → W → Ran W A
  stops : Failure → W → Ran W A
  crashes : Ran W A

abbrev pub then_run : {W A B : Type 0} → Ran W A → (A → W → Ran W B) → Ran W B
then_run (gives a w) next = next a w
then_run (stops e w) next = stops e w
then_run crashes next = crashes

-- `set_controller` is ctrl.SetControllerReference, on an object that has no owner.
pub record Kind (K S : Type 0) : Type 0 where
  pub list_owned : (namespace uid : String) → K → Reply (List (Object S))
  pub create : Object S → K → Reply Unit × K
  pub update : Object S → K → Reply Unit × K
  pub delete : Object S → K → Reply Unit × K
  pub set_controller : (uid : String) → Object S → Reply (Object S)
  pub sort_created : List (Object S) → List (Object S)

-- Items without a deletion timestamp
unfoldable pub live : {S : Type 0} → List (Object S) → List (Object S)
live [] = []
live (o ∷ os) = let rest = live os in if o.meta.deleting then rest else o ∷ rest

-- DeepCopy, the two maps.Copy and the new spec; none where a copy panics.
unfoldable pub merged :
    {S : Type 0} → Object S → Object S → S → Option StringMap → Option StringMap → Option (Object S)
merged old new spec (some labels) (some annotations) = some (record old {
  meta = record old.meta { labels = labels; annotations = annotations };
  spec = spec;
})
merged old new spec (some labels) none = none
merged old new spec none annotations = none

unfoldable pub merge : {S : Type 0} → Object S → Object S → S → Option (Object S)
unfolding merged
merge old new spec =
    merged old new spec (copy_map old.meta.labels new.meta.labels)
      (copy_map old.meta.annotations new.meta.annotations)

module _ (sets : SetPackage String) {K S : Type 0} (kind : Kind K S) (key : String) where
  open kind use {list_owned, create, update, delete, set_controller, sort_created}

  abbrev pub World : Type 0
  World = Cache sets × K

  -- The expectation of a refused call is taken back.
  unfoldable pub settle : Action → String → Cache sets → Reply Unit × K → Ran World Unit
  settle action name cache (answered _, k) = gives tt (cache, k)
  settle action name cache (refused e, k) = stops e (observe sets key action name cache, k)

  unfoldable pub expecting : Action → String → (K → Reply Unit × K) → World → Ran World Unit
  unfolding settle
  expecting action name call (cache, k) =
      settle action name (expect sets key action name cache) (call k)

  unfoldable pub delete_expected : Object S → World → Ran World Unit
  unfolding expecting
  delete_expected o w = expecting deletions o.meta.name (delete o) w

  unfoldable pub create_controlled : Reply (Object S) → World → Ran World Unit
  unfolding expecting
  create_controlled (refused e) w = stops e w
  create_controlled (answered o) w = expecting creations o.meta.name (create o) w

  -- The reference to the controller is set first.
  unfoldable pub create_expected : (uid : String) → Object S → World → Ran World Unit
  unfolding create_controlled
  create_expected uid o w = create_controlled (set_controller uid o) w

  unfoldable pub updated : Reply Unit × K → Cache sets → Ran World Unit
  updated (answered _, k) cache = gives tt (cache, k)
  updated (refused e, k) cache = stops e (cache, k)

  unfoldable pub update_merged : Option (Object S) → World → Ran World Unit
  unfolding updated
  update_merged none w = crashes
  update_merged (some o) (cache, k) = updated (update o k) cache

  -- listOwnedServices, listOwnedEndpointSlices and listOwnedIngresses
  unfoldable pub owned_of : Reply (List (Object S)) → World → Ran World (List (Object S))
  owned_of (refused e) w = stops e w
  owned_of (answered items) w = gives (sort_created (live items)) w

  unfoldable pub list_live : (namespace uid : String) → World → Ran World (List (Object S))
  unfolding owned_of
  list_live namespace uid (cache, k) = owned_of (list_owned namespace uid k) (cache, k)

  -- syncActivatedObject; `found` is the object of the name so far.
  unfoldable pub sync_activated :
      (name : String) → Option (Object S) → List (Object S) → World → Ran World (Option (Object S))
  sync_activated name found [] w = gives found w
  sync_activated name found (o ∷ os) w =
      let kept = sync_activated name (some o) os in
      let rest = sync_activated name found os in
      if o.meta.name == name then kept w else then_run (delete_expected o w) (λ _ w. rest w)

  unfoldable pub delete_all : List (Object S) → World → Ran World Unit
  delete_all [] w = gives tt w
  delete_all (o ∷ os) w = then_run (delete_expected o w) (λ _ w. delete_all os w)
