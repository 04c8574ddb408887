-- ===== src/Events/Tests.antt =====
-- A service that its ExternalProxy owns.
use kertical.Prelude.{
  String, true, false, not, ◌&&◌, ◌≡◌, ◌↔◌, refl, Option, some, List, [], ◌∷◌, ◌==◌, string_Eq,
  list_sets,
}
use kertical.Expectations.{Action, creations, deletions, Cache, new_cache, expect, action_Eq}
use kertical.Expectations.Pending.{pending, IsSettled}
use kertical.Events.{
  Object, Request, Effect, add, add_after, forget, create, update, resolve_controller_ref,
}
use kertical.Events.Owned.{create_lem, create_deleting}

abbrev service : Object
service = record {
  namespace = "ns";
  name = "svc";
  controller = some (record { api_version = "v1"; kind = "ExternalProxy"; name = "a" });
  deleting = false;
  typed = true;
}

abbrev request : Request
request = record { namespace = "ns"; name = "a" }

abbrev key : Request → String
key r = r.name

abbrev resolver : Object → Option Request
resolver = resolve_controller_ref "v1" "ExternalProxy"

service_resolved : resolver service ≡ some request
unfolding resolve_controller_ref
service_resolved = refl

abbrev expecting : Cache list_sets
expecting = expect list_sets "a" creations "svc" (new_cache list_sets)

create_lem_example :
    (after : Cache list_sets) × (effects : List Effect) × (create list_sets key resolver 1 2 service
        expecting
      ≡ some (after, effects))
    × ((j : String) (b : Action) (m : String)
        → pending list_sets after j b m
          ≡ (not ("a" == j && (creations == b && "svc" == m)) && pending list_sets expecting j b m))
    × ((effects ≡ add_after request ∷ []) ↔ IsSettled list_sets expecting "a")
    × ((effects ≡ forget request ∷ add request ∷ []) ↔ ¬ IsSettled list_sets expecting "a")
create_lem_example =
    create_lem list_sets key resolver service request refl service_resolved 1 2 expecting refl

abbrev deleted : Object
deleted = record service { deleting = true }

deleted_resolved : resolver deleted ≡ some request
unfolding resolve_controller_ref
deleted_resolved = refl

create_deleting_example :
    (after : Cache list_sets) × (create list_sets key resolver 1 2 deleted expecting
      ≡ some (after, add request ∷ []))
    × (update list_sets key resolver deleted expecting ≡ (after, add request ∷ []))
    × ((j : String) (m : String)
        → pending list_sets after j creations m ≡ pending list_sets expecting j creations m)
    × ((j : String) (m : String)
        → pending list_sets after j deletions m
          ≡ (not ("a" == j && "svc" == m) && pending list_sets expecting j deletions m))
create_deleting_example =
    create_deleting list_sets key resolver deleted request refl deleted_resolved 1 2 expecting refl
