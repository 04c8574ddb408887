-- ===== src/Events.antt =====
-- internal/events: from an event on an object that a controller owns to the work queue of the
-- controller. The informer, the queue and its limiter are kubernetes': a handler returns what it
-- asks of the queue, in order.
pub mod Owned
mod Tests
use kertical.Prelude.{
  ℕ, String, Bool, true, false, ◌&&◌, Option, none, some, List, [], ◌∷◌, ◌++◌, ◌==◌, string_Eq,
  SetPackage, if◌then◌else◌, map,
}
use kertical.Expectations.{Action, creations, deletions, Cache, observe, satisfied_expectations}

-- What `metav1.GetControllerOf` finds.
pub record OwnerReference : Type 0 where
  pub api_version : String
  pub kind : String
  pub name : String

-- `deleting`: the deletion timestamp is set. `typed`: the assertion `.(T)` holds.
pub record Object : Type 0 where
  pub namespace : String
  pub name : String
  pub controller : Option OwnerReference
  pub deleting : Bool
  pub typed : Bool

pub record Request : Type 0 where
  pub namespace : String
  pub name : String

-- utils.go
unfoldable pub resolve_controller_ref : String → String → Object → Option Request
resolve_controller_ref api_version kind object = elim object.controller [
  | none ↦ none
  | some owner ↦
      if owner.api_version == api_version && owner.kind == kind
      then some (record { namespace = object.namespace; name = owner.name })
      else none
]

-- `wq.Add`, `wq.AddAfter` with the delay of the initial rate limiter, and `Forget` of that limiter.
pub data Effect : Type 0 where
  add : Request → Effect
  add_after : Request → Effect
  forget : Request → Effect

-- expectation.go. `key_of` is `ctrl.Request.String`; a failed assertion in `Create` panics: `none`.
module _ (sets : SetPackage String) (key_of : Request → String)
    (resolver : Object → Option Request) where
  delete_resolved : Object → Option Request → Cache sets → Cache sets × List Effect
  delete_resolved object none cache = (cache, [])
  delete_resolved object (some req) cache =
      (observe sets (key_of req) deletions object.name cache, add req ∷ [])

  unfoldable pub delete : Object → Cache sets → Cache sets × List Effect
  unfolding delete_resolved
  delete object cache =
      if object.typed then delete_resolved object (resolver object) cache else (cache, [])

  create_resolved :
      (now later : ℕ) → Object → Option Request → Cache sets → Cache sets × List Effect
  create_resolved now later object none cache = (cache, [])
  create_resolved now later object (some req) cache =
      let checked = satisfied_expectations sets (key_of req) now later cache in
      (
        observe sets (key_of req) creations object.name checked.0,
        if checked.1 then add_after req ∷ [] else forget req ∷ add req ∷ [],
      )

  unfoldable pub create : (now later : ℕ) → Object → Cache sets → Option (Cache sets × List Effect)
  unfolding create_resolved delete
  create now later object cache =
      if object.deleting
      then some (delete object cache)
      else if object.typed
      then some (create_resolved now later object (resolver object) cache)
      else none

  -- `Update` looks at the new object only.
  unfoldable pub update : Object → Cache sets → Cache sets × List Effect
  unfolding delete
  update object cache = if object.deleting then delete object cache else (cache, [])

-- reference.go: an object that others refer to wakes all of them. A resolver may return the nil function,
-- `none`; to range over it panics, and so does a failed assertion.
module _ (resolver : Object → Option (List Request)) where
  enqueue : Option (List Request) → Option (List Effect)
  enqueue none = none
  enqueue (some requests) = some (map add requests)

  unfoldable pub resolve : Object → Option (List Effect)
  unfolding enqueue
  resolve object = enqueue (resolver object)

  unfoldable pub referenced_delete : Object → Option (List Effect)
  unfolding resolve
  referenced_delete object = if object.typed then resolve object else some []

  unfoldable pub referenced_create : Object → Option (List Effect)
  unfolding referenced_delete
  referenced_create object =
      if object.deleting
      then referenced_delete object
      else if object.typed
      then resolve object
      else none

  unfoldable pub referenced_update : Object → Option (List Effect)
  unfolding referenced_delete
  referenced_update object =
      if object.deleting
      then referenced_delete object
      else if object.typed
      then resolve object
      else none
