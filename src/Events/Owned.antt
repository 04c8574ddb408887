-- ===== src/Events/Owned.antt =====
-- What an event on an owned object does to the expectations and to the queue.
use kertical.Prelude.{
  ℕ, String, Bool, true, false, not, ◌&&◌, ◌≡◌, refl, Option, some, List, [], ◌∷◌, ◌==◌, string_Eq,
  SetPackage, arith, if◌then◌else◌, ◌↔◌,
}
use kertical.Expectations.{
  Action, creations, deletions, Cache, action_Eq, observe, satisfied_expectations,
}
use kertical.Expectations.Pending.{
  pending, IsSettled, pending-observe, pending-satisfied, satisfied_iff,
}
use kertical.Events.{Object, Request, Effect, add, add_after, forget, create, update}

-- What the handler of a creation asks of the queue, by the answer of the check.
abbrev asked : Request → Bool → List Effect
asked req settled = if settled then add_after req ∷ [] else forget req ∷ add req ∷ []

asked-settled :
    {P : Type 0} (req : Request) (settled : Bool)
    → ((settled ≡ true) ↔ P)
    → ((asked req settled ≡ add_after req ∷ []) ↔ P)
      × ((asked req settled ≡ forget req ∷ add req ∷ []) ↔ ¬ P)
asked-settled req true e =
    (((λ h. e.0 refl), (λ p. refl)), ((λ h. cc), (λ n. absurd (n (e.0 refl)))))
asked-settled req false e = (((λ h. cc), (λ p. cc (e.1 p))), ((λ h p. cc (e.1 p)), (λ n. refl)))

module _ (sets : SetPackage String) (key_of : Request → String) (resolver : Object → Option Request)
    (object : Object) (req : Request) (typed : object.typed ≡ true)
    (resolved : resolver object ≡ some req) where
  -- A creation takes its own expectation off, and no other; the request is delayed exactly if
  -- nothing was outstanding for its controller.
  pub create_lem :
      (now later : ℕ) (cache : Cache sets)
      → object.deleting ≡ false
      → (after : Cache sets) × (effects : List Effect) × (create sets key_of resolver now later
            object cache
          ≡ some (after, effects))
        × ((j : String) (b : Action) (m : String)
            → pending sets after j b m ≡ (
                not (key_of req == j && (creations == b && object.name == m))
                && pending sets cache j b m))
        × ((effects ≡ add_after req ∷ []) ↔ IsSettled sets cache (key_of req))
        × ((effects ≡ forget req ∷ add req ∷ []) ↔ ¬ IsSettled sets cache (key_of req))
  unfolding create
  create_lem now later cache fresh =
      let checked = satisfied_expectations sets (key_of req) now later cache in
      let (added, forgot) =
        asked-settled req checked.1 (satisfied_iff sets cache (key_of req) now later) in
      (
        observe sets (key_of req) creations object.name checked.0,
        asked req checked.1,
        simp (resolved, fresh, typed),
        (λ j b m. rw (
          pending-observe sets checked.0 (key_of req) j creations b object.name m,
          pending-satisfied sets cache (key_of req) j now later b m,
        )),
        added,
        forgot,
      )

  -- An event that finds the object already marked for deletion, a creation too, takes off the
  -- expectation of a deletion: one of a creation stays outstanding.
  pub create_deleting :
      (now later : ℕ) (cache : Cache sets)
      → object.deleting ≡ true
      → (after : Cache sets) × (create sets key_of resolver now later object cache
          ≡ some (after, add req ∷ []))
        × (update sets key_of resolver object cache ≡ (after, add req ∷ []))
        × ((j : String) (m : String)
            → pending sets after j creations m ≡ pending sets cache j creations m)
        × ((j : String) (m : String)
            → pending sets after j deletions m
              ≡ (not (key_of req == j && object.name == m) && pending sets cache j deletions m))
  unfolding create update
  create_deleting now later cache gone = (
    observe sets (key_of req) deletions object.name cache,
    simp (resolved, gone, typed),
    simp (resolved, gone, typed),
    (λ j m.
        rw (pending-observe sets cache (key_of req) j deletions creations object.name m)
          (ground arith)),
    (λ j m.
        rw (pending-observe sets cache (key_of req) j deletions deletions object.name m)
          (ground arith)),
  )
