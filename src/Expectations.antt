-- ===== src/Expectations.antt =====
-- internal/expectations/expectations.go: what a controller has asked the API server for and has not
-- yet seen in an event. Every method holds the mutex throughout, so each is one step of the cache.
pub mod Pending
pub mod History
mod Tests
use kertical.Prelude.{
  ℕ, ◌-◌, ◌<◌, String, Bool, true, false, ◌||◌, ◌≡◌, Option, none, some, List, [], ◌∷◌, ltb, update,
  remove, Eq, ◌==◌, SetPackage, if◌then◌else◌, arith, ◌↔◌, string_Eq,
}

pub data Action : Type 0 where
  creations deletions : Action

abbrev action_eq : Action → Action → Bool
action_eq creations creations = true
action_eq deletions deletions = true
action_eq _ _ = false

pub action_eq_iff : (a b : Action) → (action_eq a b ≡ true) ↔ (a ≡ b)
action_eq_iff a b = ((λ h. ground arith), (λ h. ground arith))

instance abbrev pub action_Eq : Eq Action
action_Eq = record { equals = action_eq; equals_iff = action_eq_iff }

module _ (sets : SetPackage String) where
  open sets use {Set, new, insert, delete, len}

  -- `objectStore`; a zero `firstUnsatisfied` is `none`. The map's keys are the two constants.
  pub record ObjectStore : Type 0 where
    pub objects : Action → Option Set
    pub first_unsatisfied : Option ℕ

  abbrev pub Cache : Type 0
  Cache = String → Option ObjectStore

  abbrev pub new_cache : Cache
  new_cache key = none

  abbrev new_object_store : ObjectStore
  new_object_store = record { objects = λ action. none; first_unsatisfied = none }

  store_or_new : Option ObjectStore → ObjectStore
  store_or_new none = new_object_store
  store_or_new (some expectations) = expectations

  with_value : String → Option Set → Set
  with_value value none = new (value ∷ [])
  with_value value (some set) = insert value set

  -- `objectStore.Insert`
  insert_object : Action → String → ObjectStore → ObjectStore
  insert_object action value o = record o {
    objects = update action (with_value value (o.objects action)) o.objects;
  }

  unfoldable pub expect : String → Action → String → Cache → Cache
  unfolding insert_object with_value store_or_new
  expect key action name cache =
      update key (insert_object action name (store_or_new (cache key))) cache

  abbrev non_empty : Option Set → Bool
  non_empty none = false
  non_empty (some elem) = ltb 0 (len elem)

  -- The loop over `objects`; its order does not matter.
  abbrev any_left : (Action → Option Set) → Bool
  any_left objects = non_empty (objects creations) || non_empty (objects deletions)

  observe_in : String → Action → String → ObjectStore → Option Set → Cache → Cache
  observe_in key action name expectations none cache = cache
  observe_in key action name expectations (some s) cache =
      let objects = update action (delete name s) expectations.objects in
      if any_left objects
      then update key (record expectations { objects = objects }) cache
      else remove key cache

  observe_at : String → Action → String → Option ObjectStore → Cache → Cache
  observe_at key action name none cache = cache
  observe_at key action name (some expectations) cache =
      observe_in key action name expectations (expectations.objects action) cache

  unfoldable pub observe : String → Action → String → Cache → Cache
  unfolding observe_at observe_in
  observe key action name cache = observe_at key action name (cache key) cache

  -- `time.Now()` and the clock of `time.Since` are read one after the other.
  -- `firstUnsatisfied` after the check
  unfoldable pub first_seen : ℕ → Option ℕ → ℕ
  first_seen now none = now
  first_seen now (some t) = t

  satisfied_at : String → (now later : ℕ) → Option ObjectStore → Cache → Cache × Bool × ℕ
  satisfied_at key now later none cache = (cache, true, 0)
  satisfied_at key now later (some expectations) cache =
      let first : ℕ = first_seen now expectations.first_unsatisfied in
      if any_left expectations.objects
      then (
        update key (record expectations { first_unsatisfied = some first }) cache,
        false,
        later - first,
      )
      else (remove key cache, true, 0)

  unfoldable pub satisfied_expectations : String → (now later : ℕ) → Cache → Cache × Bool × ℕ
  unfolding satisfied_at first_seen
  satisfied_expectations key now later cache = satisfied_at key now later (cache key) cache

  unfoldable pub delete_expectations : String → Cache → Cache
  delete_expectations key cache = remove key cache
