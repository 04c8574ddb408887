-- ===== src/Expectations/History.antt =====
-- Any sequence of calls, in whatever order the event handlers and the reconcilers make them.
use mathlib.Core.Logic.{◌↔◌}
use kertical.Prelude.{
  ℕ, ◌-◌, String, Bool, true, false, not, ◌&&◌, ◌||◌, ◌≡◌, ◌∙◌, sym, refl, List, [], ◌∷◌, ◌==◌,
  SetPackage, string_Eq, Option, none, some, arith,
}
use text.Mathlib.TextEquality.{eq_iff}
use kertical.Expectations.{
  Action, Cache, new_cache, expect, observe, satisfied_expectations, delete_expectations, action_Eq,
  ObjectStore, satisfied_at, first_seen,
}
use kertical.Expectations.Pending.{
  pending, pending-expect, pending-observe, pending-satisfied, pending-delete, satisfied_iff,
}

-- One call of the interface `ControllerExpectations`.
pub data Call : Type 0 where
  expects observes : String → Action → String → Call
  checks : String → (now later : ℕ) → Call
  deletes : String → Call

-- The specification: which expectations are outstanding.
abbrev pub Outstanding : Type 0
Outstanding = String → Action → String → Bool

abbrev pub spec_step : Call → Outstanding → Outstanding
spec_step (expects k a n) p j b m = k == j && (a == b && n == m) || p j b m
spec_step (observes k a n) p j b m = not (k == j && (a == b && n == m)) && p j b m
spec_step (checks k now later) p j b m = p j b m
spec_step (deletes k) p j b m = not (k == j) && p j b m

abbrev pub spec_run : List Call → Outstanding → Outstanding
spec_run [] p = p
spec_run (c ∷ cs) p = spec_run cs (spec_step c p)

abbrev pub nothing : Outstanding
nothing key action name = false

module _ (sets : SetPackage String) where
  unfoldable pub call : Call → Cache sets → Cache sets
  call (expects k a n) cache = expect sets k a n cache
  call (observes k a n) cache = observe sets k a n cache
  call (checks k now later) cache = (satisfied_expectations sets k now later cache).0
  call (deletes k) cache = delete_expectations sets k cache

  unfoldable pub run : List Call → Cache sets → Cache sets
  unfolding call
  run [] cache = cache
  run (c ∷ cs) cache = run cs (call c cache)

  call-refines :
      (c : Call) (cache : Cache sets) (p : Outstanding)
      → ((j : String) (b : Action) (m : String) → pending sets cache j b m ≡ p j b m)
      → (j : String) (b : Action) (m : String)
      → pending sets (call c cache) j b m ≡ spec_step c p j b m
  unfolding call
  call-refines (expects k a n) cache p h j b m = rw (pending-expect sets cache k j a b n m, h j b m)
  call-refines (observes k a n) cache p h j b m =
      rw (pending-observe sets cache k j a b n m, h j b m)
  call-refines (checks k now later) cache p h j b m =
      rw (pending-satisfied sets cache k j now later b m, h j b m)
  call-refines (deletes k) cache p h j b m = rw (pending-delete sets cache k j b m, h j b m)

  run-refines :
      (cs : List Call) (cache : Cache sets) (p : Outstanding)
      → ((j : String) (b : Action) (m : String) → pending sets cache j b m ≡ p j b m)
      → (j : String) (b : Action) (m : String)
      → pending sets (run cs cache) j b m ≡ spec_run cs p j b m
  unfolding run
  run-refines [] cache p h = h
  run-refines (c ∷ cs) cache p h =
      run-refines cs (call c cache) (spec_step c p) (call-refines c cache p h)

  -- After any calls the check is satisfied exactly if no expectation is outstanding by the calls'
  -- meaning as operations on a set of triples.
  pub satisfied-run :
      (cs : List Call) (key : String) (now later : ℕ)
      → ((satisfied_expectations sets key now later (run cs (new_cache sets))).1 ≡ true)
        ↔ ((b : Action) (m : String) → spec_run cs nothing key b m ≡ false)
  satisfied-run cs key now later = (
    (λ h b m.
        sym (agree key b m) ∙ (satisfied_iff sets (run cs (new_cache sets)) key now later).0 h b m),
    (λ h.
        (satisfied_iff sets (run cs (new_cache sets)) key now later).1
          λ b m. agree key b m ∙ h b m),
  )
    where
      agree :
          (j : String) (b : Action) (m : String)
          → pending sets (run cs (new_cache sets)) j b m ≡ spec_run cs nothing j b m
      agree = run-refines cs (new_cache sets) nothing (λ j b m. unfold pending in refl)

  -- The instant from which a check measures: the one that the controller's entry holds, or, where its
  -- clock has not been started, the present one.
  abbrev pub clock_start : Option (ObjectStore sets) → ℕ → ℕ
  clock_start none now = now
  clock_start (some o) now = elim o.first_unsatisfied [ none ↦ now | some t ↦ t ]

  first_seen-clock_start :
      (o : ObjectStore sets) (now : ℕ)
      → first_seen sets now o.first_unsatisfied ≡ clock_start (some o) now
  unfolding first_seen
  first_seen-clock_start o now = elim o.first_unsatisfied [ none ↦ refl | some t ↦ refl ]

  -- A check that fails measures from the instant at which the clock was started, which is the present one
  -- if it was not started before; the next check fails too, and measures from the same instant, whatever
  -- the clock reads then.
  pub unsatisfied_since :
      (cache : Cache sets) (key : String) (now later now' later' : ℕ)
      → (satisfied_expectations sets key now later cache).1 ≡ false
      → ((satisfied_expectations sets key now later cache).2 ≡ later - clock_start (cache key) now)
        × ((satisfied_expectations sets key now' later'
              (satisfied_expectations sets key now later cache).0).1
            ≡ false)
        × ((satisfied_expectations sets key now' later'
              (satisfied_expectations sets key now later cache).0).2
            ≡ later' - clock_start (cache key) now)
  unfolding satisfied_expectations
  unsatisfied_since cache key now later now' later' h = go (cache key) h
    where
      go :
          (o : Option (ObjectStore sets))
          → (satisfied_at sets key now later o cache).1 ≡ false
          → ((satisfied_at sets key now later o cache).2 ≡ later - clock_start o now)
            × ((satisfied_at sets key now' later'
                  ((satisfied_at sets key now later o cache).0 key)
                  (satisfied_at sets key now later o cache).0).1
                ≡ false)
            × ((satisfied_at sets key now' later'
                  ((satisfied_at sets key now later o cache).0 key)
                  (satisfied_at sets key now later o cache).0).2
                ≡ later' - clock_start o now)
      go none e = absurd (cc)
      go (some o) e = rw⁻¹ (first_seen-clock_start o now) (
        ground (arith, eq_iff key key),
        ground (arith, eq_iff key key),
        ground (arith, eq_iff key key),
      )
