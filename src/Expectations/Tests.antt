-- ===== src/Expectations/Tests.antt =====
-- Runs of the cache over sets as lists, and the theorems at them.
use kertical.Prelude.{◌≡◌, ◌↔◌, refl, true, false, [], ◌∷◌, List, String, list_sets, string_Eq, ◌-◌}
use kertical.Expectations.{
  Action, creations, deletions, Cache, new_cache, expect, observe, satisfied_expectations,
}
use kertical.Expectations.History.{
  Call, expects, observes, spec_run, nothing, run, satisfied-run, unsatisfied_since,
}

abbrev create_two : List Call
create_two =
    expects "ns/a" creations "svc"
    ∷ expects "ns/a" deletions "old"
    ∷ observes "ns/a" creations "svc"
    ∷ []

abbrev waiting : Cache list_sets
waiting = run list_sets create_two (new_cache list_sets)

program : Unit {0}
unfolding run expect observe satisfied_expectations
program = tt

waits_for_deletion : (satisfied_expectations list_sets "ns/a" 7 9 waiting).1 ≡ false
unfolding program
waits_for_deletion = refl

waits_from_first_check : (satisfied_expectations list_sets "ns/a" 7 9 waiting).2 ≡ 2
unfolding program
waits_from_first_check = refl

satisfied-run_example :
    ((satisfied_expectations list_sets "ns/a" 7 9 waiting).1 ≡ true)
    ↔ ((b : Action) (m : String) → spec_run create_two nothing "ns/a" b m ≡ false)
satisfied-run_example = satisfied-run list_sets create_two "ns/a" 7 9

unsatisfied_since_example :
    ((satisfied_expectations list_sets "ns/a" 7 9 waiting).2 ≡ 9 - 7)
    × ((satisfied_expectations list_sets "ns/a" 20 21
          (satisfied_expectations list_sets "ns/a" 7 9 waiting).0).1
        ≡ false)
    × ((satisfied_expectations list_sets "ns/a" 20 21
          (satisfied_expectations list_sets "ns/a" 7 9 waiting).0).2
        ≡ 21 - 7)
unfolding run observe expect
unsatisfied_since_example = unsatisfied_since list_sets waiting "ns/a" 7 9 20 21 waits_for_deletion
