-- ===== src/Forwarding/Registry/Tests.antt =====
-- The two implementations that the program registers.
use kertical.Prelude.{String, true, ◌≡◌, refl, some, [], ◌∷◌, ◌++◌}
use mathlib.Core.List.{Perm}
use kertical.Forwarding.Registry.{Implement, chosen, registered, find_impl}
use kertical.Forwarding.Registry.Total.{find_impl-total}
use kertical.Forwarding.Registry.Choice.{IsChoice, IsFalling, Best, registered_lem, find_impl-Best}

abbrev pure_go : Implement String
pure_go = record { name = "pure-go"; available = some true; make = "pure-go"; order = 0 }

abbrev nftables : Implement String
nftables = record { name = "nftables"; available = some true; make = "nftables"; order = 99 }

program : Unit {0}
unfolding registered find_impl
program = tt

nftables_first : find_impl "" (registered [] (pure_go ∷ nftables ∷ [])) ≡ chosen "nftables"
unfolding program
nftables_first = refl

preference_wins : find_impl "pure-go" (registered [] (pure_go ∷ nftables ∷ [])) ≡ chosen "pure-go"
unfolding program
preference_wins = refl

registered_lem_example :
    IsFalling (registered [] (pure_go ∷ nftables ∷ []))
    × Perm (registered [] (pure_go ∷ nftables ∷ [])) ((pure_go ∷ nftables ∷ []) ++ [])
registered_lem_example = registered_lem [] (pure_go ∷ nftables ∷ []) tt

find_impl-Best_example : Best (registered [] (pure_go ∷ nftables ∷ [])) "nftables"
find_impl-Best_example = find_impl-Best [] (pure_go ∷ nftables ∷ []) "nftables" tt nftables_first

find_impl-total_example :
    (n : String) × (find_impl "other" (pure_go ∷ nftables ∷ []) ≡ chosen n)
    × IsChoice (pure_go ∷ nftables ∷ []) n
find_impl-total_example = find_impl-total "other" (pure_go ∷ nftables ∷ []) refl refl
