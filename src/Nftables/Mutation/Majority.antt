-- ===== src/Nftables/Mutation/Majority.antt =====
-- What `mostFrequencyTable` finds.
use native.Mathlib.Omega.{arith}
use kertical.Prelude.{
  ℕ, ◌+◌, ◌*◌, ◌<◌, ◌-◌, String, List, [], ◌∷◌, ◌==◌, nat_Eq, nat_eq_iff, string_Eq, if◌then◌else◌,
  ◌≡◌, Bool-cases, inl, inr, some,
}
use text.Mathlib.TextEquality.{eq_iff}
use kertical.Nftables.Tables.{ChainType, type_eq, Chain, ptr_equals}
use kertical.Nftables.Mutation.{vote, most_frequency_table}

-- The chains of the type, and those of them in one table.
unfoldable pub typed : ChainType → List Chain → ℕ
typed type [] = 0
typed type (c ∷ cs) =
    let rest = typed type cs in if ptr_equals type_eq c.type (some type) then rest + 1 else rest

unfoldable pub typed_in : String → ChainType → List Chain → ℕ
typed_in table type [] = 0
typed_in table type (c ∷ cs) =
    let rest = typed_in table type cs in
    if ptr_equals type_eq c.type (some type)
    then if c.table == table then rest + 1 else rest
    else rest

abbrev pub for_table : String → String → ℕ → ℕ
for_table name table count = if name == table then count else 0

abbrev pub against_table : String → String → ℕ → ℕ
against_table name table count = if name == table then 0 else count

vote_lem :
    (type : ChainType) (cs : List Chain) (name table : String) (count : ℕ)
    → typed type cs + against_table name table count
      < 2 * typed_in table type cs + for_table name table count
    → vote type cs name count ≡ table
unfolding vote typed typed_in
vote_lem type [] name table count p = ground (arith, eq_iff name table)
vote_lem type (c ∷ cs) name table count p =
    elim (Bool-cases (ptr_equals type_eq c.type (some type))) [
      | inl e ↦ ground (
        arith,
        e,
        eq_iff name table,
        eq_iff c.table table,
        eq_iff c.table name,
        nat_eq_iff count 0,
        vote_lem type cs name table (count + 1),
        vote_lem type cs name table (count - 1),
        vote_lem type cs c.table table 1,
      )
      | inr e ↦ ground (arith, e, vote_lem type cs name table count)
    ]

-- The table that has more than half of the chains of a type, one more chain being counted for the
-- fallback, is the one that is found.
pub most_frequency_table_lem :
    (chains : List Chain) (type : ChainType) (fallback table : String)
    → typed type chains + against_table fallback table 1
      < 2 * typed_in table type chains + for_table fallback table 1
    → most_frequency_table chains type fallback ≡ table
unfolding most_frequency_table
most_frequency_table_lem chains type fallback table p = vote_lem type chains fallback table 1 p
