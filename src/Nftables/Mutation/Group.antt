-- ===== src/Nftables/Mutation/Group.antt =====
-- The sets of mutation.go, and its tables, which group the chains of a hook by their table.
use kertical.Prelude.{
  String, Bool, ◌&&◌, some, List, [], ◌∷◌, ◌++◌, if◌then◌else◌, elem, filter, ◌==◌, string_Eq,
}
use kertical.Nftables.Expr.{Platform}
use kertical.Nftables.Tables.{
  Hook, hook_Eq, priority_eq, Chain, Priorities, derive_type, derive_priority, ptr_equals, Command,
}
use kertical.Nftables.ReadWrite.{ReadWriter, Ran, ok, and_then, chains_of, write_table, write_set}
use kertical.Nftables.Mutation.{
  SetMutation, TableMutation, most_frequency_table, run_present, run_clean_up, present_chain,
  clean_up_chain,
}

-- chainMatchPredicate
unfoldable pub chain_match : Priorities → Hook → Chain → Bool
chain_match library hook c =
    ptr_equals (λ a b. a == b) c.hook (some hook)
    && ptr_equals priority_eq c.priority (some (derive_priority library hook))

unfoldable pub table_names : List Chain → List String
table_names [] = []
table_names (c ∷ cs) =
    let rest = table_names cs in if elem c.table rest then rest else c.table ∷ rest

-- The keys of `groups`
unfoldable pub group_names : Priorities → Hook → ReadWriter → List String
unfolding chain_match table_names
group_names library hook s = table_names (filter (chain_match library hook) (chains_of s))

-- `set.Present` once more: the pairs of its elements are appended to those of the time before.
unfoldable pub filled : SetMutation → SetMutation
filled set = record set { kv_pairs = set.kv_pairs ++ set.elements }

unfoldable pub filled_all : List SetMutation → List SetMutation
unfolding filled
filled_all [] = []
filled_all (set ∷ sets) = filled set ∷ filled_all sets

-- `order`: the order in which `range groups` takes the keys, which Go does not say.
module _ (platform : Platform) (library : Priorities) (opens : Bool) (accepts : Command → Bool)
    (order : List String → List String) where
  unfoldable pub present_set : String → SetMutation → ReadWriter → Ran
  unfolding filled
  present_set table set s =
      write_set library opens accepts table set.id set.name set.key set.value (filled set).kv_pairs
        set.comment s

  unfoldable pub present_in : List String → TableMutation → ReadWriter → Ran
  unfolding present_set filled_all
  present_in [] t s = ok s
  present_in (name ∷ names) t s = and_then (run_present (present_set name) t.sets s) (λ s.
      and_then (run_present (present_chain platform library opens accepts name t.hook) t.chains s)
        (λ s. present_in names (record t { sets = filled_all t.sets }) s))

  unfoldable pub present_table : TableMutation → ReadWriter → Ran
  unfolding present_in group_names
  present_table t s = elim (group_names library t.hook s) [
    | [] ↦
        let name = most_frequency_table (chains_of s) (derive_type t.hook) t.name in
        and_then (write_table library opens accepts name s) (present_in (name ∷ []) t)
    | name ∷ names ↦ present_in (order (name ∷ names)) t s
  ]

  unfoldable pub clean_up_in : List String → TableMutation → ReadWriter → Ran
  clean_up_in [] t s = ok s
  clean_up_in (name ∷ names) t s =
      and_then (run_clean_up (clean_up_chain platform library opens accepts name t.hook) t.chains s)
        (clean_up_in names t)

  unfoldable pub clean_up_table : TableMutation → ReadWriter → Ran
  unfolding clean_up_in group_names
  clean_up_table t s = clean_up_in (order (group_names library t.hook s)) t s
