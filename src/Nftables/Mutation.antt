-- ===== src/Nftables/Mutation.antt =====
-- internal/portforwarding/nftables/mutation: making rules, chains, sets and tables present, and
-- removing them. A mutation is data; `Present` and `CleanUp` run on the reader and writer. What
-- `Present` reads, it reads when the mutation is reached, since each returned function runs at once.
pub mod Group
pub mod Majority
pub mod Skipping
mod Tests
use kertical.Prelude.{
  ℕ, zero, suc, ◌+◌, ◌-◌, String, Bool, true, false, ◌&&◌, Option, none, some, List, [], ◌∷◌, ◌++◌,
  ◌==◌, nat_Eq, string_Eq, if◌then◌else◌, get_elem?, length, filter, ltb, elem, map,
}
use kertical.Nftables.Userdata.{marshal}
use kertical.Nftables.Expr.{Platform}
use kertical.Nftables.Condition.{Condition, build, match}
use kertical.Nftables.Tables.{
  Hook, hook_Eq, priority_eq, ChainType, type_eq, Chain, Rule, Priorities, derive_type,
  derive_priority, ptr_equals, SetDatatype, Command,
}
use kertical.Nftables.ReadWrite.{
  Slice, ReadWriter, Ran, ok, error, panic, and_then, chains_of, write_table, write_chain,
  delete_chain, write_rule, delete_rule, write_set,
}

-- `rule`; its expression is a combination.
pub record RuleMutation : Type 0 where
  pub expr : Condition
  pub first : Bool
  pub comment : List ℕ

-- `chain`, `baseChain` and `regularChain`
pub data ChainMutation : Type 0 where
  plain_chain base_chain : (name : String) → List RuleMutation → ChainMutation
  regular_chain : (name : String) (force_clean : Bool) → List RuleMutation → ChainMutation

-- `set`: `elements` are the pairs that its elements add, `kv_pairs` what was added so far.
pub record SetMutation : Type 0 where
  pub id : ℕ
  pub name : String
  pub key : SetDatatype
  pub value : SetDatatype
  pub comment : String
  pub elements : List (List ℕ × List ℕ)
  pub kv_pairs : List (List ℕ × List ℕ)

pub record TableMutation : Type 0 where
  pub name : String
  pub hook : Hook
  pub chains : List ChainMutation
  pub sets : List SetMutation

-- mostFrequencyTable: the count is an int, and `count-- < 0` is a count of 0 before.
unfoldable pub vote : ChainType → List Chain → (name : String) (count : ℕ) → String
vote type [] name count = name
vote type (c ∷ cs) name count =
    let same = vote type cs name (count + 1) in
    let apart = vote type cs name (count - 1) in
    let next = vote type cs c.table 1 in
    let skip = vote type cs name count in
    if ptr_equals type_eq c.type (some type)
    then if c.table == name then same else if count == 0 then next else apart
    else skip

unfoldable pub most_frequency_table : List Chain → ChainType → String → String
unfolding vote
most_frequency_table chains type fallback = vote type chains fallback 1

-- runPresent, and runCleanUp, which goes backwards.
unfoldable pub run_present : {M : Type 0} → (M → ReadWriter → Ran) → List M → ReadWriter → Ran
run_present present [] s = ok s
run_present present (m ∷ ms) s = and_then (present m s) (λ s. run_present present ms s)

unfoldable pub run_clean_up : {M : Type 0} → (M → ReadWriter → Ran) → List M → ReadWriter → Ran
run_clean_up clean_up [] s = ok s
run_clean_up clean_up (m ∷ ms) s = and_then (run_clean_up clean_up ms s) (clean_up m)

-- The filters of `ruleReadWriter.Rules` and `filter.RuleExpr`: `none` is a panic of `Match`.
unfoldable pub in_chain : String → String → ℕ → Rule → Bool
in_chain table chain family r = r.table == table && (r.family == family && r.chain == chain)

module _ (platform : Platform) where
  unfoldable pub is_rule : Condition → Rule → Option Bool
  is_rule expr r = elim (match platform expr r.exprs) [
    | none ↦ none
    | some n ↦ some (n == length r.exprs)
  ]

  unfoldable pub wanted : String → String → Condition → ℕ → Rule → Option Bool
  wanted table chain expr family r = elim (in_chain table chain family r) [
    | true ↦ is_rule expr r
    | false ↦ some false
  ]

module _ (platform : Platform) (library : Priorities) (opens : Bool)
    (accepts : Command → Bool) where
  -- A loop over `n` more elements of the array, from `i` on, which deletes the rules that match. What
  -- stands at an index is read when the loop is there, after the deletions before.
  unfoldable pub sweep : String → String → Condition → (n i : ℕ) → ReadWriter → Ran
  sweep table chain expr zero i s = ok s
  sweep table chain expr (suc n) i s = elim (get_elem? s.rules.array i) [
    | none ↦ panic
    | some r ↦ elim (wanted platform table chain expr s.family r) [
      | none ↦ panic
      | some false ↦ sweep table chain expr n (i + 1) s
      | some true ↦
          and_then (delete_rule library opens accepts table chain r.handle s)
            (λ s. sweep table chain expr n (i + 1) s)
    ]
  ]

  unfoldable pub clean_up_rule : String → String → RuleMutation → ReadWriter → Ran
  unfolding sweep
  clean_up_rule table chain rule s = sweep table chain rule.expr s.rules.len 0 s

  -- `predicate.First`: the loop goes on behind the rule that was found.
  unfoldable pub present_from : String → String → RuleMutation → (n i : ℕ) → ReadWriter → Ran
  present_from table chain rule zero i s =
      write_rule library opens accepts table chain (build platform rule.expr) rule.first
        (marshal rule.comment) s
  present_from table chain rule (suc n) i s = elim (get_elem? s.rules.array i) [
    | none ↦ panic
    | some r ↦ elim (wanted platform table chain rule.expr s.family r) [
      | none ↦ panic
      | some false ↦ present_from table chain rule n (i + 1) s
      | some true ↦ sweep table chain rule.expr n (i + 1) s
    ]
  ]

  unfoldable pub present_rule : String → String → RuleMutation → ReadWriter → Ran
  unfolding present_from
  present_rule table chain rule s = present_from table chain rule s.rules.len 0 s

  -- The chains with the table's hook, of any table.
  unfoldable pub hooked_chains : Hook → ReadWriter → List Chain
  hooked_chains hook s = filter (λ c. ptr_equals (λ a b. a == b) c.hook (some hook)) (chains_of s)

  unfoldable pub present_hooked : String → List RuleMutation → List Chain → ReadWriter → Ran
  present_hooked table rules [] s = ok s
  present_hooked table rules (c ∷ cs) s =
      and_then (run_present (present_rule table c.name) rules s)
        (λ s. present_hooked table rules cs s)

  unfoldable pub clean_up_hooked : String → List RuleMutation → List Chain → ReadWriter → Ran
  clean_up_hooked table rules [] s = ok s
  clean_up_hooked table rules (c ∷ cs) s =
      and_then (run_clean_up (clean_up_rule table c.name) rules s)
        (λ s. clean_up_hooked table rules cs s)

  unfoldable pub first_chain : String → List Chain → Option Chain
  first_chain name [] = none
  first_chain name (c ∷ cs) = if c.name == name then some c else first_chain name cs

  -- `regularChain.Present`: a chain of that name that has a hook is deleted first.
  unfoldable pub replace_hooked : String → String → Option Chain → ReadWriter → Ran
  replace_hooked table name none s = ok s
  replace_hooked table name (some found) s = elim found.hook [
    | none ↦ ok s
    | some hook ↦ delete_chain library opens accepts table found.name s
  ]

  unfoldable pub present_chain : String → Hook → ChainMutation → ReadWriter → Ran
  unfolding present_hooked hooked_chains first_chain replace_hooked
  present_chain table hook (plain_chain name rules) s =
      run_present (present_rule table name) rules s
  present_chain table hook (base_chain name rules) s = elim (hooked_chains hook s) [
    | [] ↦
        and_then (write_chain library opens accepts table name (some hook) s)
          (run_present (present_rule table name) rules)
    | c ∷ cs ↦ present_hooked table rules (c ∷ cs) s
  ]
  present_chain table hook (regular_chain name force_clean rules) s =
      and_then (replace_hooked table name (first_chain name (chains_of s)) s) (λ s.
        and_then (write_chain library opens accepts table name none s)
          (run_present (present_rule table name) rules))

  -- Whether `cr.Rules()` has a rule of the chain.
  unfoldable pub has_rule : String → String → ReadWriter → List Rule → ℕ → Bool
  has_rule table name s [] n = false
  has_rule table name s (r ∷ rs) zero = false
  has_rule table name s (r ∷ rs) (suc n) =
      if in_chain table name s.family r then true else has_rule table name s rs n

  unfoldable pub clean_up_chain : String → Hook → ChainMutation → ReadWriter → Ran
  unfolding clean_up_hooked hooked_chains has_rule
  clean_up_chain table hook (plain_chain name rules) s =
      run_clean_up (clean_up_rule table name) rules s
  clean_up_chain table hook (base_chain name rules) s =
      clean_up_hooked table rules (hooked_chains hook s) s
  clean_up_chain table hook (regular_chain name force_clean rules) s =
      and_then (run_clean_up (clean_up_rule table name) rules s) (λ s. elim force_clean [
        | true ↦ delete_chain library opens accepts table name s
        | false ↦
            if has_rule table name s s.rules.array s.rules.len
            then ok s
            else delete_chain library opens accepts table name s
      ])
