-- ===== src/Nftables/Mutation/Tests.antt =====
-- Tables, and rules of a chain, as the kernel may have them.
use native.Mathlib.Omega.{arith}
use kertical.Prelude.{ℕ, String, true, false, none, some, [], ◌∷◌, ◌++◌, ◌≡◌, refl}
use kertical.Nftables.Expr.{masq, deep_equal}
use kertical.Nftables.Condition.{
  combine, masquerade, nil, cons, build, match, next_matched, prefix_match, agree,
  compare_expr_equals,
}
use kertical.Nftables.Condition.Tests.{platform}
use kertical.Nftables.Tables.{
  prerouting, nat_type, Chain, Rule, at, below, Priorities, del_rule, ptr_equals,
}
use kertical.Nftables.ReadWrite.{ReadWriter, ok}
use kertical.Nftables.Mutation.{
  RuleMutation, clean_up_rule, most_frequency_table, vote, wanted, in_chain, is_rule,
}
use kertical.Nftables.Mutation.Majority.{typed, typed_in, most_frequency_table_lem}
use kertical.Nftables.Mutation.Skipping.{clean_up_rule-skips}

abbrev nat_chain : String → Chain
nat_chain table = record {
  name = "c";
  table = table;
  family = 2;
  hook = some prerouting;
  priority = none;
  type = some nat_type;
  policy = none;
}

-- Two of the four chains are in the table a, and it is not found.
no_majority :
    most_frequency_table
      (nat_chain "a" ∷ nat_chain "a" ∷ nat_chain "b" ∷ nat_chain "c" ∷ [])
      nat_type
      "f"
    ≡ "c"
unfolding most_frequency_table vote ptr_equals
no_majority = refl

most_frequency_table_lem_example :
    most_frequency_table
      (nat_chain "a" ∷ nat_chain "b" ∷ nat_chain "b" ∷ nat_chain "b" ∷ [])
      nat_type
      "a"
    ≡ "b"
unfolding typed typed_in ptr_equals
most_frequency_table_lem_example =
    most_frequency_table_lem (nat_chain "a" ∷ nat_chain "b" ∷ nat_chain "b" ∷ nat_chain "b" ∷ [])
      nat_type "a" "b" (omega arith)

abbrev priorities : Priorities
priorities = record { nat_dest = below 99; nat_source = at 100; filter = at 0 }

abbrev masquerading : RuleMutation
masquerading = record { expr = combine (cons masquerade nil); first = false; comment = [] }

abbrev rule_at : ℕ → ℕ → Rule
rule_at handle unset = record {
  table = "nat";
  family = 2;
  chain = "POST";
  handle = handle;
  exprs = masq unset ∷ [];
  user_data = [];
}

abbrev reader : ReadWriter
reader = record {
  family = 2;
  tables = "nat" ∷ [];
  chains = [];
  rules = record { array = []; len = 0 };
  conn = none;
}

clean_up_rule-skips_example :
    clean_up_rule platform priorities true
      (λ command. true)
      "nat"
      "POST"
      masquerading
      (record reader {
        rules = record { array = rule_at 5 0 ∷ rule_at 6 0 ∷ rule_at 7 1 ∷ []; len = 3 };
        conn = some [];
      })
    ≡ ok (record reader {
      rules = record { array = rule_at 6 0 ∷ rule_at 7 1 ∷ rule_at 7 1 ∷ []; len = 2 };
      conn = some ([] ++ (del_rule "nat" "POST" 5 ∷ []));
    })
unfolding wanted in_chain is_rule match build next_matched prefix_match agree compare_expr_equals
    deep_equal
clean_up_rule-skips_example =
    clean_up_rule-skips platform priorities true (λ command. true) "nat" "POST" masquerading reader
      [] (rule_at 5 0) (rule_at 6 0) (rule_at 7 1) refl refl refl refl
