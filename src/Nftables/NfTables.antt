-- ===== src/Nftables/NfTables.antt =====
-- internal/portforwarding/nftables/nftables.go: forwarding by rules of the kernel. The functions on
-- strings, addresses and random numbers, and the connection to the kernel, are those of the libraries.
pub mod Build
pub mod Methods
pub mod Recognised
mod Tests
use kertical.Prelude.{
  ℕ, ◌+◌, length, String, Bool, true, false, ◌||◌, Option, none, some, List, [], ◌∷◌, ◌++◌, map,
  if◌then◌else◌,
}
use kertical.Nftables.Expr.{Platform}
use kertical.Nftables.Tables.{Hook, Chain, Rule, Priorities, Command}
use kertical.Nftables.ReadWrite.{Slice, ReadWriter, Ran, ok, error, panic}
use kertical.Nftables.Mutation.{TableMutation}
use kertical.Nftables.Mutation.Group.{present_table, clean_up_table}

-- What `Flush` of a connection returns: nil, or an error, with the answer of `os.IsNotExist` to it.
pub data Flushed : Type 0 where
  flushed : Flushed
  refused : (not_found : Bool) → Flushed

-- nftables.Conn over a kernel `K`.
pub record Connection (K : Type 0) : Type 0 where
  pub list_tables : ℕ → K → Option (List String)
  pub list_chains : K → Option (List Chain)
  pub get_rules : Chain → K → Option (List Rule)
  pub readable_sets : List String → K → Bool
  pub flush : List Command → K → Flushed × K

pub data Outcome (K : Type 0) : Type 0 where
  done failed : K → Outcome K
  panics : Outcome K

unfoldable pub and_then : {K : Type 0} → Outcome K → (K → Outcome K) → Outcome K
and_then (done k) next = next k
and_then (failed k) next = failed k
and_then panics next = panics

-- `has_prefix` is strings.HasPrefix; `opens` is whether nftables.New succeeds.
module _ {K : Type 0} (conn : Connection K) (has_prefix : String → String → Bool)
    (opens : Bool) where
  open conn use {list_tables, list_chains, get_rules, readable_sets, flush}

  -- The rules are read of the chains with a hook, and of the program's own.
  unfoldable pub is_read : String → Option Hook → String → Bool
  is_read name none chain_name = has_prefix chain_name name
  is_read name (some hook) chain_name = true

  unfoldable pub collect_rules : String → List Chain → K → Option (List Rule)
  unfolding is_read
  collect_rules name [] k = some []
  collect_rules name (c ∷ cs) k = elim (is_read name c.hook c.name) [
    | false ↦ collect_rules name cs k
    | true ↦ elim (get_rules c k) [
      | none ↦ none
      | some rules ↦ elim (collect_rules name cs k) [
        | none ↦ none
        | some rest ↦ some (rules ++ rest)
      ]
    ]
  ]

  reading : ℕ → List String → List Chain → List Rule → Bool → Option ReadWriter
  reading family tables chains rules true = some (record {
    family = family;
    tables = tables;
    chains = chains;
    rules = record { array = rules; len = length rules };
    conn = some [];
  })
  reading family tables chains rules false = none

  -- newReadWriter with `refresh`: `none` is an error.
  unfoldable pub new_read_writer : String → ℕ → K → Option ReadWriter
  unfolding collect_rules reading
  new_read_writer name family k = elim opens [
    | false ↦ none
    | true ↦ elim (list_tables family k) [
      | none ↦ none
      | some tables ↦ elim (list_chains k) [
        | none ↦ none
        | some chains ↦ elim (collect_rules name chains k) [
          | none ↦ none
          | some rules ↦ reading family tables chains rules (readable_sets tables k)
        ]
      ]
    ]
  ]

  -- `Flush`, and what runMutation makes of its error. The connection is open since the refresh.
  unfoldable pub flush_batch : Option (List Command) → K → Flushed × K
  flush_batch none k = (flushed, k)
  flush_batch (some batch) k = flush batch k

  after_flush : Flushed × K → (K → Outcome K) → Outcome K
  after_flush (flushed, k) next = next k
  after_flush (refused true, k) next = done k
  after_flush (refused false, k) next = failed k

  after_action : Ran → K → (K → Outcome K) → Outcome K
  unfolding after_flush flush_batch
  after_action (ok s) k next = after_flush (flush_batch s.conn k) next
  after_action (error s) k next = failed k
  after_action panic k next = panics

  -- runMutation: each mutation has a reader and writer of its own, and a batch of its own.
  unfoldable pub run_mutation :
      String → ℕ → (TableMutation → ReadWriter → Ran) → List TableMutation → K → Outcome K
  unfolding new_read_writer after_action
  run_mutation name family action [] k = done k
  run_mutation name family action (m ∷ ms) k = elim (new_read_writer name family k) [
    | none ↦ failed k
    | some s ↦ after_action (action m s) k (run_mutation name family action ms)
  ]
