-- ===== src/Nftables/NfTables/Methods.antt =====
-- The methods of `NfTables`, over a kernel.
use kertical.Prelude.{ℕ, String, Bool, true, false, Option, none, some, List}
use kertical.Forwarding.Types.{Protocol}
use kertical.Nftables.Expr.{Platform}
use kertical.Nftables.Tables.{Priorities, Command}
use kertical.Nftables.Mutation.{TableMutation}
use kertical.Nftables.Mutation.Group.{present_table, clean_up_table}
use kertical.Nftables.NfTables.{Connection, Outcome, done, panics, and_then, run_mutation}
use kertical.Nftables.NfTables.Build.{NfTables, Text, structure, build_forwarding}

-- `new`
abbrev pub new_nf_tables : Text → String → ℕ → NfTables
new_nf_tables text name family = record { name = text.to_upper name; family = family; once = false }

module _ (platform : Platform) (text : Text) (library : Priorities) (accepts : Command → Bool)
    (order : List String → List String) {K : Type 0} (conn : Connection K)
    (has_prefix : String → String → Bool) (opens : Bool) where
  present : NfTables → List TableMutation → K → Outcome K
  present nft mutations k =
      run_mutation conn has_prefix opens nft.name nft.family
        (present_table platform library opens accepts order) mutations k

  clean_up : NfTables → List TableMutation → K → Outcome K
  clean_up nft mutations k =
      run_mutation conn has_prefix opens nft.name nft.family
        (clean_up_table platform library opens accepts order) mutations k

  unfoldable pub close : NfTables → K → Outcome K
  unfolding clean_up
  close nft k = clean_up nft (structure platform text nft.name true) k

  -- Close, then the structure again.
  unfoldable pub start : NfTables → K → Outcome K
  unfolding close present
  start nft k = and_then (close nft k) (present nft (structure platform text nft.name false))

  -- `once.Do(start)`: whatever `start` returns, it never runs again.
  start_once : NfTables → K → Outcome K
  unfolding start
  start_once nft k = elim nft.once [ true ↦ done k | false ↦ start nft k ]

  present_forwarding : NfTables → Option (List TableMutation) → K → Outcome K
  present_forwarding nft none k = panics
  present_forwarding nft (some mutations) k = present nft mutations k

  clean_up_forwarding : NfTables → Option (List TableMutation) → K → Outcome K
  clean_up_forwarding nft none k = panics
  clean_up_forwarding nft (some mutations) k = clean_up nft mutations k

  unfoldable pub add_forwarding :
      (String → ℕ)
      → Protocol
      → (from : ℕ) → List String
      → (to : ℕ) → String
      → NfTables
      → K
      → Outcome K × NfTables
  unfolding start_once present_forwarding present
  add_forwarding ids proto from target to comment nft k = (
    and_then (start_once nft k) (
        present_forwarding nft
          (build_forwarding platform text ids nft.name proto from target to comment)),
    record nft { once = true },
  )

  unfoldable pub remove_forwarding :
      (String → ℕ) → Protocol → (from : ℕ) → List String → (to : ℕ) → NfTables → K → Outcome K
  unfolding clean_up_forwarding clean_up
  remove_forwarding ids proto from target to nft k =
      clean_up_forwarding nft (build_forwarding platform text ids nft.name proto from target to "")
        k
