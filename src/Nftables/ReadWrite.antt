-- ===== src/Nftables/ReadWrite.antt =====
-- internal/portforwarding/nftables/readwrite.go: the objects that were read from the kernel, and the
-- commands that wait for `Flush`.
use kertical.Prelude.{
  ℕ, zero, suc, ◌+◌, ◌-◌, String, Bool, true, false, ◌&&◌, Option, none, some, List, [], ◌∷◌, ◌++◌,
  ◌==◌, nat_Eq, string_Eq, if◌then◌else◌, take, drop, filter,
}
use kertical.Nftables.Expr.{Expr}
use kertical.Nftables.Tables.{
  Hook, Chain, Rule, Priorities, derive_type, derive_priority, derive_policy, SetDatatype, Command,
  add_table, del_table, add_chain, del_chain, add_rule, insert_rule, del_rule, add_set,
}

-- A slice: the elements of the array behind it, and its length. A loop over the slice that has begun
-- goes on over the array, up to the length at its start.
pub record Slice (A : Type 0) : Type 0 where
  pub array : List A
  pub len : ℕ

-- `append(s[:i], s[i+1:]...)`: what follows moves down within the array, its last element stays.
unfoldable pub delete_at : {A : Type 0} → ℕ → Slice A → Slice A
delete_at i s = record {
  array = take i s.array ++ (drop (i + 1) (take s.len s.array) ++ drop (s.len - 1) s.array);
  len = s.len - 1;
}

-- `readWriter`; `conn` is the batch of the open connection.
pub record ReadWriter : Type 0 where
  pub family : ℕ
  pub tables : List String
  pub chains : List Chain
  pub rules : Slice Rule
  pub conn : Option (List Command)

-- What a method of the writer, or a mutation, does: it returns nil, an error, or panics.
pub data Ran : Type 0 where
  ok error : ReadWriter → Ran
  panic : Ran

unfoldable pub and_then : Ran → (ReadWriter → Ran) → Ran
and_then (ok s) next = next s
and_then (error s) next = error s
and_then panic next = panic

unfoldable pub chains_of : ReadWriter → List Chain
chains_of s = filter (λ chain. chain.family == s.family) s.chains

-- `opens`: nftables.New succeeds. `accepts`: the methods of the connection that return an error do not.
module _ (library : Priorities) (opens : Bool) (accepts : Command → Bool) where
  unfoldable pub with_open_conn : ReadWriter → (ReadWriter → Ran) → Ran
  with_open_conn s action = elim s.conn [
    | some batch ↦ action s
    | none ↦ if opens then action (record s { conn = some [] }) else error s
  ]

  unfoldable pub send : Command → ReadWriter → ReadWriter
  send command s = elim s.conn [
    | some batch ↦ record s { conn = some (batch ++ (command ∷ [])) }
    | none ↦ s
  ]

  unfoldable pub write_table : String → ReadWriter → Ran
  unfolding with_open_conn send
  write_table name s = with_open_conn s (λ s. ok (send (add_table name) s))

  unfoldable pub remove_table : String → List String → Option (List String)
  remove_table name [] = none
  remove_table name (t ∷ ts) = elim (t == name) [
    | true ↦ some ts
    | false ↦ elim (remove_table name ts) [ none ↦ none | some rest ↦ some (t ∷ rest) ]
  ]

  unfoldable pub delete_table : String → ReadWriter → Ran
  unfolding with_open_conn send remove_table
  delete_table name s = with_open_conn s (λ s. elim (remove_table name s.tables) [
    | none ↦ ok s
    | some rest ↦ ok (send (del_table name) (record s { tables = rest }))
  ])

  -- A chain with a hook has derived attributes.
  unfoldable pub new_chain : ℕ → String → String → Option Hook → Chain
  new_chain family table name none = record {
    name = name;
    table = table;
    family = family;
    hook = none;
    priority = none;
    type = none;
    policy = none;
  }
  new_chain family table name (some hook) = record {
    name = name;
    table = table;
    family = family;
    hook = some hook;
    priority = some (derive_priority library hook);
    type = some (derive_type hook);
    policy = some (derive_policy hook);
  }

  unfoldable pub write_chain : String → String → Option Hook → ReadWriter → Ran
  unfolding with_open_conn send new_chain
  write_chain table name hook s =
      with_open_conn s (λ s. ok (send (add_chain (new_chain s.family table name hook)) s))

  unfoldable pub remove_chain : String → String → List Chain → Option (List Chain)
  remove_chain table name [] = none
  remove_chain table name (c ∷ cs) = elim (c.table == table && c.name == name) [
    | true ↦ some cs
    | false ↦ elim (remove_chain table name cs) [ none ↦ none | some rest ↦ some (c ∷ rest) ]
  ]

  -- The kernel is asked only for a chain that was read from it.
  unfoldable pub delete_chain : String → String → ReadWriter → Ran
  unfolding with_open_conn send remove_chain
  delete_chain table name s = with_open_conn s (λ s. elim (remove_chain table name s.chains) [
    | none ↦ ok s
    | some rest ↦ ok (send (del_chain table name) (record s { chains = rest }))
  ])

  unfoldable pub write_rule : String → String → List Expr → Bool → List ℕ → ReadWriter → Ran
  unfolding with_open_conn send
  write_rule table chain exprs first comment s = with_open_conn s (λ s. ok (
      send
        (if first
          then insert_rule table chain exprs comment
          else add_rule table chain exprs comment)
        s))

  -- The first of `n` elements of the array that has the handle.
  unfoldable pub index_of : ℕ → List Rule → ℕ → Option ℕ
  index_of handle [] n = none
  index_of handle (r ∷ rs) zero = none
  index_of handle (r ∷ rs) (suc n) = elim (r.handle == handle) [
    | true ↦ some 0
    | false ↦ elim (index_of handle rs n) [ none ↦ none | some i ↦ some (i + 1) ]
  ]

  unfoldable pub delete_rule : String → String → ℕ → ReadWriter → Ran
  unfolding with_open_conn send delete_at index_of
  delete_rule table chain handle s = with_open_conn s (λ s.
      elim (index_of handle s.rules.array s.rules.len) [
        | none ↦ ok s
        | some i ↦
            let sent =
              send (del_rule table chain handle) (record s { rules = delete_at i s.rules }) in
            if accepts (del_rule table chain handle)
            then ok sent
            else error (record s { rules = delete_at i s.rules })
      ])

  unfoldable pub write_set :
      String
      → ℕ
      → String
      → SetDatatype
      → SetDatatype
      → List (List ℕ × List ℕ)
      → String
      → ReadWriter
      → Ran
  unfolding with_open_conn send
  write_set table id name key value pairs comment s = with_open_conn s (λ s.
      let command : Command = add_set table id name key value pairs comment in
      if accepts command then ok (send command s) else error s)
