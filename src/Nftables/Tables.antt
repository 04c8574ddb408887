-- ===== src/Nftables/Tables.antt =====
-- The objects of github.com/google/nftables that the program reads and writes, with the fields that it
-- uses, and the derived attributes of a chain: internal/portforwarding/nftables/derive. A pointer that
-- may be nil is an Option.
use kertical.Prelude.{
  ℕ, String, Bool, true, false, ◌≡◌, ◌↔◌, refl, Option, none, some, List, Eq, nat_eq_iff, ◌==◌,
  nat_Eq, arith,
}
use kertical.Nftables.Expr.{Expr}

-- The kernel's hooks; the four that have a variable of the package.
pub data Hook : Type 0 where
  prerouting forward output postrouting : Hook
  hook_number : ℕ → Hook

-- A 32-bit integer with its sign: `below n` is -1 - n.
pub data Priority : Type 0 where
  at : ℕ → Priority
  below : ℕ → Priority

pub data ChainType : Type 0 where
  nat_type filter_type : ChainType
  type_name : String → ChainType

pub data ChainPolicy : Type 0 where
  drop accept : ChainPolicy

abbrev hook_eq : Hook → Hook → Bool
hook_eq prerouting prerouting = true
hook_eq forward forward = true
hook_eq output output = true
hook_eq postrouting postrouting = true
hook_eq (hook_number n) (hook_number m) = n == m
hook_eq _ _ = false

pub hook_eq_iff : (a b : Hook) → (hook_eq a b ≡ true) ↔ (a ≡ b)
hook_eq_iff (hook_number n) (hook_number m) =
    ((λ h. ground (arith, nat_eq_iff n m)), (λ h. ground (arith, nat_eq_iff n m)))
hook_eq_iff prerouting prerouting = ((λ h. refl), (λ h. refl))
hook_eq_iff forward forward = ((λ h. refl), (λ h. refl))
hook_eq_iff output output = ((λ h. refl), (λ h. refl))
hook_eq_iff postrouting postrouting = ((λ h. refl), (λ h. refl))
hook_eq_iff a b = ((λ h. cc), (λ h. cc))

instance abbrev pub hook_Eq : Eq Hook
hook_Eq = record { equals = hook_eq; equals_iff = hook_eq_iff }

abbrev pub priority_eq : Priority → Priority → Bool
priority_eq (at n) (at m) = n == m
priority_eq (below n) (below m) = n == m
priority_eq _ _ = false

abbrev pub type_eq : ChainType → ChainType → Bool
type_eq nat_type nat_type = true
type_eq filter_type filter_type = true
type_eq _ _ = false

pub record Chain : Type 0 where
  pub name : String
  pub table : String
  pub family : ℕ
  pub hook : Option Hook
  pub priority : Option Priority
  pub type : Option ChainType
  pub policy : Option ChainPolicy

pub record Rule : Type 0 where
  pub table : String
  pub family : ℕ
  pub chain : String
  pub handle : ℕ
  pub exprs : List Expr
  pub user_data : List ℕ

-- The package's priorities of chains.
pub record Priorities : Type 0 where
  pub nat_dest : Priority
  pub nat_source : Priority
  pub filter : Priority

-- derive.go: the switches compare with the variables of the package.
abbrev pub derive_type : Hook → ChainType
derive_type prerouting = nat_type
derive_type postrouting = nat_type
derive_type output = nat_type
derive_type _ = filter_type

-- The literal is -100.
abbrev pub derive_priority : Priorities → Hook → Priority
derive_priority library prerouting = library.nat_dest
derive_priority library postrouting = library.nat_source
derive_priority library output = below 99
derive_priority library _ = library.filter

abbrev pub derive_policy : Hook → ChainPolicy
derive_policy forward = drop
derive_policy _ = accept

-- predicate.PtrEquals
unfoldable pub ptr_equals : {A : Type 0} → (A → A → Bool) → Option A → Option A → Bool
ptr_equals eq none none = true
ptr_equals eq (some a) (some b) = eq a b
ptr_equals eq _ _ = false

-- `key` and `value` of a set: the name of the value's type is empty for none.
pub record SetDatatype : Type 0 where
  pub datatype_name : String

pub data Command : Type 0 where
  add_table del_table : (name : String) → Command
  add_chain : Chain → Command
  del_chain : (table chain : String) → Command
  add_rule insert_rule : (table chain : String) → List Expr → (comment : List ℕ) → Command
  del_rule : (table chain : String) (handle : ℕ) → Command
  add_set :
      (table : String) (id : ℕ) (name : String) (key value : SetDatatype)
      → List (List ℕ × List ℕ)
      → (comment : String) → Command
