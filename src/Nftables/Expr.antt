-- ===== src/Nftables/Expr.antt =====
-- The expressions of github.com/google/nftables/expr that the program builds or reads. `unset` stands
-- for the fields that the program leaves at their zero value: 0 where all are. Numbers that belong to
-- that package, to its binaryutil and to x/sys/unix are the fields of `Platform`.
use native.Mathlib.Decide.{ℕ_discrete}
use text.Mathlib.TextEquality.{eq_iff}
use mathlib.Core.Bool.{decide, decide_iff}
use kertical.Prelude.{
  ℕ, String, Bool, true, ◌≡◌, ◌↔◌, List, ◌==◌, string_Eq, nat_Eq, Bool-cases, inl, inr,
}

pub data CmpOp : Type 0 where
  op_eq op_neq : CmpOp
  op_other : ℕ → CmpOp

pub data MetaKey : Type 0 where
  l4proto : MetaKey
  meta_key : ℕ → MetaKey

pub data PayloadBase : Type 0 where
  transport_header network_header : PayloadBase
  payload_base : ℕ → PayloadBase

pub data CtKey : Type 0 where
  ct_state ct_mark : CtKey
  ct_key : ℕ → CtKey

pub data VerdictKind : Type 0 where
  verdict_accept verdict_jump : VerdictKind
  verdict_kind : ℕ → VerdictKind

pub data Expr : Type 0 where
  counter : (contents : ℕ) → Expr
  meta : MetaKey → (register unset : ℕ) → Expr
  cmp : (register : ℕ) → CmpOp → (bytes : List ℕ) → Expr
  payload : PayloadBase → (offset len dest_register unset : ℕ) → Expr
  immediate : (register : ℕ) → (bytes : List ℕ) → Expr
  nat :
      (type family addr_min addr_max proto_min proto_max : ℕ) (specified : Bool) (unset : ℕ) → Expr
  masq : (unset : ℕ) → Expr
  fib : (register : ℕ) (result_addrtype flag_saddr : Bool) (unset : ℕ) → Expr
  bitwise : (source_register len : ℕ) → (mask xor : List ℕ) → (dest_register : ℕ) → Expr
  ct : (register : ℕ) (source_register : Bool) → CtKey → (unset : ℕ) → Expr
  verdict : VerdictKind → (chain : String) → Expr
  numgen : (register modulus type unset : ℕ) → Expr
  lookup :
      (source_register dest_register : ℕ) (is_dest_reg_set : Bool) (set_id : ℕ) (set_name : String)
      (invert : Bool)
      → Expr
  other : (kind contents : ℕ) → Expr

string_discrete : Discrete String
string_discrete s t = elim (Bool-cases (s == t)) [
  | inl same ↦ yes ((eq_iff s t).0 same)
  | inr apart ↦ no (λ e. cc (apart, (eq_iff s t).1 e))
]

Expr-discrete : Discrete Expr
Expr-discrete = hlevel (ℕ_discrete, string_discrete)

-- reflect.DeepEqual; of two different types it is false.
unfoldable pub deep_equal : Expr → Expr → Bool
unfolding Expr-discrete string_discrete ℕ_discrete decide
deep_equal a b = decide (Expr-discrete a b)

pub deep_equal_iff : (a b : Expr) → (deep_equal a b ≡ true) ↔ (a ≡ b)
unfolding deep_equal
deep_equal_iff a b = decide_iff (Expr-discrete a b)

pub record Platform : Type 0 where
  pub big_endian_uint16 : ℕ → List ℕ
  pub native_endian_uint32 : ℕ → List ℕ
  pub ipproto_tcp : ℕ
  pub ipproto_udp : ℕ
  pub rtn_local : ℕ
  pub ct_state_established_related : ℕ
  pub nfproto_ipv4 : ℕ
  pub nat_type_dest : ℕ
  pub ng_incremental : ℕ
