-- ===== src/Nftables/Condition.antt =====
-- internal/portforwarding/nftables/condition: building the expressions of a rule, and matching the
-- expressions of a rule that the kernel has. An index out of range panics: `none`.
pub mod Prefix
pub mod Begins
pub mod Exact
pub mod Built
pub mod Alike
pub mod Tests
use kertical.Prelude.{
  ℕ, zero, suc, ◌+◌, ◌-◌, ◌%◌, ◌^◌, String, Bool, true, false, ◌&&◌, ◌||◌, Option, none, some, List,
  [], ◌∷◌, ◌++◌, leb, ◌==◌, string_Eq, nat_Eq, if◌then◌else◌, length, take, drop, all,
}
use kertical.Forwarding.Types.{Protocol, tcp, udp, other}
use kertical.Nftables.Expr.{
  Expr, counter, meta, cmp, payload, immediate, nat, masq, fib, bitwise, ct, verdict, numgen,
  lookup, l4proto, op_eq, op_neq, transport_header, network_header, ct_state, ct_mark,
  verdict_accept, verdict_jump, deep_equal, Platform,
}

-- net.IP: a list of 4 or of 16 bytes; any other is no address, and `To4` of it is nil.
unfoldable pub to4 : List ℕ → List ℕ
to4 ip =
    if length ip == 4
    then ip
    else if length ip == 16
        && (all (λ b. b == 0) (take 10 ip) && all (λ b. b == 255) (take 2 (drop 10 ip)))
    then drop 12 ip
    else []

pub data DynamicCondition : Type 0 where
  immediate_ip compare_equals_ip : (target : List ℕ) → DynamicCondition
  load_balancing : (set_id : ℕ) (set_name : String) (elem_size : ℕ) → DynamicCondition
  lookup_ip : (set_id : ℕ) (set_name : String) → DynamicCondition

mutual
  pub data Condition : Type 0 where
    combine : Conditions → Condition
    counting : Condition
    transport_protocol : (proto : ℕ) → Condition
    destination_port source_port : (port : ℕ) → Condition
    destination_ip : DynamicCondition → Condition
    destination_nat : DynamicCondition → (port : ℕ) → Condition
    masquerade source_local_addr tracking_established_related : Condition
    set_tracking_mark tracking_mark : (mark : ℕ) → Condition
    accept : Condition
    jump : (chain : String) → Condition

  pub data Conditions : Type 0 where
    nil : Conditions
    cons : Condition → Conditions → Conditions

unfoldable pub same : Bool → Bool → Bool
same true b = b
same false true = false
same false false = true

-- Set names identify a set as well as set numbers do.
unfoldable pub lookup_equals : Expr → Expr → Bool
lookup_equals (lookup s1 d1 i1 n1 m1 v1) (lookup s2 d2 i2 n2 m2 v2) =
    s1 == s2 && (d1 == d2 && (same i1 i2 && ((n1 == n2 || m1 == m2) && same v1 v2)))
lookup_equals _ _ = false

-- The registry of comparators has one entry, for lookups.
unfoldable pub compare_expr_equals : Expr → Expr → Bool
unfolding lookup_equals
compare_expr_equals (lookup s d i n m v) b = lookup_equals (lookup s d i n m v) b
compare_expr_equals a b = deep_equal a b

-- The loop of `prefixMatch`, over as many expressions as are expected.
unfoldable pub agree : List Expr → List Expr → Bool
agree [] actual = true
agree (e ∷ expected) [] = false
agree (e ∷ expected) (a ∷ actual) = compare_expr_equals e a && agree expected actual

unfoldable pub prefix_match : List Expr → List Expr → ℕ
prefix_match expected actual =
    if leb (length expected) (length actual)
    then if agree expected actual then length expected else 0
    else 0

-- `counter.Match` looks at the first expression with no test of the length.
unfoldable pub match_counter : List Expr → Option ℕ
match_counter [] = none
match_counter (counter contents ∷ rest) = some 1
match_counter (e ∷ rest) = some 0

-- The end of one round of the loop of `combine.Match`.
unfoldable pub next_matched : ℕ → ℕ → Option ℕ → Option ℕ
next_matched zero matched rest = some 0
next_matched (suc n) matched rest = rest

module _ (platform : Platform) where
  open platform use {
    big_endian_uint16, native_endian_uint32, ipproto_tcp, ipproto_udp, rtn_local,
    ct_state_established_related, nfproto_ipv4, nat_type_dest, ng_incremental,
  }

  -- `TransportProtocol` panics on any other protocol.
  unfoldable pub transport_condition : Protocol → Option Condition
  transport_condition tcp = some (transport_protocol ipproto_tcp)
  transport_condition udp = some (transport_protocol ipproto_udp)
  transport_condition (other name) = none

  -- `DynamicCondition.Build`
  unfoldable pub build_dynamic : DynamicCondition → ℕ → List Expr
  build_dynamic (immediate_ip target) reg = immediate reg (to4 target) ∷ []
  build_dynamic (compare_equals_ip target) reg = cmp reg op_eq (to4 target) ∷ []
  build_dynamic (load_balancing id name size) reg =
      numgen reg (size % 2 ^ 32) ng_incremental 0 ∷ lookup reg reg true id name false ∷ []
  build_dynamic (lookup_ip id name) reg = lookup reg 0 false id name false ∷ []

  unfoldable pub match_dynamic : DynamicCondition → ℕ → List Expr → ℕ
  unfolding build_dynamic
  match_dynamic target reg actual = prefix_match (build_dynamic target reg) actual

  unfoldable mutual
    -- `Condition.Build`
    pub build : Condition → List Expr
    build (combine conditions) = build_all conditions
    build counting = counter 0 ∷ []
    build (transport_protocol proto) = meta l4proto 1 0 ∷ cmp 1 op_eq (proto ∷ []) ∷ []
    build (destination_port port) =
        payload transport_header 2 2 1 0 ∷ cmp 1 op_eq (big_endian_uint16 port) ∷ []
    build (source_port port) =
        payload transport_header 0 2 1 0 ∷ cmp 1 op_eq (big_endian_uint16 port) ∷ []
    build (destination_ip target) = payload network_header 16 4 1 0 ∷ build_dynamic target 1
    build (destination_nat target port) =
        build_dynamic target 1
        ++ (immediate 2 (big_endian_uint16 port)
            ∷ nat nat_type_dest nfproto_ipv4 1 1 2 2 true 0
            ∷ [])
    build masquerade = masq 0 ∷ []
    build source_local_addr = fib 1 true true 0 ∷ cmp 1 op_eq (native_endian_uint32 rtn_local) ∷ []
    build tracking_established_related =
        ct 1 false ct_state 0
        ∷ bitwise 1 4 (native_endian_uint32 ct_state_established_related) (native_endian_uint32 0) 1
        ∷ cmp 1 op_neq (native_endian_uint32 0)
        ∷ []
    build (set_tracking_mark mark) =
        immediate 1 (native_endian_uint32 mark) ∷ ct 1 true ct_mark 0 ∷ []
    build (tracking_mark mark) = ct 1 false ct_mark 0 ∷ cmp 1 op_eq (native_endian_uint32 mark) ∷ []
    build accept = verdict verdict_accept "" ∷ []
    build (jump chain) = verdict verdict_jump chain ∷ []

    pub build_all : Conditions → List Expr
    build_all nil = []
    build_all (cons c cs) = build c ++ build_all cs

  -- `destinationIp.Match`, with what is left of the built expressions without those of the target.
  unfoldable pub match_destination_ip : DynamicCondition → List Expr → ℕ
  unfolding match_dynamic
  match_destination_ip target actual =
      let matched = prefix_match (payload network_header 16 4 1 0 ∷ []) actual in
      let target_matched = match_dynamic target 1 (drop matched actual) in
      if matched == 0 then 0 else if target_matched == 0 then 0 else matched + target_matched

  unfoldable pub match_destination_nat : DynamicCondition → ℕ → List Expr → ℕ
  unfolding match_dynamic
  match_destination_nat target port actual =
      let all_built =
        build_dynamic target 1
        ++ (immediate 2 (big_endian_uint16 port)
            ∷ nat nat_type_dest nfproto_ipv4 1 1 2 2 true 0
            ∷ []) in
      let target_matched = match_dynamic target 1 actual in
      let fixed_matched =
        prefix_match (drop target_matched all_built) (drop target_matched actual) in
      if target_matched == length (build_dynamic target 1)
      then if fixed_matched == 0 then 0 else target_matched + fixed_matched
      else 0

  unfoldable mutual
    -- `Condition.Match`
    pub match : Condition → List Expr → Option ℕ
    match (combine conditions) actual = match_all conditions 0 actual
    match counting actual = match_counter actual
    match (destination_ip target) actual = some (match_destination_ip target actual)
    match (destination_nat target port) actual = some (match_destination_nat target port actual)
    match (transport_protocol proto) actual =
        some (prefix_match (build (transport_protocol proto)) actual)
    match (destination_port port) actual =
        some (prefix_match (build (destination_port port)) actual)
    match (source_port port) actual = some (prefix_match (build (source_port port)) actual)
    match masquerade actual = some (prefix_match (build masquerade) actual)
    match source_local_addr actual = some (prefix_match (build source_local_addr) actual)
    match tracking_established_related actual =
        some (prefix_match (build tracking_established_related) actual)
    match (set_tracking_mark mark) actual =
        some (prefix_match (build (set_tracking_mark mark)) actual)
    match (tracking_mark mark) actual = some (prefix_match (build (tracking_mark mark)) actual)
    match accept actual = some (prefix_match (build accept) actual)
    match (jump chain) actual = some (prefix_match (build (jump chain)) actual)

    -- The loop of `combine.Match`, with what has been matched.
    pub match_all : Conditions → ℕ → List Expr → Option ℕ
    match_all nil matched actual = some matched
    match_all (cons c cs) matched actual = elim (match c (drop matched actual)) [
      | none ↦ none
      | some n ↦ next_matched n matched (match_all cs (matched + n) actual)
    ]
