-- ===== src/Nftables/Condition/Tests.antt =====
-- The conditions of a forwarding rule, built and matched.
use native.Mathlib.Omega.{arith}
use kertical.Prelude.{none, some, [], ◌∷◌, ◌++◌, length, ◌≡◌, refl}
use kertical.Nftables.Expr.{counter, masq, deep_equal, Platform}
use kertical.Nftables.Condition.{
  load_balancing, Condition, combine, counting, transport_protocol, destination_port,
  destination_nat, nil, cons, build, build_dynamic, match, match_counter, next_matched,
  prefix_match, agree, compare_expr_equals,
}
use kertical.Nftables.Condition.Begins.{IsAnswer}
use kertical.Nftables.Condition.Exact.{IsProper, match_lem}
use kertical.Nftables.Condition.Built.{match-build, match_counter_panics}

abbrev pub platform : Platform
platform = record {
  big_endian_uint16 = λ n. 0 ∷ n ∷ [];
  native_endian_uint32 = λ n. n ∷ 0 ∷ 0 ∷ 0 ∷ [];
  ipproto_tcp = 6;
  ipproto_udp = 17;
  rtn_local = 2;
  ct_state_established_related = 6;
  nfproto_ipv4 = 2;
  nat_type_dest = 1;
  ng_incremental = 0;
}

abbrev forwarding_rule : Condition
forwarding_rule = combine (
    cons (transport_protocol 6) (
      cons (destination_port 80)
        (cons counting (cons (destination_nat (load_balancing 7 "targets" 2) 81) nil))))

counted :
    match platform
      (combine (cons (transport_protocol 6) (cons counting nil)))
      (build platform (transport_protocol 6) ++ (counter 12 ∷ []))
    ≡ some 3
unfolding match match_counter build next_matched prefix_match agree compare_expr_equals deep_equal
counted = refl

match_lem_example :
    IsAnswer
      (build platform forwarding_rule)
      (masq 0 ∷ [])
      (match platform forwarding_rule (masq 0 ∷ []))
unfolding build build_dynamic IsProper
match_lem_example =
    match_lem platform forwarding_rule
      (tt, omega arith, (tt, omega arith, (tt, omega arith, (tt, omega arith, tt)))) (masq 0 ∷ [])

match-build_example :
    match platform forwarding_rule (build platform forwarding_rule ++ (masq 0 ∷ []))
    ≡ some (length (build platform forwarding_rule))
unfolding build build_dynamic IsProper
match-build_example =
    match-build platform forwarding_rule
      (tt, omega arith, (tt, omega arith, (tt, omega arith, (tt, omega arith, tt)))) (masq 0 ∷ [])

match_counter_panics_example :
    match platform
      (combine (cons (transport_protocol 6) (cons counting nil)))
      (build platform (transport_protocol 6))
    ≡ none
unfolding build build_dynamic IsProper
match_counter_panics_example = match_counter_panics platform (transport_protocol 6) tt (omega arith)
