-- ===== src/Nftables/Condition/Exact.antt =====
-- What `Match` answers, for every kind of condition.
use native.Mathlib.Omega.{arith}
use kertical.Prelude.{
  ℕ, zero, suc, ◌+◌, ◌<◌, true, false, Option, none, some, List, [], ◌∷◌, ◌++◌, ◌==◌, nat_Eq,
  nat_eq_iff, if◌then◌else◌, length, drop, ◌≡◌, refl, sym, ap, ◌∙◌, ◌⊎◌, inl, inr, Bool-cases,
  length-append, drop-append, string_Eq,
}
use kertical.Nftables.Expr.{
  Expr, counter, meta, cmp, payload, immediate, nat, network_header, masq, fib, bitwise, ct,
  verdict, numgen, lookup, other, Platform,
}
use kertical.Nftables.Condition.{
  DynamicCondition, immediate_ip, compare_equals_ip, load_balancing, lookup_ip, Condition, combine,
  counting, transport_protocol, destination_port, source_port, destination_ip, destination_nat,
  masquerade, source_local_addr, tracking_established_related, set_tracking_mark, tracking_mark,
  accept, jump, Conditions, nil, cons, prefix_match, build_dynamic, match_dynamic, build, build_all,
  match_counter, match_destination_ip, match_destination_nat, next_matched, match, match_all,
}
use kertical.Nftables.Condition.Begins.{IsAnswer, Answers-IsAnswer}
use kertical.Nftables.Condition.Prefix.{
  begins, similar, Answers, counter_free, begins-length, prefix_match_lem, drop-drop, length-drop,
  begins-append,
}

module _ (platform : Platform) where
  unfoldable mutual
    -- The members of a combination build at least one expression each.
    pub IsProper : Condition → Type 0
    IsProper (combine conditions) = AreProper conditions
    IsProper _ = Unit

    pub AreProper : Conditions → Type 0
    AreProper nil = Unit
    AreProper (cons c cs) = IsProper c × (0 < length (build platform c)) × AreProper cs

fixed-Answers :
    (es bs : List Expr) → counter_free es ≡ true → Answers es bs (some (prefix_match es bs))
unfolding Answers
fixed-Answers es bs p = rw (prefix_match_lem es bs p) (elim (Bool-cases (begins es bs)) [
  | inl e ↦ rw e (inl (refl, refl))
  | inr e ↦ rw e (inr (refl, inl refl))
])

counter-Answers : (bs : List Expr) → Answers (counter 0 ∷ []) bs (match_counter bs)
unfolding Answers begins similar match_counter
counter-Answers [] = inr (refl, inr (refl, omega arith))
counter-Answers (b ∷ bs) = first b
  where
    first : (b : Expr) → Answers (counter 0 ∷ []) (b ∷ bs) (match_counter (b ∷ bs))
    first (counter n) = inl (refl, refl)
    first (meta _ _ _) = inr (refl, inl refl)
    first (cmp _ _ _) = inr (refl, inl refl)
    first (payload _ _ _ _ _) = inr (refl, inl refl)
    first (immediate _ _) = inr (refl, inl refl)
    first (nat _ _ _ _ _ _ _ _) = inr (refl, inl refl)
    first (masq _) = inr (refl, inl refl)
    first (fib _ _ _ _) = inr (refl, inl refl)
    first (bitwise _ _ _ _ _) = inr (refl, inl refl)
    first (ct _ _ _ _) = inr (refl, inl refl)
    first (verdict _ _) = inr (refl, inl refl)
    first (numgen _ _ _ _) = inr (refl, inl refl)
    first (lookup _ _ _ _ _ _) = inr (refl, inl refl)
    first (other _ _) = inr (refl, inl refl)

-- `Match` of an IP condition: first the fixed expressions, then those of the target.
chained-Answers :
    (xs ys bs : List Expr)
    → counter_free xs ≡ true
    → counter_free ys ≡ true
    → 0 < length xs
    → 0 < length ys
    → Answers (xs ++ ys) bs (
        some (
          let matched = prefix_match xs bs in
          let target_matched = prefix_match ys (drop matched bs) in
          if matched == 0 then 0 else if target_matched == 0 then 0 else matched + target_matched))
unfolding Answers
chained-Answers xs ys bs fx fy px py = rw (prefix_match_lem xs bs fx) (
    rw (begins-append xs ys bs) (elim (Bool-cases (begins xs bs)) [
      | inl e ↦ rw e (
          rw (prefix_match_lem ys (drop (length xs) bs) fy) (
            ground
              (arith, length-append xs ys, nat_eq_iff (length xs) 0, nat_eq_iff (length ys) 0)))
      | inr e ↦ rw e (inr (refl, inl refl))
    ]))

-- `Match` of a translation: all the expressions of the target, then the fixed ones.
target_first-Answers :
    (xs ys bs : List Expr)
    → counter_free xs ≡ true
    → counter_free ys ≡ true
    → 0 < length xs
    → 0 < length ys
    → Answers (xs ++ ys) bs (
        some (
          let target_matched = prefix_match xs bs in
          let fixed_matched =
            prefix_match (drop target_matched (xs ++ ys)) (drop target_matched bs) in
          if target_matched == length xs
          then if fixed_matched == 0 then 0 else target_matched + fixed_matched
          else 0))
unfolding Answers
target_first-Answers xs ys bs fx fy px py = rw (prefix_match_lem xs bs fx) (
    rw (begins-append xs ys bs) (elim (Bool-cases (begins xs bs)) [
      | inl e ↦ rw e (
          rw (drop-append xs ys) (
            rw (prefix_match_lem ys (drop (length xs) bs) fy) (
              ground (
                arith,
                length-append xs ys,
                nat_eq_iff (length xs) (length xs),
                nat_eq_iff (length ys) 0,
              ))))
      | inr e ↦ rw e (ground (arith, nat_eq_iff 0 (length xs)))
    ]))

-- What the loop of `combine.Match` may answer, where `matched` expressions are behind it.
From : ℕ → List Expr → List Expr → Option ℕ → Type 0
From matched expected actual result =
    (begins expected actual ≡ true) × (result ≡ some (matched + length expected))
    ⊎ (begins expected actual ≡ false)
      × ((result ≡ some 0) ⊎ (result ≡ none) × length actual < length expected)

pub next_matched-positive :
    (n matched : ℕ) (rest : Option ℕ) → 0 < n → next_matched n matched rest ≡ rest
unfolding next_matched
next_matched-positive zero matched rest p = grind arith
next_matched-positive (suc n) matched rest p = refl

round-From :
    (xs ys bs : List Expr) (matched : ℕ) (first : Option ℕ) (rest : ℕ → Option ℕ)
    → 0 < length xs
    → Answers xs (drop matched bs) first
    → From (matched + length xs) ys (drop (matched + length xs) bs) (rest (length xs))
    → From matched
        (xs ++ ys)
        (drop matched bs)
        (elim first [ none ↦ none | some n ↦ next_matched n matched (rest n) ])
unfolding Answers From next_matched
round-From xs ys bs matched first rest px (inl (e, r)) after = rw r (
    rw (begins-append xs ys (drop matched bs)) (
      rw e (
        rw (next_matched-positive (length xs) matched (rest (length xs)) px) (
          rw (sym (drop-drop matched (length xs) bs)) (elim after [
            | inl (f, q) ↦ inl (
              f,
              q ∙ ap some {y = matched + length (xs ++ ys)} (omega (arith, length-append xs ys)),
            )
            | inr (f, inl q) ↦ inr (f, inl q)
            | inr (f, inr (q, short)) ↦ inr (
              f,
              inr (
                q,
                omega (
                  arith,
                  length-append xs ys,
                  begins-length xs (drop matched bs) e,
                  length-drop matched bs,
                  length-drop (matched + length xs) bs,
                ),
              ),
            )
          ])))))
round-From xs ys bs matched first rest px (inr (e, inl r)) after =
    rw r (rw (begins-append xs ys (drop matched bs)) (rw e (inr (refl, inl refl))))
round-From xs ys bs matched first rest px (inr (e, inr (r, short))) after = rw r (
    rw (begins-append xs ys (drop matched bs))
      (rw e (inr (refl, inr (refl, omega (arith, length-append xs ys))))))

From-start : (es bs : List Expr) (result : Option ℕ) → From 0 es bs result → Answers es bs result
unfolding From Answers
From-start es bs result (inl (e, r)) = inl (e, r ∙ ap some {y = length es} (omega arith))
From-start es bs result (inr failed) = inr failed

module _ (platform : Platform) where
  dynamic_fixed :
      (target : DynamicCondition) (reg : ℕ)
      → counter_free (build_dynamic platform target reg) ≡ true
  unfolding counter_free build_dynamic
  dynamic_fixed (immediate_ip ip) reg = refl
  dynamic_fixed (compare_equals_ip ip) reg = refl
  dynamic_fixed (load_balancing id name size) reg = refl
  dynamic_fixed (lookup_ip id name) reg = refl

  dynamic_built :
      (target : DynamicCondition) (reg : ℕ) → 0 < length (build_dynamic platform target reg)
  unfolding build_dynamic
  dynamic_built (immediate_ip ip) reg = omega arith
  dynamic_built (compare_equals_ip ip) reg = omega arith
  dynamic_built (load_balancing id name size) reg = omega arith
  dynamic_built (lookup_ip id name) reg = omega arith

  mutual
    unfolding match IsProper build counter_free match_destination_ip match_destination_nat
        match_dynamic From begins

    pub answers :
        (c : Condition)
        → IsProper platform c
        → (bs : List Expr) → Answers (build platform c) bs (match platform c bs)
    answers (combine conditions) p bs =
        From-start (build_all platform conditions) bs (match_all platform conditions 0 bs)
          (loop_answers conditions p 0 bs)
    answers counting p bs = counter-Answers bs
    answers (transport_protocol proto) p bs =
        fixed-Answers (build platform (transport_protocol proto)) bs refl
    answers (destination_port port) p bs =
        fixed-Answers (build platform (destination_port port)) bs refl
    answers (source_port port) p bs = fixed-Answers (build platform (source_port port)) bs refl
    answers (destination_ip target) p bs =
        chained-Answers (payload network_header 16 4 1 0 ∷ []) (build_dynamic platform target 1) bs
          refl (dynamic_fixed target 1) (omega arith) (dynamic_built target 1)
    answers (destination_nat target port) p bs =
        target_first-Answers (build_dynamic platform target 1) _ bs (dynamic_fixed target 1) refl
          (dynamic_built target 1) (omega arith)
    answers masquerade p bs = fixed-Answers (build platform masquerade) bs refl
    answers source_local_addr p bs = fixed-Answers (build platform source_local_addr) bs refl
    answers tracking_established_related p bs =
        fixed-Answers (build platform tracking_established_related) bs refl
    answers (set_tracking_mark mark) p bs =
        fixed-Answers (build platform (set_tracking_mark mark)) bs refl
    answers (tracking_mark mark) p bs = fixed-Answers (build platform (tracking_mark mark)) bs refl
    answers accept p bs = fixed-Answers (build platform accept) bs refl
    answers (jump chain) p bs = fixed-Answers (build platform (jump chain)) bs refl

    loop_answers :
        (cs : Conditions)
        → AreProper platform cs
        → (matched : ℕ) (bs : List Expr)
        → From matched (build_all platform cs) (drop matched bs) (match_all platform cs matched bs)
    loop_answers nil p matched bs = inl (refl, ap some {y = matched + 0} (omega arith))
    loop_answers (cons c cs) (pc, built, ps) matched bs =
        round-From (build platform c) (build_all platform cs) bs matched
          (match platform c (drop matched bs)) (λ n. match_all platform cs (matched + n) bs) built
          (answers c pc (drop matched bs))
          (loop_answers cs ps (matched + length (build platform c)) bs)

-- For any list of expressions, a condition whose combinations are of conditions that build something
-- matches with the number of the expressions that it builds when the list begins with these, and otherwise
-- it matches with 0, or panics on a list that is shorter than what it builds. In that, any counter stands
-- for a counter, and a lookup in a set of the same number or of the same name, with the same registers and
-- the same inversion, for a lookup; every other expression stands for itself only.
pub match_lem :
    (platform : Platform) (c : Condition)
    → IsProper platform c
    → (actual : List Expr) → IsAnswer (build platform c) actual (match platform c actual)
match_lem platform c p actual = Answers-IsAnswer _ _ _ (answers platform c p actual)
