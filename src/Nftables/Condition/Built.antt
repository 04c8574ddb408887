-- ===== src/Nftables/Condition/Built.antt =====
-- `Match` on the expressions that `Build` has made.
use native.Mathlib.Omega.{arith}
use mathlib.Core.List.{append-nil}
use kertical.Prelude.{
  ℕ, ◌<◌, ◌+◌, Option, none, some, List, [], ◌++◌, length, ◌≡◌, refl, sym, ap, ◌∙◌, inl, inr, drop,
}
use kertical.Nftables.Expr.{Expr, Platform}
use kertical.Nftables.Condition.{
  Condition, combine, counting, nil, cons, build, match, next_matched, match_counter,
}
use kertical.Nftables.Condition.Prefix.{begins_self, Answers, drop-all}
use kertical.Nftables.Condition.Exact.{IsProper, answers, next_matched-positive}

-- A condition whose combinations are of conditions that build something matches what it has built,
-- whatever follows, with the number of the expressions that it built.
pub match-build :
    (platform : Platform) (c : Condition)
    → IsProper platform c
    → (rest : List Expr)
    → match platform c (build platform c ++ rest) ≡ some (length (build platform c))
unfolding Answers
match-build platform c p rest = elim (answers platform c p (build platform c ++ rest)) [
  | inl (_, r) ↦ r
  | inr (e, _) ↦ ground (arith, e, begins_self (build platform c) rest)
]

whole :
    (platform : Platform) (c : Condition)
    → IsProper platform c
    → match platform c (build platform c) ≡ some (length (build platform c))
whole platform c p =
    ap (λ es. match platform c es) {y = build platform c ++ []}
      (sym (append-nil (build platform c)))
    ∙ match-build platform c p []

exhausted :
    (es : List Expr) (first : Option ℕ)
    → 0 < length es
    → first ≡ some (length es)
    → elim first [
      | none ↦ none
      | some n ↦ next_matched n 0 (elim (match_counter (drop (0 + n) es)) [
        | none ↦ none
        | some more ↦ next_matched more (0 + n) (some (0 + n + more))
      ])
    ]
      ≡ none
unfolding match_counter
exhausted es first built e =
    let start : 0 + length es ≡ length es = omega arith in
    rw e (rw (next_matched-positive (length es) 0 _ built) (rw start (rw (drop-all es) refl)))

-- Where a counter is expected after a condition that builds something and the list ends with what that
-- condition built, matching panics instead of answering 0.
pub match_counter_panics :
    (platform : Platform) (c : Condition)
    → IsProper platform c
    → 0 < length (build platform c)
    → match platform (combine (cons c (cons counting nil))) (build platform c) ≡ none
unfolding match match_counter
match_counter_panics platform c p built =
    exhausted (build platform c) (match platform c (build platform c)) built (whole platform c p)
