-- ===== src/Nftables/Condition/Begins.antt =====
-- What it means that a list of expressions begins with what a condition builds, as a relation that uses
-- none of the comparisons of the program.
use kertical.Prelude.{
  ℕ, String, Bool, true, false, ◌&&◌, ◌||◌, ◌≡◌, ◌⊎◌, ◌↔◌, ◌<◌, inl, inr, refl, Option, none, some,
  List, [], ◌∷◌, ◌==◌, length, nat_Eq, string_Eq, nat_eq_iff, ==_refl,
}
use text.Mathlib.TextEquality.{eq_iff}
use kertical.Nftables.Expr.{
  Expr, counter, meta, cmp, payload, immediate, nat, masq, fib, bitwise, ct, verdict, numgen,
  lookup, other, deep_equal_iff,
}
use kertical.Nftables.Condition.{same, lookup_equals, compare_expr_equals}
use kertical.Nftables.Condition.Prefix.{similar, begins, Answers}

-- The second expression may stand where the first is expected: any counter for a counter; for a lookup one of
-- the same registers and the same inversion, in a set of the same number or of the same name; and else
-- only the same expression.
abbrev pub Similar : Expr → Expr → Type 0
Similar (counter n) a = (m : ℕ) × (a ≡ counter m)
Similar (lookup s d i n m v) a =
    (n' : ℕ) × (m' : String) × (a ≡ lookup s d i n' m' v) × ((n ≡ n') ⊎ (m ≡ m'))
Similar e a = e ≡ a

-- The actual expressions begin with ones that may stand for the expected.
abbrev pub Begins : (expected actual : List Expr) → Type 0
Begins [] actual = Unit
Begins (e ∷ expected) [] = ⊥
Begins (e ∷ expected) (a ∷ actual) = Similar e a × Begins expected actual

-- The answers that `Match` may give for a condition that is built as `expected`: the number of its
-- expressions; or 0; or a panic, when there are fewer expressions than it builds.
abbrev pub IsAnswer : (expected actual : List Expr) → Option ℕ → Type 0
IsAnswer expected actual result =
    Begins expected actual × (result ≡ some (length expected))
    ⊎ (¬ Begins expected actual)
      × ((result ≡ some 0) ⊎ (result ≡ none) × length actual < length expected)

same_iff : (a b : Bool) → (same a b ≡ true) ↔ (a ≡ b)
unfolding same
same_iff true true = ((λ e. refl), (λ e. refl))
same_iff true false = ((λ e. cc), (λ e. cc))
same_iff false true = ((λ e. cc), (λ e. cc))
same_iff false false = ((λ e. refl), (λ e. refl))

counter-Similar : (n : ℕ) (a : Expr) → similar (counter n) a ≡ true → Similar (counter n) a
unfolding similar
counter-Similar n (counter m) e = (m, refl)
counter-Similar n (meta _ _ _) e = absurd (cc)
counter-Similar n (cmp _ _ _) e = absurd (cc)
counter-Similar n (payload _ _ _ _ _) e = absurd (cc)
counter-Similar n (immediate _ _) e = absurd (cc)
counter-Similar n (nat _ _ _ _ _ _ _ _) e = absurd (cc)
counter-Similar n (masq _) e = absurd (cc)
counter-Similar n (fib _ _ _ _) e = absurd (cc)
counter-Similar n (bitwise _ _ _ _ _) e = absurd (cc)
counter-Similar n (ct _ _ _ _) e = absurd (cc)
counter-Similar n (verdict _ _) e = absurd (cc)
counter-Similar n (numgen _ _ _ _) e = absurd (cc)
counter-Similar n (lookup _ _ _ _ _ _) e = absurd (cc)
counter-Similar n (other _ _) e = absurd (cc)

both : (a b : Bool) → (a && b ≡ true) ↔ ((a ≡ true) × (b ≡ true))
both true b = ((λ e. (refl, e)), (λ e. e.1))
both false b = ((λ e. absurd (cc)), (λ e. absurd (cc)))

either : (a b : Bool) → (a || b ≡ true) ↔ ((a ≡ true) ⊎ (b ≡ true))
either true b = ((λ e. inl refl), (λ e. refl))
either false b = ((λ e. inr e), (λ e. elim e [ inl h ↦ absurd (cc) | inr h ↦ h ]))

lookup-Similar :
    (s d : ℕ) (i : Bool) (n : ℕ) (m : String) (v : Bool) (a : Expr)
    → similar (lookup s d i n m v) a ≡ true
    → Similar (lookup s d i n m v) a
unfolding similar compare_expr_equals lookup_equals
lookup-Similar s d i n m v (lookup s' d' i' n' m' v') e =
    let (es, e1) = (both (s == s') _).0 e in
    let (ed, e2) = (both (d == d') _).0 e1 in
    let (ei, e3) = (both (same i i') _).0 e2 in
    let (enm, ev) = (both (n == n' || m == m') _).0 e3 in
    let ps : s ≡ s' = (nat_eq_iff s s').0 es in
    let pd : d ≡ d' = (nat_eq_iff d d').0 ed in
    let pi : i ≡ i' = (same_iff i i').0 ei in
    let pv : v ≡ v' = (same_iff v v').0 ev in
    (
      n',
      m',
      cc,
      elim ((either (n == n') (m == m')).0 enm) [
        | inl h ↦ inl ((nat_eq_iff n n').0 h)
        | inr h ↦ inr ((eq_iff m m').0 h)
      ],
    )
lookup-Similar s d i n m v (counter _) e = absurd (cc)
lookup-Similar s d i n m v (meta _ _ _) e = absurd (cc)
lookup-Similar s d i n m v (cmp _ _ _) e = absurd (cc)
lookup-Similar s d i n m v (payload _ _ _ _ _) e = absurd (cc)
lookup-Similar s d i n m v (immediate _ _) e = absurd (cc)
lookup-Similar s d i n m v (nat _ _ _ _ _ _ _ _) e = absurd (cc)
lookup-Similar s d i n m v (masq _) e = absurd (cc)
lookup-Similar s d i n m v (fib _ _ _ _) e = absurd (cc)
lookup-Similar s d i n m v (bitwise _ _ _ _ _) e = absurd (cc)
lookup-Similar s d i n m v (ct _ _ _ _) e = absurd (cc)
lookup-Similar s d i n m v (verdict _ _) e = absurd (cc)
lookup-Similar s d i n m v (numgen _ _ _ _) e = absurd (cc)
lookup-Similar s d i n m v (other _ _) e = absurd (cc)

same_lookup :
    (s d : ℕ) (i : Bool) (n n' : ℕ) (m m' : String) (v : Bool)
    → (n ≡ n') ⊎ (m ≡ m')
    → similar (lookup s d i n m v) (lookup s d i n' m' v) ≡ true
unfolding similar compare_expr_equals lookup_equals
same_lookup s d i n n' m m' v h = rw (==_refl s) (
    rw (==_refl d) (
      (both (same i i) _).1 (
        (same_iff i i).1 refl,
        (both (n == n' || m == m') _).1 (
          (either (n == n') (m == m')).1
              (elim h [ inl e ↦ inl ((nat_eq_iff n n').1 e) | inr e ↦ inr ((eq_iff m m').1 e) ]),
          (same_iff v v).1 refl,
        ),
      )))

similar_iff : (e a : Expr) → (similar e a ≡ true) ↔ Similar e a
unfolding similar compare_expr_equals
similar_iff (counter n) a = (counter-Similar n a, (λ (m, e). rw e refl))
similar_iff (lookup s d i n m v) a =
    (lookup-Similar s d i n m v a, (λ (n', m', e, h). rw e (same_lookup s d i n n' m m' v h)))
similar_iff (meta a' b' c') x = deep_equal_iff (meta a' b' c') x
similar_iff (cmp a' b' c') x = deep_equal_iff (cmp a' b' c') x
similar_iff (payload a' b' c' d' e') x = deep_equal_iff (payload a' b' c' d' e') x
similar_iff (immediate a' b') x = deep_equal_iff (immediate a' b') x
similar_iff (nat a' b' c' d' e' f' g' h') x = deep_equal_iff (nat a' b' c' d' e' f' g' h') x
similar_iff (masq a') x = deep_equal_iff (masq a') x
similar_iff (fib a' b' c' d') x = deep_equal_iff (fib a' b' c' d') x
similar_iff (bitwise a' b' c' d' e') x = deep_equal_iff (bitwise a' b' c' d' e') x
similar_iff (ct a' b' c' d') x = deep_equal_iff (ct a' b' c' d') x
similar_iff (verdict a' b') x = deep_equal_iff (verdict a' b') x
similar_iff (numgen a' b' c' d') x = deep_equal_iff (numgen a' b' c' d') x
similar_iff (other a' b') x = deep_equal_iff (other a' b') x

begins_iff : (es bs : List Expr) → (begins es bs ≡ true) ↔ Begins es bs
unfolding begins
begins_iff [] bs = ((λ e. tt), (λ h. refl))
begins_iff (e ∷ es) [] = ((λ h. absurd (cc)), (λ h. absurd h))
begins_iff (e ∷ es) (b ∷ bs) =
    let first = similar_iff e b in
    let rest = begins_iff es bs in
    let two = both (similar e b) (begins es bs) in
    ((λ h. (first.0 (two.0 h).0, rest.0 (two.0 h).1)), (λ h. two.1 (first.1 h.0, rest.1 h.1)))

pub Answers-IsAnswer :
    (es bs : List Expr) (result : Option ℕ) → Answers es bs result → IsAnswer es bs result
unfolding Answers
Answers-IsAnswer es bs result (inl (e, r)) = inl ((begins_iff es bs).0 e, r)
Answers-IsAnswer es bs result (inr (e, r)) =
    inr ((λ h. let yes_begins = (begins_iff es bs).1 h in cc), r)
