-- ===== src/Nftables/Condition/Prefix.antt =====
-- A list of expressions begins with another, as a test that computes: by the comparison of the program, but
-- that a counter is similar to any counter. Condition.Begins has what it means.
use native.Mathlib.Omega.{arith}
use native.Mathlib.Numerals.{unary_clauses}
use kertical.Prelude.{
  ℕ, zero, suc, ◌+◌, ◌-◌, ◌<◌, ◌≤◌, Bool, true, false, ◌&&◌, Option, none, some, List, [], ◌∷◌,
  ◌++◌, nat_Eq, if◌then◌else◌, length, drop, ◌≡◌, refl, ap, ◌∙◌, ◌⊎◌, leb→le, ==_refl, string_Eq,
}
use kertical.Nftables.Expr.{
  Expr, counter, meta, cmp, payload, immediate, nat, masq, fib, bitwise, ct, verdict, numgen,
  lookup, other, deep_equal_iff,
}
use kertical.Nftables.Condition.{same, lookup_equals, compare_expr_equals, agree, prefix_match}

unfoldable pub similar : Expr → Expr → Bool
similar (counter n) (counter m) = true
similar (counter n) _ = false
similar e a = compare_expr_equals e a

unfoldable pub begins : List Expr → List Expr → Bool
begins [] actual = true
begins (e ∷ expected) [] = false
begins (e ∷ expected) (a ∷ actual) = similar e a && begins expected actual

-- What `Match` may answer for a condition that is built bs `expected`.
unfoldable pub Answers : List Expr → List Expr → Option ℕ → Type 0
Answers expected actual result =
    (begins expected actual ≡ true) × (result ≡ some (length expected))
    ⊎ (begins expected actual ≡ false)
      × ((result ≡ some 0) ⊎ (result ≡ none) × length actual < length expected)

unfoldable pub counter_free : List Expr → Bool
counter_free [] = true
counter_free (counter n ∷ es) = false
counter_free (_ ∷ es) = counter_free es

similar_lem :
    (e a : Expr) (es : List Expr)
    → counter_free (e ∷ es) ≡ true
    → similar e a ≡ compare_expr_equals e a
unfolding similar counter_free
similar_lem (counter n) a es p = grind arith
similar_lem (meta _ _ _) a es p = refl
similar_lem (cmp _ _ _) a es p = refl
similar_lem (payload _ _ _ _ _) a es p = refl
similar_lem (immediate _ _) a es p = refl
similar_lem (nat _ _ _ _ _ _ _ _) a es p = refl
similar_lem (masq _) a es p = refl
similar_lem (fib _ _ _ _) a es p = refl
similar_lem (bitwise _ _ _ _ _) a es p = refl
similar_lem (ct _ _ _ _) a es p = refl
similar_lem (verdict _ _) a es p = refl
similar_lem (numgen _ _ _ _) a es p = refl
similar_lem (lookup _ _ _ _ _ _) a es p = refl
similar_lem (other _ _) a es p = refl

counter_free-tail :
    (e : Expr) (es : List Expr) → counter_free (e ∷ es) ≡ true → counter_free es ≡ true
unfolding counter_free
counter_free-tail (counter n) es p = grind arith
counter_free-tail (meta _ _ _) es p = p
counter_free-tail (cmp _ _ _) es p = p
counter_free-tail (payload _ _ _ _ _) es p = p
counter_free-tail (immediate _ _) es p = p
counter_free-tail (nat _ _ _ _ _ _ _ _) es p = p
counter_free-tail (masq _) es p = p
counter_free-tail (fib _ _ _ _) es p = p
counter_free-tail (bitwise _ _ _ _ _) es p = p
counter_free-tail (ct _ _ _ _) es p = p
counter_free-tail (verdict _ _) es p = p
counter_free-tail (numgen _ _ _ _) es p = p
counter_free-tail (lookup _ _ _ _ _ _) es p = p
counter_free-tail (other _ _) es p = p

agree-begins : (es bs : List Expr) → counter_free es ≡ true → agree es bs ≡ begins es bs
unfolding agree begins
agree-begins [] bs p = refl
agree-begins (e ∷ es) [] p = refl
agree-begins (e ∷ es) (a ∷ bs) p =
    rw (similar_lem e a es p) (rw (agree-begins es bs (counter_free-tail e es p)) refl)

pub begins-length : (es bs : List Expr) → begins es bs ≡ true → length es ≤ length bs
unfolding begins
begins-length [] bs p = omega arith
begins-length (e ∷ es) [] p = grind arith
begins-length (e ∷ es) (a ∷ bs) p = ground (arith, begins-length es bs)

-- `prefixMatch` is the description, where no counter is expected.
pub prefix_match_lem :
    (es bs : List Expr)
    → counter_free es ≡ true
    → prefix_match es bs ≡ (if begins es bs then length es else 0)
unfolding prefix_match
prefix_match_lem es bs p =
    ground (arith, leb→le (length es) (length bs), agree-begins es bs p, begins-length es bs)

pub drop-drop : {A : Type 0} → (n m : ℕ) → (xs : List A) → drop (n + m) xs ≡ drop m (drop n xs)
drop-drop zero m xs = ap (λ k. drop k xs) {y = m} (omega arith)
drop-drop (suc n) zero [] = simp unary_clauses refl
drop-drop (suc n) (suc m) [] = simp unary_clauses refl
drop-drop (suc n) m (x ∷ xs) =
    ap (λ k. drop k (x ∷ xs)) {y = suc (n + m)} (omega arith) ∙ drop-drop n m xs

pub drop-all : {A : Type 0} → (xs : List A) → drop (length xs) xs ≡ []
drop-all [] = refl
drop-all (x ∷ xs) = drop-all xs

pub length-drop : {A : Type 0} → (n : ℕ) → (xs : List A) → length (drop n xs) ≡ length xs - n
length-drop zero xs = omega arith
length-drop (suc n) [] = omega arith
length-drop (suc n) (x ∷ xs) = omega (arith, length-drop n xs)

pub begins-append :
    (xs ys bs : List Expr)
    → begins (xs ++ ys) bs ≡ (begins xs bs && begins ys (drop (length xs) bs))
unfolding begins
begins-append [] ys bs = refl
begins-append (x ∷ xs) ys [] = refl
begins-append (x ∷ xs) ys (a ∷ bs) = rw (begins-append xs ys bs) (ground arith)

pub same_refl : (b : Bool) → same b b ≡ true
unfolding same
same_refl true = refl
same_refl false = refl

pub similar_refl : (e : Expr) → similar e e ≡ true
unfolding similar compare_expr_equals lookup_equals
similar_refl (counter n) = refl
similar_refl (meta k r u) = (deep_equal_iff (meta k r u) (meta k r u)).1 refl
similar_refl (cmp r o d) = (deep_equal_iff (cmp r o d) (cmp r o d)).1 refl
similar_refl (payload b o l r u) = (deep_equal_iff (payload b o l r u) (payload b o l r u)).1 refl
similar_refl (immediate r d) = (deep_equal_iff (immediate r d) (immediate r d)).1 refl
similar_refl (nat t f a b c d s u) =
    (deep_equal_iff (nat t f a b c d s u) (nat t f a b c d s u)).1 refl
similar_refl (masq u) = (deep_equal_iff (masq u) (masq u)).1 refl
similar_refl (fib r a s u) = (deep_equal_iff (fib r a s u) (fib r a s u)).1 refl
similar_refl (bitwise r l m x d) = (deep_equal_iff (bitwise r l m x d) (bitwise r l m x d)).1 refl
similar_refl (ct r s k u) = (deep_equal_iff (ct r s k u) (ct r s k u)).1 refl
similar_refl (verdict k c) = (deep_equal_iff (verdict k c) (verdict k c)).1 refl
similar_refl (numgen r m t u) = (deep_equal_iff (numgen r m t u) (numgen r m t u)).1 refl
similar_refl (lookup s d i n m v) =
    rw (==_refl s) (rw (==_refl d) (rw (same_refl i) (rw (==_refl n) (same_refl v))))
similar_refl (other k c) = (deep_equal_iff (other k c) (other k c)).1 refl

pub begins_self : (es rest : List Expr) → begins es (es ++ rest) ≡ true
unfolding begins
begins_self [] rest = refl
begins_self (e ∷ es) rest = rw (similar_refl e) (begins_self es rest)
