-- ===== src/Nftables/Condition/Alike.antt =====
-- Conditions that differ in the numbers of their sets only, and the matching of their expressions.
use native.Mathlib.Omega.{arith}
use kertical.Prelude.{
  ℕ, String, Bool, true, false, some, List, [], ◌∷◌, ◌++◌, length, ◌≡◌, refl, ap, ◌∙◌, inl, inr,
  ==_refl, string_Eq, nat_Eq, ◌%◌, ◌^◌,
}
use kertical.Nftables.Expr.{Expr, Platform, lookup, numgen}
use kertical.Nftables.Condition.{
  DynamicCondition, load_balancing, lookup_ip, Condition, Conditions, nil, cons, build, build_all,
  build_dynamic, match, lookup_equals, compare_expr_equals,
}
use kertical.Nftables.Condition.Prefix.{begins, similar, same_refl, similar_refl, Answers}
use kertical.Nftables.Condition.Exact.{IsProper, answers}

-- A list begins with the other, and is not longer.
unfoldable pub Like : List Expr → List Expr → Type 0
Like es bs = (begins es bs ≡ true) × (length es ≡ length bs)

begins_refl : (es : List Expr) → begins es es ≡ true
unfolding begins
begins_refl [] = refl
begins_refl (e ∷ es) = rw (similar_refl e) (begins_refl es)

pub Like-append : (es bs cs ds : List Expr) → Like es bs → Like cs ds → Like (es ++ cs) (bs ++ ds)
unfolding Like begins
Like-append [] [] cs ds p q = q
Like-append [] (b ∷ bs) cs ds p q = absurd (omega (arith, p.1))
Like-append (e ∷ es) [] cs ds p q = absurd (omega (arith, p.1))
Like-append (e ∷ es) (b ∷ bs) cs ds p q =
    let tails : begins es bs ≡ true = ground (arith, p.0) in
    let rest = Like-append es bs cs ds (tails, omega (arith, p.1)) q in
    (ground (arith, p.0, rest.0), omega (arith, rest.1))

pub Like-refl : (es : List Expr) → Like es es
unfolding Like
Like-refl es = (begins_refl es, refl)

-- Two lookups in one set by its name, under two numbers.
similar-lookup :
    (s d : ℕ) (i : Bool) (n m : ℕ) (name : String) (v : Bool)
    → similar (lookup s d i n name v) (lookup s d i m name v) ≡ true
unfolding similar compare_expr_equals lookup_equals
similar-lookup s d i n m name v =
    rw (==_refl s)
      (rw (==_refl d) (rw (==_refl name) (rw (same_refl i) (rw (same_refl v) (ground arith)))))

-- Two targets that may differ in the numbers of their sets.
pub data AreSame : DynamicCondition → DynamicCondition → Type 0 where
  same_target : (d : DynamicCondition) → AreSame d d
  same_map :
      (n m : ℕ) (name : String) (size : ℕ)
      → AreSame (load_balancing n name size) (load_balancing m name size)
  same_set : (n m : ℕ) (name : String) → AreSame (lookup_ip n name) (lookup_ip m name)

module _ (platform : Platform) where
  pub dynamic-Like :
      {d d' : DynamicCondition}
      → AreSame d d'
      → (reg : ℕ) → Like (build_dynamic platform d reg) (build_dynamic platform d' reg)
  unfolding Like begins build_dynamic
  dynamic-Like (same_target d) reg = Like-refl (build_dynamic platform d reg)
  dynamic-Like (same_map n m name size) reg = (
    rw (similar_refl (numgen reg (size % 2 ^ 32) platform.ng_incremental 0))
        (rw (similar-lookup reg reg true n m name false) refl),
    refl,
  )
  dynamic-Like (same_set n m name) reg = (rw (similar-lookup reg 0 false n m name false) refl, refl)

  -- A rule's expressions, one condition at a time.
  unfoldable pub LikeBuilt : Condition → Condition → Type 0
  LikeBuilt c c' = Like (build platform c) (build platform c')

  pub nil-Like : Like (build_all platform nil) (build_all platform nil)
  unfolding build
  nil-Like = Like-refl []

  pub cons-Like :
      (c c' : Condition) (cs cs' : Conditions)
      → LikeBuilt c c'
      → Like (build_all platform cs) (build_all platform cs')
      → Like (build_all platform (cons c cs)) (build_all platform (cons c' cs'))
  unfolding build LikeBuilt
  cons-Like c c' cs cs' p q =
      Like-append (build platform c) (build platform c') (build_all platform cs)
        (build_all platform cs') p q

  -- What `Match` of a proper condition answers to expressions that are like those which it builds.
  pub match-Like :
      (c c' : Condition)
      → IsProper platform c
      → LikeBuilt c c'
      → match platform c (build platform c') ≡ some (length (build platform c'))
  unfolding Answers LikeBuilt Like
  match-Like c c' proper (begin, same_length) =
      elim (answers platform c proper (build platform c')) [
        | inl (_, r) ↦ r ∙ ap some same_length
        | inr (e, _) ↦ ground (arith, e, begin)
      ]
