-- ===== src/Nftables/NfTables/Recognised.antt =====
-- The rules that `RemoveForwarding` looks for are those that `AddForwarding` has written.
use native.Mathlib.Omega.{arith}
use kertical.Prelude.{
  ℕ, ◌<◌, String, Option, none, some, List, [], ◌∷◌, length, ◌≡◌, refl, length-append,
}
use kertical.Forwarding.Types.{Protocol, tcp, udp, other}
use kertical.Nftables.Expr.{Platform}
use kertical.Nftables.Condition.{
  DynamicCondition, Condition, combine, transport_protocol, destination_ip, destination_nat,
  Conditions, nil, cons, build, build_all, build_dynamic, match, transport_condition,
}
use kertical.Nftables.Condition.Exact.{IsProper, AreProper}
use kertical.Nftables.Condition.Alike.{
  AreSame, same_target, same_map, same_set, Like, Like-refl, Like-append, LikeBuilt, dynamic-Like,
  nil-Like, cons-Like, match-Like,
}
use kertical.Nftables.Mutation.{RuleMutation, ChainMutation, plain_chain, TableMutation}
use kertical.Nftables.NfTables.Build.{
  Text, outgoing, incoming, scaffold, forwarding_of, build_forwarding, targets,
}

module _ (platform : Platform) (text : Text) where
  -- The rules of the first list match those of the second, as written, to the end.
  unfoldable pub RulesMatch : List RuleMutation → List RuleMutation → Type 0
  RulesMatch [] [] = Unit
  RulesMatch (r ∷ rs) (w ∷ ws) =
      (match platform r.expr (build platform w.expr) ≡ some (length (build platform w.expr)))
      × RulesMatch rs ws
  RulesMatch _ _ = ⊥

  unfoldable pub ChainsMatch : List ChainMutation → List ChainMutation → Type 0
  unfolding RulesMatch
  ChainsMatch [] [] = Unit
  ChainsMatch (plain_chain n rs ∷ cs) (plain_chain m ws ∷ ds) =
      (n ≡ m) × RulesMatch rs ws × ChainsMatch cs ds
  ChainsMatch _ _ = ⊥

  unfoldable pub TablesMatch : List TableMutation → List TableMutation → Type 0
  unfolding ChainsMatch
  TablesMatch [] [] = Unit
  TablesMatch (t ∷ ts) (u ∷ us) =
      (t.hook ≡ u.hook) × ChainsMatch t.chains u.chains × TablesMatch ts us
  TablesMatch _ _ = ⊥

  unfoldable pub BothMatch : Option (List TableMutation) → Option (List TableMutation) → Type 0
  unfolding TablesMatch
  BothMatch none none = Unit
  BothMatch (some ts) (some us) = TablesMatch ts us
  BothMatch _ _ = ⊥

  module _ (ids ids' : String → ℕ) (name comment comment' : String) (from : ℕ) where
    outgoing_same :
        (ips : List (List ℕ)) (suffix : String)
        → AreSame
            (outgoing platform text ids name comment from ips suffix).0
            (outgoing platform text ids' name comment' from ips suffix).0
    unfolding outgoing
    outgoing_same [] suffix = same_map _ _ _ _
    outgoing_same (ip ∷ []) suffix = same_target _
    outgoing_same (ip ∷ ip' ∷ ips) suffix = same_map _ _ _ _

    incoming_same :
        (ips : List (List ℕ)) (suffix : String)
        → AreSame
            (incoming platform text ids name comment from ips suffix).0
            (incoming platform text ids' name comment' from ips suffix).0
    unfolding incoming
    incoming_same [] suffix = same_set _ _ _
    incoming_same (ip ∷ []) suffix = same_target _
    incoming_same (ip ∷ ip' ∷ ips) suffix = same_set _ _ _

  same_built : (c : Condition) → LikeBuilt platform c c
  unfolding LikeBuilt
  same_built c = Like-refl (build platform c)

  nat-Like :
      {d d' : DynamicCondition}
      → AreSame d d'
      → (to : ℕ) → LikeBuilt platform (destination_nat d to) (destination_nat d' to)
  unfolding LikeBuilt build
  nat-Like s to = Like-append _ _ _ _ (dynamic-Like platform s 1) (Like-refl _)

  ip-Like :
      {d d' : DynamicCondition}
      → AreSame d d'
      → LikeBuilt platform (destination_ip d) (destination_ip d')
  unfolding LikeBuilt build
  ip-Like {d} {d'} s = Like-append (_ ∷ []) (_ ∷ []) _ _ (Like-refl _) (dynamic-Like platform s 1)

  nat_built : (d : DynamicCondition) (to : ℕ) → 0 < length (build platform (destination_nat d to))
  unfolding build
  nat_built d to = omega (arith, length-append (build_dynamic platform d 1) _)

  -- Two rules that differ in the numbers of the sets of their targets.
  data Retargeted : Conditions → Conditions → Type 0 where
    ends : Retargeted nil nil
    keeps :
        (c : Condition) {cs cs' : Conditions}
        → Retargeted cs cs'
        → Retargeted (cons c cs) (cons c cs')
    nats :
        {d d' : DynamicCondition} (to : ℕ) {cs cs' : Conditions}
        → AreSame d d'
        → Retargeted cs cs'
        → Retargeted (cons (destination_nat d to) cs) (cons (destination_nat d' to) cs')
    addresses :
        {d d' : DynamicCondition} {cs cs' : Conditions}
        → AreSame d d'
        → Retargeted cs cs'
        → Retargeted (cons (destination_ip d) cs) (cons (destination_ip d') cs')

  Retargeted-Like :
      {cs cs' : Conditions}
      → Retargeted cs cs'
      → Like (build_all platform cs) (build_all platform cs')
  Retargeted-Like ends = nil-Like platform
  Retargeted-Like (keeps c r) = cons-Like platform c c _ _ (same_built c) (Retargeted-Like r)
  Retargeted-Like (nats to same r) =
      cons-Like platform _ _ _ _ (nat-Like same to) (Retargeted-Like r)
  Retargeted-Like (addresses same r) = cons-Like platform _ _ _ _ (ip-Like same) (Retargeted-Like r)

  rule_matches :
      {cs cs' : Conditions}
      → Retargeted cs cs'
      → AreProper platform cs
      → match platform (combine cs) (build platform (combine cs'))
        ≡ some (length (build platform (combine cs')))
  unfolding IsProper LikeBuilt build
  rule_matches {cs} {cs'} r proper =
      match-Like platform (combine cs) (combine cs') proper (Retargeted-Like r)

  tables_match :
      (ids ids' : String → ℕ) (name : String) (proto from : ℕ) (ips : List (List ℕ)) (to : ℕ)
      (comment comment' : String)
      → TablesMatch
          (forwarding_of platform text ids name (transport_protocol proto) from ips to comment)
          (forwarding_of platform text ids' name (transport_protocol proto) from ips to comment')
  unfolding TablesMatch forwarding_of IsProper scaffold build
  tables_match ids ids' name proto from ips to comment comment' =
      let out = outgoing_same ids ids' name comment comment' from ips in
      let back = incoming_same ids ids' name comment comment' from ips in
      (
        refl,
        (
          refl,
          (
            rule_matches (keeps _ (keeps _ (keeps _ (keeps _ (nats to (out "pre") ends))))) (
              tt,
              omega arith,
              (tt, omega arith, (tt, omega arith, (tt, omega arith, (tt, nat_built _ to, tt)))),
            ),
            tt,
          ),
          tt,
        ),
        (
          refl,
          (
            refl,
            (
              rule_matches
                  (addresses (back "post") (keeps _ (keeps _ (keeps _ (keeps _ (keeps _ ends))))))
                  (
                    tt,
                    omega arith,
                    (
                      tt,
                      omega arith,
                      (
                        tt,
                        omega arith,
                        (tt, omega arith, (tt, omega arith, (tt, omega arith, tt))),
                      ),
                    ),
                  ),
              tt,
            ),
            tt,
          ),
          (
            refl,
            (
              refl,
              (
                rule_matches
                    (addresses (back "forward")
                      (keeps _ (keeps _ (keeps _ (keeps _ (keeps _ ends))))))
                    (
                      tt,
                      omega arith,
                      (
                        tt,
                        omega arith,
                        (
                          tt,
                          omega arith,
                          (tt, omega arith, (tt, omega arith, (tt, omega arith, tt))),
                        ),
                      ),
                    ),
                tt,
              ),
              tt,
            ),
            (
              refl,
              (
                refl,
                (
                  rule_matches (keeps _ (keeps _ (keeps _ (keeps _ (nats to (out "output") ends)))))
                      (
                        tt,
                        omega arith,
                        (
                          tt,
                          omega arith,
                          (tt, omega arith, (tt, omega arith, (tt, nat_built _ to, tt))),
                        ),
                      ),
                  tt,
                ),
                tt,
              ),
              tt,
            ),
          ),
        ),
      )

  -- Whatever numbers the sets were given and whatever comment the rules carry, the tables that
  -- RemoveForwarding describes for a forwarding have the hooks and chains of those that AddForwarding
  -- described, and each of their rules matches, to the end, the expressions of its counterpart; for a
  -- protocol that is not supported both panic.
  pub remove-matches :
      (ids ids' : String → ℕ) (name : String) (proto : Protocol) (from : ℕ) (target : List String)
      (to : ℕ) (comment : String)
      → BothMatch
          (build_forwarding platform text ids name proto from target to "")
          (build_forwarding platform text ids' name proto from target to comment)
  unfolding BothMatch build_forwarding transport_condition
  remove-matches ids ids' name tcp from target to comment =
      tables_match ids ids' name _ from (targets platform text target) to "" comment
  remove-matches ids ids' name udp from target to comment =
      tables_match ids ids' name _ from (targets platform text target) to "" comment
  remove-matches ids ids' name (other unknown) from target to comment = tt
