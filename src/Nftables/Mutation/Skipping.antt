-- ===== src/Nftables/Mutation/Skipping.antt =====
-- The loop of `CleanUp` over a slice that its own deletions shift.
use native.Mathlib.Omega.{arith}
use kertical.Prelude.{
  ℕ, suc, String, Bool, true, false, some, List, [], ◌∷◌, ◌++◌, ◌≡◌, ◌∙◌, refl, get_elem?, nat_Eq,
  ◌+◌,
}
use kertical.Nftables.Expr.{Platform}
use kertical.Nftables.Condition.{Condition}
use kertical.Nftables.Tables.{Rule, Priorities, Command, del_rule}
use kertical.Nftables.ReadWrite.{
  ReadWriter, ok, and_then, delete_rule, delete_at, index_of, send, with_open_conn,
}
use kertical.Nftables.Mutation.{RuleMutation, clean_up_rule, sweep, wanted}

module _ (platform : Platform) (library : Priorities) (opens : Bool) (accepts : Command → Bool)
    (table chain : String) (rule : RuleMutation) where
  sweep-next :
      (expr : Condition) (n i : ℕ) (s : ReadWriter) (r : Rule)
      → get_elem? s.rules.array i ≡ some r
      → wanted platform table chain expr s.family r ≡ some false
      → sweep platform library opens accepts table chain expr (suc n) i s
        ≡ sweep platform library opens accepts table chain expr n (i + 1) s
  unfolding sweep
  sweep-next expr n i s r e w = rw (e, sweep) (rw (w, sweep) refl)

  sweep-delete :
      (expr : Condition) (n i : ℕ) (s s' : ReadWriter) (r : Rule)
      → get_elem? s.rules.array i ≡ some r
      → wanted platform table chain expr s.family r ≡ some true
      → delete_rule library opens accepts table chain r.handle s ≡ ok s'
      → sweep platform library opens accepts table chain expr (suc n) i s
        ≡ sweep platform library opens accepts table chain expr n (i + 1) s'
  unfolding sweep and_then
  sweep-delete expr n i s s' r e w d = rw (e, sweep) (rw (w, sweep) (rw (d, sweep) refl))

  -- The first rule of the slice has the handle.
  delete_first :
      (s : ReadWriter) (batch : List Command) (first : Rule) (rest : List Rule) (n : ℕ)
      → accepts (del_rule table chain first.handle) ≡ true
      → delete_rule library opens accepts table chain first.handle
          (record s { rules = record { array = first ∷ rest; len = suc n }; conn = some batch })
        ≡ ok (record s {
          rules = delete_at 0 (record { array = first ∷ rest; len = suc n });
          conn = some (batch ++ (del_rule table chain first.handle ∷ []));
        })
  unfolding delete_rule index_of send with_open_conn
  delete_first s batch first rest n a = ground (arith, a)

  -- When the rules that the reader holds are exactly three, of which the first two match and the third does
  -- not, CleanUp deletes the first one only, and the second is still there.
  pub clean_up_rule-skips :
      (s : ReadWriter) (batch : List Command) (first second last : Rule)
      → wanted platform table chain rule.expr s.family first ≡ some true
      → wanted platform table chain rule.expr s.family second ≡ some true
      → wanted platform table chain rule.expr s.family last ≡ some false
      → accepts (del_rule table chain first.handle) ≡ true
      → clean_up_rule platform library opens accepts table chain rule (record s {
        rules = record { array = first ∷ second ∷ last ∷ []; len = 3 };
        conn = some batch;
      })
        ≡ ok (record s {
          rules = record { array = second ∷ last ∷ last ∷ []; len = 2 };
          conn = some (batch ++ (del_rule table chain first.handle ∷ []));
        })
  unfolding clean_up_rule sweep delete_at
  clean_up_rule-skips s batch first second last p q r a =
      let before : ReadWriter = record s {
        rules = record { array = first ∷ second ∷ last ∷ []; len = 3 };
        conn = some batch;
      } in
      let after : ReadWriter = record s {
        rules = record { array = second ∷ last ∷ last ∷ []; len = 2 };
        conn = some (batch ++ (del_rule table chain first.handle ∷ []));
      } in
      sweep-delete rule.expr 2 0 before after first refl p
        (delete_first s batch first (second ∷ last ∷ []) 2 a)
      ∙ (sweep-next rule.expr 1 1 after last refl r ∙ sweep-next rule.expr 0 2 after last refl r)
