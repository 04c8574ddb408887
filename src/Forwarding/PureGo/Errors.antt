-- ===== src/Forwarding/PureGo/Errors.antt =====
-- The errors that the pure Go implementation does not return.
use kertical.Prelude.{ℕ, String, Bool, ◌≢◌, inl, inr, List, Bool-cases}
use kertical.Forwarding.Types.{
  Protocol, tcp, udp, other, fails, port_already_forwarded, port_not_forwarded,
}
use kertical.Forwarding.Guard.Errors.{LeavesErrors}
use kertical.Forwarding.PureGo.{PureGo, start, add_forwarding, remove_forwarding, purego}

module _ (binds : Protocol → (from ctx : ℕ) → Bool) where
  start_ne :
      (proto : Protocol) (from : ℕ) (p : PureGo)
      → (start binds proto from p).0 ≢ fails port_already_forwarded
  unfolding start
  start_ne proto from p = elim (Bool-cases (binds proto from p.next)) [
    | inl bound ↦ rw bound (λ e. cc)
    | inr taken ↦ rw taken (λ e. cc)
  ]

  add_ne :
      (proto : Protocol) (from : ℕ) (target : List String) (to : ℕ) (comment : String) (p : PureGo)
      → (add_forwarding binds proto from target to comment p).0 ≢ fails port_already_forwarded
  unfolding add_forwarding
  add_ne tcp from target to comment p = start_ne tcp from p
  add_ne udp from target to comment p = start_ne udp from p
  add_ne (other name) from target to comment p = λ e. cc

  remove_ne :
      (proto : Protocol) (from : ℕ) (target : List String) (to : ℕ) (p : PureGo)
      → (remove_forwarding binds proto from target to p).0 ≢ fails port_not_forwarded
  unfolding remove_forwarding
  remove_ne tcp from target to p = λ e. cc
  remove_ne udp from target to p = λ e. cc
  remove_ne (other name) from target to p = λ e. cc

  pub purego_leaves : LeavesErrors (purego binds)
  purego_leaves = record { not_already = add_ne; not_missing = remove_ne }
