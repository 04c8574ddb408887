-- ===== src/Forwarding/Guard/Errors.antt =====
-- The two errors by which the guard says what it knows of a port.
use kertical.Prelude.{
  nat_Eq, ℕ, String, true, false, ◌≡◌, ◌≢◌, Option, none, some, List, SetPackage, arith, Bool-cases,
  inl, inr,
}
use kertical.Forwarding.Types.{
  Protocol, Outcome, done, fails, panics, PortForwarding, port_already_forwarded,
  port_not_forwarded,
}
use kertical.Forwarding.Transport.{Answer, listening, free, failed, crashed, Proc, is_listening}
use kertical.Forwarding.Guard.{
  Guard, has_port, add_forwarding, remove_forwarding, added, removed, add_free, record_port,
}

-- An implementation leaves these two errors to the guard.
pub record LeavesErrors {U : Type 0} (impl : PortForwarding U) : Type 0 where
  pub not_already :
      (proto : Protocol) (from : ℕ) (target : List String) (to : ℕ) (comment : String) (u : U)
      → (impl.add proto from target to comment u).0 ≢ fails port_already_forwarded
  pub not_missing :
      (proto : Protocol) (from : ℕ) (target : List String) (to : ℕ) (u : U)
      → (impl.remove proto from target to u).0 ≢ fails port_not_forwarded

module _ (sets : SetPackage ℕ) {U : Type 0} (impl : PortForwarding U)
    (leaves : LeavesErrors impl) where
  open sets use {Set}

  record_port_ne :
      (g : Guard sets impl) (proto : Protocol) (from : ℕ) (u : U) (o : Option Set)
      → (record_port sets impl g proto from u o).0 ≢ fails port_already_forwarded
  unfolding record_port
  record_port_ne g proto from u none = λ e. cc
  record_port_ne g proto from u (some s) = λ e. cc

  added_ne :
      (g : Guard sets impl) (proto : Protocol) (from : ℕ) (r : Outcome × U)
      → r.0 ≢ fails port_already_forwarded
      → (added sets impl g proto from r).0 ≢ fails port_already_forwarded
  unfolding added
  added_ne g proto from (done, u) h = record_port_ne g proto from u (g.listens proto)
  added_ne g proto from (fails x, u) h = h
  added_ne g proto from (panics, u) h = h

  add_free_ne :
      (g : Guard sets impl) (proto : Protocol) (from : ℕ) (a : Answer) (r : Outcome × U)
      → r.0 ≢ fails port_already_forwarded
      → (add_free sets impl g proto from a r).0 ≢ fails port_already_forwarded
  unfolding add_free
  add_free_ne g proto from failed r h = λ e. cc
  add_free_ne g proto from crashed r h = λ e. cc
  add_free_ne g proto from listening r h = λ e. cc
  add_free_ne g proto from free r h = added_ne g proto from r h

  removed_ne :
      (g : Guard sets impl) (proto : Protocol) (from : ℕ) (r : Outcome × U)
      → r.0 ≢ fails port_not_forwarded
      → (removed sets impl g proto from r).0 ≢ fails port_not_forwarded
  unfolding removed
  removed_ne g proto from (done, u) h = λ e. cc
  removed_ne g proto from (fails x, u) h = h
  removed_ne g proto from (panics, u) h = h

  pub guard_already :
      (proc : Proc) (proto : Protocol) (from : ℕ) (target : List String) (to : ℕ) (comment : String)
      (g : Guard sets impl)
      → (add_forwarding sets impl proc proto from target to comment g).0
        ≡ fails port_already_forwarded
      → has_port sets impl (g.listens proto) from ≡ true
  unfolding add_forwarding
  guard_already proc proto from target to comment g e =
      elim (Bool-cases (has_port sets impl (g.listens proto) from)) [
        | inl old ↦ old
        | inr new ↦ absurd (
            add_free_ne g proto from (is_listening proc proto from)
              (impl.add proto from target to comment g.underlying)
              (leaves.not_already proto from target to comment g.underlying)
              (ground (arith, e, new)))
      ]

  pub guard_missing :
      (proto : Protocol) (from : ℕ) (target : List String) (to : ℕ) (g : Guard sets impl)
      → (remove_forwarding sets impl proto from target to g).0 ≡ fails port_not_forwarded
      → has_port sets impl (g.listens proto) from ≡ false
  unfolding remove_forwarding
  guard_missing proto from target to g e =
      elim (Bool-cases (has_port sets impl (g.listens proto) from)) [
        | inl old ↦ absurd (
            removed_ne g proto from (impl.remove proto from target to g.underlying)
              (leaves.not_missing proto from target to g.underlying) (ground (arith, e, old)))
        | inr new ↦ new
      ]
