-- ===== src/Forwarding/Guard.antt =====
-- portforwarding.go: `guardPortForwarding`, around any implementation `U` of the interface. Every
-- method holds the mutex; `Close` does not take it, and only passes the call on.
pub mod Contract
pub mod Adding
pub mod Removing
pub mod Sequence
pub mod Errors
use kertical.Prelude.{
  ℕ, String, Bool, true, false, Option, none, some, List, [], ◌==◌, Eq, nat_Eq, SetPackage,
  if◌then◌else◌, update,
}
use kertical.Forwarding.Types.{
  Protocol, tcp, udp, other, protocol_Eq, Error, port_already_inuse, port_not_forwarded,
  port_already_forwarded, failure, Outcome, done, fails, panics, PortForwarding,
}
use kertical.Forwarding.Transport.{Answer, listening, free, failed, crashed, Proc, is_listening}

module _ (sets : SetPackage ℕ) {U : Type 0} (impl : PortForwarding U) where
  open sets use {Set, new, insert, delete, has}

  -- `listens`; a missing protocol is a nil set.
  pub record Guard : Type 0 where
    pub underlying : U
    pub listens : Protocol → Option Set

  -- `New`, once an implementation is found
  abbrev pub new_guard : U → Guard
  new_guard u = record {
    underlying = u;
    listens = update tcp (new []) (update udp (new []) (λ proto. none));
  }

  -- `Has` of a nil set is false, and `Insert` into one panics.
  abbrev pub has_port : Option Set → ℕ → Bool
  has_port none from = false
  has_port (some s) from = has from s

  -- `Insert` into the protocol's set
  record_port : Guard → Protocol → ℕ → U → Option Set → Outcome × Guard
  record_port g proto from u none = (panics, record g { underlying = u })
  record_port g proto from u (some s) =
      (done, record { underlying = u; listens = update proto (insert from s) g.listens })

  -- After the call of the underlying `AddForwarding`.
  added : Guard → Protocol → ℕ → Outcome × U → Outcome × Guard
  added g proto from (done, u) = record_port g proto from u (g.listens proto)
  added g proto from (fails e, u) = (fails e, record g { underlying = u })
  added g proto from (panics, u) = (panics, record g { underlying = u })

  add_free : Guard → Protocol → ℕ → Answer → Outcome × U → Outcome × Guard
  add_free g proto from failed called = (fails failure, g)
  add_free g proto from crashed called = (panics, g)
  add_free g proto from listening called = (fails port_already_inuse, g)
  add_free g proto from free called = added g proto from called

  unfoldable pub add_forwarding :
      Proc
      → (proto : Protocol) (from : ℕ) (target : List String) (to : ℕ) (comment : String) → Guard
      → Outcome × Guard
  unfolding add_free added record_port
  add_forwarding proc proto from target to comment g =
      if has_port (g.listens proto) from
      then (fails port_already_forwarded, g)
      else add_free g proto from (is_listening proc proto from)
          (impl.add proto from target to comment g.underlying)

  delete_port : Option Set → ℕ → Option Set
  delete_port none from = none
  delete_port (some s) from = some (delete from s)

  -- After the call of the underlying `RemoveForwarding`.
  removed : Guard → Protocol → ℕ → Outcome × U → Outcome × Guard
  removed g proto from (done, u) = (
    done,
    record {
      underlying = u;
      listens = λ p. if proto == p then delete_port (g.listens proto) from else g.listens p;
    },
  )
  removed g proto from (fails e, u) = (fails e, record g { underlying = u })
  removed g proto from (panics, u) = (panics, record g { underlying = u })

  unfoldable pub remove_forwarding :
      (proto : Protocol) (from : ℕ) (target : List String) (to : ℕ) → Guard → Outcome × Guard
  unfolding removed delete_port
  remove_forwarding proto from target to g =
      if has_port (g.listens proto) from
      then removed g proto from (impl.remove proto from target to g.underlying)
      else (fails port_not_forwarded, g)

  unfoldable pub close : Guard → Outcome × Guard
  close g = let (outcome, u) = impl.close g.underlying in (outcome, record g { underlying = u })
