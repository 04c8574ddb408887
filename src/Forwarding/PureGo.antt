-- ===== src/Forwarding/PureGo.antt =====
-- internal/portforwarding/purego: forwarding by goroutines of the process. A forwarding is the number
-- of the context that its goroutines are started with, and the model is of the contexts only: what the
-- goroutines do is not modelled, neither that they end with an error of Accept or of reading, nor the
-- sessions of UDP, which are served with a context of their own. `binds` is whether `net.Listen` succeeds for the n-th context on a port.
pub mod Sound
pub mod Errors
mod Tests
use kertical.Prelude.{
  ℕ, ◌+◌, String, Bool, true, false, not, ◌&&◌, Option, none, some, List, ◌==◌, nat_Eq,
  if◌then◌else◌,
}
use kertical.Forwarding.Types.{
  Protocol, tcp, udp, other, protocol_Eq, failure, Outcome, done, fails, panics, PortForwarding,
}

-- `forwards` holds the two cancel functions of each port, by the contexts that they cancel.
pub record PureGo : Type 0 where
  pub next : ℕ
  pub forwards : Protocol → ℕ → Option ℕ
  pub cancelled : ℕ → Bool
  pub closed : Bool

-- `New`
abbrev pub new_purego : PureGo
new_purego = record {
  next = 0;
  forwards = λ proto from. none;
  cancelled = λ ctx. false;
  closed = false;
}

abbrev store : Protocol → ℕ → ℕ → (Protocol → ℕ → Option ℕ) → Protocol → ℕ → Option ℕ
store proto from ctx forwards q n = if proto == q && from == n then some ctx else forwards q n

abbrev cancel : ℕ → (ℕ → Bool) → ℕ → Bool
cancel ctx cancelled t = if ctx == t then true else cancelled t

module _ (binds : Protocol → (from ctx : ℕ) → Bool) where
  -- The two cases that are not the panic; the context is made first.
  start : Protocol → ℕ → PureGo → Outcome × PureGo
  start proto from p =
      if binds proto from p.next
      then (done, record p { next = p.next + 1; forwards = store proto from p.next p.forwards })
      else (fails failure, record p { next = p.next + 1; cancelled = cancel p.next p.cancelled })

  unfoldable pub add_forwarding :
      (proto : Protocol) (from : ℕ) (target : List String) (to : ℕ) (comment : String)
      → PureGo
      → Outcome × PureGo
  unfolding start
  add_forwarding tcp from target to comment p = start tcp from p
  add_forwarding udp from target to comment p = start udp from p
  add_forwarding (other name) from target to comment p = (panics, record p { next = p.next + 1 })

  -- A nil cancel function is not called.
  stop : Option ℕ → PureGo → PureGo
  stop none p = p
  stop (some ctx) p = record p { cancelled = cancel ctx p.cancelled }

  unfoldable pub remove_forwarding :
      (proto : Protocol) (from : ℕ) (target : List String) (to : ℕ) → PureGo → Outcome × PureGo
  unfolding stop
  remove_forwarding tcp from target to p = (done, stop (p.forwards tcp from) p)
  remove_forwarding udp from target to p = (done, stop (p.forwards udp from) p)
  remove_forwarding (other name) from target to p = (panics, p)

  -- The parent context is cancelled, and with it every other.
  unfoldable pub close : PureGo → Outcome × PureGo
  close p = (done, record p { closed = true })

  abbrev pub purego : PortForwarding PureGo
  purego = record { add = add_forwarding; remove = remove_forwarding; close = close }
