-- ===== src/Forwarding/Guard/Sequence.antt =====
-- Any sequence of additions and removals at a guard that has not been closed, with whatever the host's sockets are at each of them.
use kertical.Prelude.{
  ℕ, String, Bool, false, ◌&&◌, ◌||◌, not, ◌≡◌, List, [], ◌∷◌, ◌==◌, nat_Eq, SetPackage, sym, ◌∙◌,
}
use kertical.Forwarding.Types.{Protocol, protocol_Eq, Outcome, PortForwarding}
use kertical.Forwarding.Transport.{Proc}
use kertical.Forwarding.Guard.{Guard, new_guard, add_forwarding, remove_forwarding}
use kertical.Forwarding.Guard.Contract.{Contract, succeeded, listens_on, IsValid, new_guard-IsValid}
use kertical.Forwarding.Guard.Adding.{add_forwarding-IsValid}
use kertical.Forwarding.Guard.Removing.{remove_forwarding-IsValid}

-- A call of AddForwarding or of RemoveForwarding. `Close` is not among them: it closes the implementation
-- and leaves the books as they are.
pub data Call : Type 0 where
  adds :
      Proc → (proto : Protocol) (from : ℕ) (target : List String) (to : ℕ) (comment : String) → Call
  removes : (proto : Protocol) (from : ℕ) (target : List String) (to : ℕ) → Call

-- The ports after the calls, by which of them succeeded: the last success on a port decides.
abbrev pub ports_after : List (Call × Outcome) → Protocol → ℕ → Bool
ports_after [] q n = false
ports_after ((adds proc proto from target to comment, o) ∷ past) q n =
    succeeded o && (proto == q && from == n) || ports_after past q n
ports_after ((removes proto from target to, o) ∷ past) q n =
    not (succeeded o && (proto == q && from == n)) && ports_after past q n

module _ (sets : SetPackage ℕ) {U : Type 0} (impl : PortForwarding U) where
  unfoldable pub call : Call → Guard sets impl → Outcome × Guard sets impl
  call (adds proc proto from target to comment) g =
      add_forwarding sets impl proc proto from target to comment g
  call (removes proto from target to) g = remove_forwarding sets impl proto from target to g

  -- The guard after the calls, and the calls with their outcomes, the latest first.
  unfoldable pub run :
      List Call → List (Call × Outcome) → Guard sets impl → List (Call × Outcome) × Guard sets impl
  unfolding call
  run [] past g = (past, g)
  run (c ∷ cs) past g = let (o, g') = call c g in run cs ((c, o) ∷ past) g'

  module _ (contract : Contract impl) where
    call-IsValid :
        (c : Call) (past : List (Call × Outcome)) (g : Guard sets impl)
        → IsValid sets impl contract g
        → ((q : Protocol) (n : ℕ) → listens_on sets impl contract g q n ≡ ports_after past q n)
        → IsValid sets impl contract (call c g).1
          × ((q : Protocol) (n : ℕ)
              → listens_on sets impl contract (call c g).1 q n
                ≡ ports_after ((c, (call c g).0) ∷ past) q n)
    unfolding call
    call-IsValid (adds proc proto from target to comment) past g v h =
        let (valid, change, _) =
          add_forwarding-IsValid sets impl contract proc proto from target to comment g v in
        (valid, (λ q n. rw (change q n, h q n)))
    call-IsValid (removes proto from target to) past g v h =
        let (valid, change, _) =
          remove_forwarding-IsValid sets impl contract proto from target to g v in
        (valid, (λ q n. rw (change q n, h q n)))

    run-IsValid :
        (cs : List Call) (past : List (Call × Outcome)) (g : Guard sets impl)
        → IsValid sets impl contract g
        → ((q : Protocol) (n : ℕ) → listens_on sets impl contract g q n ≡ ports_after past q n)
        → IsValid sets impl contract (run cs past g).1
          × ((q : Protocol) (n : ℕ)
              → listens_on sets impl contract (run cs past g).1 q n
                ≡ ports_after (run cs past g).0 q n)
    unfolding run
    run-IsValid [] past g v h = (v, h)
    run-IsValid (c ∷ cs) past g v h =
        let (valid, agree) = call-IsValid c past g v h in
        run-IsValid cs ((c, (call c g).0) ∷ past) (call c g).1 valid agree

    -- Over an implementation that keeps the contract, which includes that it does not panic on a port of
    -- TCP or UDP: after any sequence of AddForwarding and RemoveForwarding, with no Close, the implementation
    -- forwards exactly the ports whose last successful call was an addition, and the guard's books list
    -- exactly these.
    pub run-forwards :
        (cs : List Call) (u : U)
        → contract.IsSound u
        → ((q : Protocol) (n : ℕ) → contract.forwards u q n ≡ false)
        → let r = run cs [] (new_guard sets impl u) in
          IsValid sets impl contract r.1
          × ((q : Protocol) (n : ℕ) → contract.forwards r.1.underlying q n ≡ ports_after r.0 q n)
    run-forwards cs u sound idle =
        let start = new_guard-IsValid sets impl contract u sound idle in
        let (valid, agree) =
          run-IsValid cs [] (new_guard sets impl u) start (λ q n. start.agrees q n ∙ idle q n) in
        (valid, (λ q n. sym (valid.agrees q n) ∙ agree q n))
