-- ===== src/Forwarding/Guard/Contract.antt =====
-- What the guard relies on in an implementation, and what it gives. The pure Go implementation keeps the
-- contract; that of nftables, whose matching of rules may panic, is not shown to. An implementation is only ever
-- asked to add a port that it does not forward, and to remove one that it does.
use kertical.Prelude.{
  ℕ, String, Bool, true, false, not, ◌&&◌, ◌||◌, ◌≡◌, ◌≢◌, refl, sym, ap, ◌∙◌, none, List, [], ◌==◌,
  nat_Eq, SetPackage, arith,
}
use kertical.Forwarding.Types.{
  Protocol, tcp, udp, other, protocol_Eq, Outcome, done, fails, panics, PortForwarding,
}
use kertical.Forwarding.Guard.{Guard, new_guard, has_port}

-- The two protocols that an implementation has to know.
abbrev pub Supported : Protocol → Type 0
Supported tcp = Unit
Supported udp = Unit
Supported (other s) = ⊥

-- The ports that a state of the implementation forwards.
abbrev pub Ports : Type 0
Ports = Protocol → ℕ → Bool

-- What a call may do: on success the set of ports changes as asked, on an error it stays, and it
-- does not panic.
abbrev pub AddPost : Ports → Protocol → ℕ → Outcome → Ports → Type 0
AddPost before proto from done after =
    (q : Protocol) (n : ℕ) → after q n ≡ (proto == q && from == n || before q n)
AddPost before proto from (fails e) after = (q : Protocol) (n : ℕ) → after q n ≡ before q n
AddPost before proto from panics after = ⊥

abbrev pub RemovePost : Ports → Protocol → ℕ → Outcome → Ports → Type 0
RemovePost before proto from done after =
    (q : Protocol) (n : ℕ) → after q n ≡ (not (proto == q && from == n) && before q n)
RemovePost before proto from (fails e) after = (q : Protocol) (n : ℕ) → after q n ≡ before q n
RemovePost before proto from panics after = ⊥

-- The contract, with its preconditions.
pub record Contract {U : Type 0} (impl : PortForwarding U) : Type 1 where
  pub IsSound : U → Type 0
  pub forwards : U → Ports
  pub add_sound :
      (proto : Protocol) (from : ℕ) (target : List String) (to : ℕ) (comment : String) (u : U)
      → Supported proto
      → IsSound u
      → forwards u proto from ≡ false
      → IsSound (impl.add proto from target to comment u).1
        × AddPost
            (forwards u)
            proto
            from
            (impl.add proto from target to comment u).0
            (forwards (impl.add proto from target to comment u).1)
  pub remove_sound :
      (proto : Protocol) (from : ℕ) (target : List String) (to : ℕ) (u : U)
      → Supported proto
      → IsSound u
      → forwards u proto from ≡ true
      → IsSound (impl.remove proto from target to u).1
        × RemovePost
            (forwards u)
            proto
            from
            (impl.remove proto from target to u).0
            (forwards (impl.remove proto from target to u).1)

-- A method changes the guard's ports exactly when it succeeds.
abbrev pub succeeded : Outcome → Bool
succeeded done = true
succeeded (fails e) = false
succeeded panics = false

module _ (sets : SetPackage ℕ) {U : Type 0} (impl : PortForwarding U)
    (contract : Contract impl) where
  open sets use {Set, new, has, has-new, has-insert, has-delete}
  open contract use {IsSound, forwards, add_sound, remove_sound}

  abbrev pub listens_on : Guard sets impl → Ports
  listens_on g proto from = has_port sets impl (g.listens proto) from

  -- The guard's books are the implementation's ports, and each supported protocol has a set.
  pub record IsValid (g : Guard sets impl) : Type 0 where
    pub sound : IsSound g.underlying
    pub agrees : (q : Protocol) (n : ℕ) → listens_on g q n ≡ forwards g.underlying q n
    pub has_set : (q : Protocol) → Supported q → g.listens q ≢ none
    pub no_set : (name : String) → g.listens (other name) ≡ none

  pub Supported-ne :
      (proto : Protocol) (name : String) → Supported proto → (proto == other name) ≡ false
  Supported-ne tcp name known = refl
  Supported-ne udp name known = refl
  Supported-ne (other x) name known = absurd known

  -- A port that the books list has a supported protocol.
  pub listed-Supported :
      (g : Guard sets impl) (proto : Protocol) (from : ℕ)
      → IsValid g
      → listens_on g proto from ≡ true
      → Supported proto
  listed-Supported g tcp from v h = tt
  listed-Supported g udp from v h = tt
  listed-Supported g (other name) from v h =
      absurd (ground (arith, ap (λ o. has_port sets impl o from) (v.no_set name)))

  -- A guard over a sound implementation that forwards nothing.
  pub new_guard-IsValid :
      (u : U)
      → IsSound u
      → ((q : Protocol) (n : ℕ) → forwards u q n ≡ false)
      → IsValid (new_guard sets impl u)
  new_guard-IsValid u sound idle = record {
    sound = sound;
    agrees = λ q n. starts q n ∙ sym (idle q n);
    has_set = given;
    no_set = λ name. refl;
  }
    where
      starts : (q : Protocol) (n : ℕ) → listens_on (new_guard sets impl u) q n ≡ false
      starts tcp n = has-new n []
      starts udp n = has-new n []
      starts (other name) n = refl

      given : (q : Protocol) → Supported q → (new_guard sets impl u).listens q ≢ none
      given tcp known = λ e. cc
      given udp known = λ e. cc
      given (other name) known = absurd known
