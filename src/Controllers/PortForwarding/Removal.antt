-- ===== src/Controllers/PortForwarding/Removal.antt =====
-- `removePortForwarding`: what the forwarder forwards after it.
use kertical.Prelude.{
  ℕ, String, false, not, ◌&&◌, ◌≡◌, ◌∙◌, ◌⊎◌, refl, Option, List, [], ◌∷◌, ◌==◌, nat_Eq, ltb,
  Bool-cases, inl, inr, All, arith, ==_refl,
}
use kertical.Forwarding.Types.{
  Protocol, protocol_Eq, port_already_inuse, port_not_forwarded, port_already_forwarded, failure,
  Outcome, done, fails, panics, PortForwarding,
}
use kertical.Forwarding.Guard.Contract.{succeeded}
use kertical.Controllers.Ports.{State, ForwardedPort}
use kertical.Controllers.Forwarder.{Tracked}
use kertical.Controllers.PortForwarding.{
  Visited, visited, stopped, panicked, visit, and_visit, prepend, int_value, uint16, removed,
  remove_port,
}

module _ (atoi : String → ℕ) {U : Type 0} (impl : PortForwarding U) (tracked : Tracked impl) where
  open tracked use {IsSound, forwards, remove_keeps, remove_known}

  -- The port that the forwarder knows, and whether it forwards it.
  abbrev pub port_of : ForwardedPort → ℕ
  port_of f = uint16 (int_value atoi f.source_port)

  abbrev pub IsCleared : U → ForwardedPort → Type 0
  IsCleared u f = (port_of f ≡ 0) ⊎ (forwards u f.protocol (port_of f) ≡ false)

  -- No port of the list is forwarded any more, and no other has come.
  abbrev pub Clears : U → List ForwardedPort → Visited U → Type 0
  Clears before fs (visited ports u) =
      IsSound u
      × ((q : Protocol) (n : ℕ) → forwards before q n ≡ false → forwards u q n ≡ false)
      × All (IsCleared u) fs
  Clears before fs (stopped u) = IsSound u
  Clears before fs panicked = Unit

  removed-Clears :
      (reason : Option State) (f : ForwardedPort) (u : U) (o : Outcome) (u' : U)
      → IsSound u'
      → ((q : Protocol) (n : ℕ)
          → forwards u' q n
            ≡ (not (succeeded o && (f.protocol == q && port_of f == n)) && forwards u q n))
      → (o ≡ fails port_not_forwarded → forwards u f.protocol (port_of f) ≡ false)
      → Clears u (f ∷ []) (removed reason f (o, u'))
  unfolding removed
  removed-Clears reason f u done u' sound change known = (
    sound,
    (λ q n e. ground (arith, change q n, e)),
    (
      inr (ground (arith, change f.protocol (port_of f), ==_refl f.protocol, ==_refl (port_of f))),
      tt,
    ),
  )
  removed-Clears reason f u (fails port_not_forwarded) u' sound change known =
      (sound, (λ q n e. change q n ∙ e), (inr (change f.protocol (port_of f) ∙ known refl), tt))
  removed-Clears reason f u (fails port_already_inuse) u' sound change known = sound
  removed-Clears reason f u (fails port_already_forwarded) u' sound change known = sound
  removed-Clears reason f u (fails failure) u' sound change known = sound
  removed-Clears reason f u panics u' sound change known = tt

  port-Clears :
      (reason : Option State) (f : ForwardedPort) (u : U)
      → IsSound u
      → Clears u (f ∷ []) (remove_port atoi impl reason f u)
  unfolding remove_port
  port-Clears reason f u sound = elim (Bool-cases (ltb 0 (port_of f))) [
    | inl positive ↦ rw positive (
        let (after, change) =
          remove_keeps f.protocol (port_of f) f.target_hosts (uint16 f.target_port) u sound in
        removed-Clears reason f u _ _ after change
          (remove_known f.protocol (port_of f) f.target_hosts (uint16 f.target_port) u))
    | inr zero ↦ rw zero (sound, (λ q n e. e), (inl (ground (arith, zero)), tt))
  ]

  keep-IsCleared :
      (u u' : U) (f : ForwardedPort)
      → ((q : Protocol) (n : ℕ) → forwards u q n ≡ false → forwards u' q n ≡ false)
      → IsCleared u f
      → IsCleared u' f
  keep-IsCleared u u' f less (inl zero) = inl zero
  keep-IsCleared u u' f less (inr gone) = inr (less f.protocol (port_of f) gone)

  prepend-Clears :
      (u u' : U) (f : ForwardedPort) (fs ports : List ForwardedPort) (w : Visited U)
      → ((q : Protocol) (n : ℕ) → forwards u q n ≡ false → forwards u' q n ≡ false)
      → IsCleared u' f
      → Clears u' fs w
      → Clears u (f ∷ fs) (prepend ports w)
  unfolding prepend
  prepend-Clears u u' f fs ports (visited rest u'') less cleared (sound, later, all) =
      (sound, (λ q n e. later q n (less q n e)), (keep-IsCleared u' u'' f later cleared, all))
  prepend-Clears u u' f fs ports (stopped u'') less cleared sound = sound
  prepend-Clears u u' f fs ports panicked less cleared sound = tt

  and_Clears :
      (u : U) (f : ForwardedPort) (fs : List ForwardedPort) (v : Visited U) (next : U → Visited U)
      → Clears u (f ∷ []) v
      → ((u' : U) → IsSound u' → Clears u' fs (next u'))
      → Clears u (f ∷ fs) (and_visit v next)
  unfolding and_visit
  and_Clears u f fs (visited ports u') next (sound, less, (cleared, _)) later =
      prepend-Clears u u' f fs ports (next u') less cleared (later u' sound)
  and_Clears u f fs (stopped u') next sound later = sound
  and_Clears u f fs panicked next sound later = tt

  -- When the loop of removePortForwarding comes to its end, the forwarder forwards none of the ports that
  -- it went over, whatever state was recorded for them, and no port that it did not forward before;
  -- a port of number 0 is passed over. The state of the forwarder stays sound, also on an error.
  pub remove_ports-Clears :
      (reason : Option State) (fs : List ForwardedPort) (u : U)
      → IsSound u
      → Clears u fs (visit (remove_port atoi impl reason) fs u)
  unfolding visit
  remove_ports-Clears reason [] u sound = (sound, (λ q n e. e), tt)
  remove_ports-Clears reason (f ∷ fs) u sound =
      and_Clears u f fs (remove_port atoi impl reason f u) (visit (remove_port atoi impl reason) fs)
        (port-Clears reason f u sound) (remove_ports-Clears reason fs)
