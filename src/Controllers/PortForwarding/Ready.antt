-- ===== src/Controllers/PortForwarding/Ready.antt =====
-- The two loops that forward ports: what a state `Ready` of theirs means.
use kertical.Prelude.{
  ℕ, String, Bool, true, false, ◌&&◌, ◌||◌, ◌≡◌, ◌∙◌, ◌⊎◌, refl, List, [], ◌∷◌, ◌++◌, ◌==◌, nat_Eq,
  ltb, Bool-cases, inl, inr, All, arith, ==_refl,
}
use kertical.Forwarding.Types.{
  Protocol, protocol_Eq, port_already_inuse, port_not_forwarded, port_already_forwarded, failure,
  Outcome, done, fails, panics, PortForwarding,
}
use kertical.Forwarding.Guard.Contract.{succeeded}
use kertical.Controllers.Ports.{State, ready, ForwardedPort}
use kertical.Controllers.Forwarder.{Tracked}
use kertical.Controllers.PortForwarding.{
  Visited, visited, stopped, panicked, visit, and_visit, prepend, int_value, uint16, ensured, added,
  ensure_port, add_port,
}

abbrev pub is_ready : State → Bool
is_ready ready = true
is_ready _ = false

module _ (atoi : String → ℕ) {U : Type 0} (impl : PortForwarding U) (tracked : Tracked impl) where
  open tracked use {IsSound, forwards, add_keeps, add_known}

  abbrev pub port_of : ForwardedPort → ℕ
  port_of f = uint16 (int_value atoi f.source_port)

  -- Ready only if forwarded
  abbrev pub IsTrue : U → ForwardedPort → Type 0
  IsTrue u f = (is_ready f.state ≡ false) ⊎ (forwards u f.protocol (port_of f) ≡ true)

  -- Each port that the loop reports is true at its end; all that was forwarded still is.
  abbrev pub Reports : U → Visited U → Type 0
  Reports before (visited ports u) =
      IsSound u
      × ((q : Protocol) (n : ℕ) → forwards before q n ≡ true → forwards u q n ≡ true)
      × All (IsTrue u) ports
  Reports before (stopped u) = ⊥
  Reports before panicked = Unit

  -- What a call of AddForwarding for the port has done.
  abbrev Called : U → ForwardedPort → Outcome → U → Type 0
  Called u f o u' =
      IsSound u'
      × ((q : Protocol) (n : ℕ)
          → forwards u' q n
            ≡ (succeeded o && (f.protocol == q && port_of f == n) || forwards u q n))
      × (o ≡ fails port_already_forwarded → forwards u f.protocol (port_of f) ≡ true)

  called :
      (f : ForwardedPort) (comment : String) (u : U)
      → IsSound u
      → let r = impl.add f.protocol (port_of f) f.target_hosts (uint16 f.target_port) comment u in
        Called u f r.0 r.1
  called f comment u sound =
      let (after, change) =
        add_keeps f.protocol (port_of f) f.target_hosts (uint16 f.target_port) comment u sound in
      (
        after,
        change,
        add_known f.protocol (port_of f) f.target_hosts (uint16 f.target_port) comment u,
      )

  forwards_now :
      (f : ForwardedPort) (u u' : U)
      → Called u f done u'
      → forwards u' f.protocol (port_of f) ≡ true
  forwards_now f u u' (sound, change, known) =
      ground (arith, change f.protocol (port_of f), ==_refl f.protocol, ==_refl (port_of f))

  ensured-Reports :
      (f : ForwardedPort) (u u' : U) (o : Outcome) → Called u f o u' → Reports u (ensured f (o, u'))
  unfolding ensured
  ensured-Reports f u u' done c =
      (c.0, (λ q n e. ground (arith, c.1 q n, e)), (inr (forwards_now f u u' c), tt))
  ensured-Reports f u u' (fails port_already_forwarded) c =
      (c.0, (λ q n e. c.1 q n ∙ e), (inr (c.1 f.protocol (port_of f) ∙ c.2 refl), tt))
  ensured-Reports f u u' (fails port_already_inuse) c =
      (c.0, (λ q n e. c.1 q n ∙ e), (inl refl, tt))
  ensured-Reports f u u' (fails port_not_forwarded) c =
      (c.0, (λ q n e. c.1 q n ∙ e), (inl refl, tt))
  ensured-Reports f u u' (fails failure) c = (c.0, (λ q n e. c.1 q n ∙ e), (inl refl, tt))
  ensured-Reports f u u' panics c = tt

  added-Reports :
      (f : ForwardedPort) (u u' : U) (o : Outcome) → Called u f o u' → Reports u (added f (o, u'))
  unfolding added
  added-Reports f u u' done c =
      (c.0, (λ q n e. ground (arith, c.1 q n, e)), (inr (forwards_now f u u' c), tt))
  added-Reports f u u' (fails port_already_forwarded) c =
      (c.0, (λ q n e. c.1 q n ∙ e), (inl refl, tt))
  added-Reports f u u' (fails port_already_inuse) c = (c.0, (λ q n e. c.1 q n ∙ e), (inl refl, tt))
  added-Reports f u u' (fails port_not_forwarded) c = (c.0, (λ q n e. c.1 q n ∙ e), (inl refl, tt))
  added-Reports f u u' (fails failure) c = (c.0, (λ q n e. c.1 q n ∙ e), (inl refl, tt))
  added-Reports f u u' panics c = tt

  port_ensured :
      (comment : String) (f : ForwardedPort) (u : U)
      → IsSound u
      → Reports u (ensure_port atoi impl comment f u)
  unfolding ensure_port
  port_ensured comment f u sound = elim (Bool-cases (ltb 0 (port_of f))) [
    | inl positive ↦ rw positive (ensured-Reports f u _ _ (called f comment u sound))
    | inr zero ↦ rw zero (sound, (λ q n e. e), (inl refl, tt))
  ]

  port_added :
      (comment : String) (f : ForwardedPort) (u : U)
      → IsSound u
      → Reports u (add_port atoi impl comment f u)
  unfolding add_port
  port_added comment f u sound = added-Reports f u _ _ (called f comment u sound)

  keep_true :
      (u u' : U) (fs : List ForwardedPort)
      → ((q : Protocol) (n : ℕ) → forwards u q n ≡ true → forwards u' q n ≡ true)
      → All (IsTrue u) fs
      → All (IsTrue u') fs
  keep_true u u' [] more all = tt
  keep_true u u' (f ∷ fs) more (inl other, all) = (inl other, keep_true u u' fs more all)
  keep_true u u' (f ∷ fs) more (inr now, all) =
      (inr (more f.protocol (port_of f) now), keep_true u u' fs more all)

  IsTrue-append :
      (u : U) (fs gs : List ForwardedPort)
      → All (IsTrue u) fs
      → All (IsTrue u) gs
      → All (IsTrue u) (fs ++ gs)
  IsTrue-append u [] gs a b = b
  IsTrue-append u (f ∷ fs) gs (t, a) b = (t, IsTrue-append u fs gs a b)

  prepend-Reports :
      (u u' : U) (ports : List ForwardedPort) (w : Visited U)
      → ((q : Protocol) (n : ℕ) → forwards u q n ≡ true → forwards u' q n ≡ true)
      → All (IsTrue u') ports
      → Reports u' w
      → Reports u (prepend ports w)
  unfolding prepend
  prepend-Reports u u' ports (visited rest u'') more all (sound, later, trues) = (
    sound,
    (λ q n e. later q n (more q n e)),
    IsTrue-append u'' ports rest (keep_true u' u'' ports later all) trues,
  )
  prepend-Reports u u' ports (stopped u'') more all r = r
  prepend-Reports u u' ports panicked more all r = tt

  and_Reports :
      (u : U) (v : Visited U) (next : U → Visited U)
      → Reports u v
      → ((u' : U) → IsSound u' → Reports u' (next u'))
      → Reports u (and_visit v next)
  unfolding and_visit
  and_Reports u (visited ports u') next (sound, more, all) later =
      prepend-Reports u u' ports (next u') more all (later u' sound)
  and_Reports u (stopped u') next r later = r
  and_Reports u panicked next r later = tt

  visit-Reports :
      (body : ForwardedPort → U → Visited U)
      → ((f : ForwardedPort) (u : U) → IsSound u → Reports u (body f u))
      → (fs : List ForwardedPort) (u : U) → IsSound u
      → Reports u (visit body fs u)
  unfolding visit
  visit-Reports body one [] u sound = (sound, (λ q n e. e), tt)
  visit-Reports body one (f ∷ fs) u sound =
      and_Reports u (body f u) (visit body fs) (one f u sound) (visit-Reports body one fs)

  -- Over a sound forwarder, the loop over the unchanged ports and the loop over the additions report a
  -- port as Ready only if it is forwarded when the loop ends, neither stops on an error, and each
  -- leaves every port forwarded that was forwarded before.
  pub sync_loops-Reports :
      (comment : String) (fs : List ForwardedPort) (u : U)
      → IsSound u
      → Reports u (visit (ensure_port atoi impl comment) fs u)
        × Reports u (visit (add_port atoi impl comment) fs u)
  sync_loops-Reports comment fs u sound = (
    visit-Reports (ensure_port atoi impl comment) (port_ensured comment) fs u sound,
    visit-Reports (add_port atoi impl comment) (port_added comment) fs u sound,
  )
