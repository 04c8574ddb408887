-- ===== src/Forwarding/Guard/Removing.antt =====
-- `RemoveForwarding` of the guard over an implementation that keeps the contract.
use kertical.Prelude.{
  ℕ, String, not, ◌&&◌, ◌≡◌, ◌≢◌, refl, sym, ◌∙◌, Option, none, some, List, ◌==◌, nat_Eq,
  SetPackage, arith, if◌then◌else◌, Bool-cases, inl, inr,
}
use kertical.Forwarding.Types.{
  Protocol, protocol_Eq, protocol_eq_iff, Outcome, done, fails, panics, PortForwarding,
}
use kertical.Forwarding.Guard.{Guard, has_port, remove_forwarding, removed, delete_port}
use kertical.Forwarding.Guard.Contract.{
  Supported, Ports, RemovePost, Contract, succeeded, listens_on, IsValid, Supported-ne,
  listed-Supported,
}

module _ (sets : SetPackage ℕ) {U : Type 0} (impl : PortForwarding U)
    (contract : Contract impl) where
  open sets use {Set, new, has, has-new, has-insert, has-delete}
  open contract use {IsSound, forwards, add_sound, remove_sound}

  delete_port_lem :
      (o : Option Set) (from n : ℕ)
      → has_port sets impl (delete_port sets impl o from) n
        ≡ (not (from == n) && has_port sets impl o n)
  unfolding delete_port
  delete_port_lem none from n = ground arith
  delete_port_lem (some s) from n = ground (arith, has-delete from n s)

  delete_port-none : (o : Option Set) (from : ℕ) → delete_port sets impl o from ≡ none → o ≡ none
  unfolding delete_port
  delete_port-none none from h = refl
  delete_port-none (some s) from h = cc

  removed_lem :
      (g : Guard sets impl) (proto : Protocol) (from : ℕ) (r : Outcome × U)
      → IsValid sets impl contract g
      → Supported proto
      → IsSound r.1
      → RemovePost (forwards g.underlying) proto from r.0 (forwards r.1)
      → IsValid sets impl contract (removed sets impl g proto from r).1
        × RemovePost
            (listens_on sets impl contract g)
            proto
            from
            (removed sets impl g proto from r).0
            (listens_on sets impl contract (removed sets impl g proto from r).1)
  unfolding removed
  removed_lem g proto from (done, u) v s sound post = (
    record {
      sound = sound;
      agrees = λ q n. ground (arith, shrinks q n, post q n, v.agrees q n);
      has_set = λ q known missing. v.has_set q known (still q missing);
      no_set = λ name. rw (Supported-ne sets impl contract proto name s) (v.no_set name);
    },
    shrinks,
  )
    where
      shrinks :
          (q : Protocol) (n : ℕ)
          → has_port sets impl
              (if proto == q then delete_port sets impl (g.listens proto) from else g.listens q)
              n
            ≡ (not (proto == q && from == n) && listens_on sets impl contract g q n)
      shrinks q n =
          ground (arith, protocol_eq_iff proto q, delete_port_lem (g.listens proto) from n)

      still :
          (q : Protocol)
          → (if proto == q then delete_port sets impl (g.listens proto) from else g.listens q)
            ≡ none
          → g.listens q ≡ none
      still q missing =
          ground (arith, protocol_eq_iff proto q, delete_port-none (g.listens proto) from)
  removed_lem g proto from (fails e, u) v s sound post = (
    record {
      sound = sound;
      agrees = λ q n. v.agrees q n ∙ sym (post q n);
      has_set = v.has_set;
      no_set = v.no_set;
    },
    (λ q n. refl),
  )
  removed_lem g proto from (panics, u) v s sound post = absurd post

  removed_of_post :
      (o : Outcome) (before after : Ports) (proto : Protocol) (from : ℕ)
      → RemovePost before proto from o after
      → ((q : Protocol) (n : ℕ)
          → after q n ≡ (not (succeeded o && (proto == q && from == n)) && before q n))
        × (o ≢ panics)
  removed_of_post done before after proto from post = (post, (λ e. cc))
  removed_of_post (fails x) before after proto from post = (post, (λ e. cc))
  removed_of_post panics before after proto from post = absurd post

  -- Over an implementation that keeps the contract, and so does not panic on a port of TCP or UDP:
  -- RemoveForwarding keeps the books equal to the implementation's ports on every outcome, takes off its port
  -- exactly when it succeeds, and does not panic either, with whatever protocol it is called.
  pub remove_forwarding-IsValid :
      (proto : Protocol) (from : ℕ) (target : List String) (to : ℕ) (g : Guard sets impl)
      → IsValid sets impl contract g
      → let r = remove_forwarding sets impl proto from target to g in
        IsValid sets impl contract r.1
        × ((q : Protocol) (n : ℕ)
            → listens_on sets impl contract r.1 q n ≡ (
                not (succeeded r.0 && (proto == q && from == n))
                && listens_on sets impl contract g q n))
        × (r.0 ≢ panics)
  unfolding remove_forwarding
  remove_forwarding-IsValid proto from target to g v =
      elim (Bool-cases (listens_on sets impl contract g proto from)) [
        | inl old ↦
            let known = listed-Supported sets impl contract g proto from v old in
            let called = impl.remove proto from target to g.underlying in
            let (sound, post) =
              remove_sound proto from target to g.underlying known v.sound
                (sym (v.agrees proto from) ∙ old) in
            let (valid, shrunk) = removed_lem g proto from called v known sound post in
            let after = removed sets impl g proto from called in
            let (change, calm) =
              removed_of_post after.0 (listens_on sets impl contract g)
                (listens_on sets impl contract after.1) proto from shrunk in
            rw old (valid, change, calm)
        | inr new ↦ rw new (v, (λ q n. refl), (λ e. cc))
      ]
