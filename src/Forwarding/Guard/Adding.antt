-- ===== src/Forwarding/Guard/Adding.antt =====
-- `AddForwarding` of the guard over an implementation that keeps the contract.
use kertical.Prelude.{
  ◌⊎◌, ℕ, String, Bool, true, false, ◌&&◌, ◌||◌, ◌≡◌, ◌≢◌, refl, sym, ◌∙◌, Option, none, some, List,
  ◌==◌, nat_Eq, SetPackage, arith, if◌then◌else◌, Bool-cases, inl, inr, nat_eq_iff,
}
use kertical.Forwarding.Types.{
  Protocol, tcp, udp, other, protocol_Eq, protocol_eq_iff, Outcome, done, fails, panics,
  PortForwarding,
}
use kertical.Forwarding.Transport.{Answer, listening, free, failed, crashed, Proc, is_listening}
use kertical.Forwarding.Transport.Listening.{is_listening-free}
use kertical.Forwarding.Guard.{Guard, has_port, add_forwarding, added, add_free, record_port}
use kertical.Forwarding.Guard.Contract.{
  Supported, Ports, AddPost, Contract, succeeded, listens_on, IsValid, Supported-ne,
}

module _ (sets : SetPackage ℕ) {U : Type 0} (impl : PortForwarding U)
    (contract : Contract impl) where
  open sets use {Set, new, has, has-new, has-insert, has-delete}
  open contract use {IsSound, forwards, add_sound, remove_sound}

  record_port_lem :
      (g : Guard sets impl) (proto : Protocol) (from : ℕ) (u : U) (o : Option Set)
      → g.listens proto ≡ o
      → IsValid sets impl contract g
      → Supported proto
      → IsSound u
      → AddPost (forwards g.underlying) proto from done (forwards u)
      → IsValid sets impl contract (record_port sets impl g proto from u o).1
        × AddPost
            (listens_on sets impl contract g)
            proto
            from
            (record_port sets impl g proto from u o).0
            (listens_on sets impl contract (record_port sets impl g proto from u o).1)
  unfolding record_port
  record_port_lem g proto from u none e v s sound post = absurd (v.has_set proto s e)
  record_port_lem g proto from u (some set) e v s sound post = (
    record {
      sound = sound;
      agrees = λ q n. ground (arith, grows q n, post q n, v.agrees q n);
      has_set = λ q known missing. still (proto == q) (g.listens q) (v.has_set q known) missing;
      no_set = λ name. rw (Supported-ne sets impl contract proto name s) (v.no_set name);
    },
    grows,
  )
    where
      still :
          (same : Bool) (old : Option Set)
          → old ≢ none
          → (if same then some (sets.insert from set) else old) ≢ none
      still true old had missing = cc
      still false old had missing = had missing

      grows :
          (q : Protocol) (n : ℕ)
          → has_port sets impl (if proto == q then some (sets.insert from set) else g.listens q) n
            ≡ (proto == q && from == n || listens_on sets impl contract g q n)
      grows q n = ground (arith, protocol_eq_iff proto q, nat_eq_iff from n, has-insert from n set)

  added_lem :
      (g : Guard sets impl) (proto : Protocol) (from : ℕ) (r : Outcome × U)
      → IsValid sets impl contract g
      → Supported proto
      → IsSound r.1
      → AddPost (forwards g.underlying) proto from r.0 (forwards r.1)
      → IsValid sets impl contract (added sets impl g proto from r).1
        × AddPost
            (listens_on sets impl contract g)
            proto
            from
            (added sets impl g proto from r).0
            (listens_on sets impl contract (added sets impl g proto from r).1)
  unfolding added
  added_lem g proto from (done, u) v s sound post =
      record_port_lem g proto from u (g.listens proto) refl v s sound post
  added_lem g proto from (fails e, u) v s sound post = (
    record {
      sound = sound;
      agrees = λ q n. v.agrees q n ∙ sym (post q n);
      has_set = v.has_set;
      no_set = v.no_set;
    },
    (λ q n. refl),
  )
  added_lem g proto from (panics, u) v s sound post = absurd post

  add_free_lem :
      (g : Guard sets impl) (proto : Protocol) (from : ℕ) (a : Answer) (r : Outcome × U)
      → IsValid sets impl contract g
      → (a ≡ free
          → Supported proto
            × IsSound r.1
            × AddPost (forwards g.underlying) proto from r.0 (forwards r.1))
      → IsValid sets impl contract (add_free sets impl g proto from a r).1
        × ((q : Protocol) (n : ℕ)
            → listens_on sets impl contract (add_free sets impl g proto from a r).1 q n ≡ (
                succeeded (add_free sets impl g proto from a r).0 && (proto == q && from == n)
                || listens_on sets impl contract g q n))
        × (((add_free sets impl g proto from a r).0 ≢ panics) ⊎ (a ≡ crashed))
  unfolding add_free
  add_free_lem g proto from failed r v h = (v, (λ q n. refl), inl (λ e. cc))
  add_free_lem g proto from crashed r v h = (v, (λ q n. refl), inr refl)
  add_free_lem g proto from listening r v h = (v, (λ q n. refl), inl (λ e. cc))
  add_free_lem g proto from free r v h =
      let (known, sound, post) = h refl in
      let (valid, grown) = added_lem g proto from r v known sound post in
      let (change, calm) =
        of_post (added sets impl g proto from r).0
          (listens_on sets impl contract (added sets impl g proto from r).1) grown in
      (valid, change, inl calm)
    where
      of_post :
          (o : Outcome) (after : Ports)
          → AddPost (listens_on sets impl contract g) proto from o after
          → ((q : Protocol) (n : ℕ)
              → after q n
                ≡ (succeeded o && (proto == q && from == n) || listens_on sets impl contract g q n))
            × (o ≢ panics)
      of_post done after post = (post, (λ e. cc))
      of_post (fails x) after post = (post, (λ e. cc))
      of_post panics after post = absurd post

  free-Supported :
      (proc : Proc) (proto : Protocol) (from : ℕ)
      → is_listening proc proto from ≡ free
      → Supported proto
  free-Supported proc tcp from h = tt
  free-Supported proc udp from h = tt
  free-Supported proc (other s) from h = absurd ((is_listening-free proc from).2 s h)

  -- Over an implementation that keeps the contract, and so does not panic on a port of TCP or UDP:
  -- AddForwarding keeps the books equal to the implementation's ports on every outcome, adds its port
  -- exactly when it succeeds, and panics only if a line of /proc is too short to read.
  pub add_forwarding-IsValid :
      (proc : Proc) (proto : Protocol) (from : ℕ) (target : List String) (to : ℕ) (comment : String)
      (g : Guard sets impl)
      → IsValid sets impl contract g
      → let r = add_forwarding sets impl proc proto from target to comment g in
        IsValid sets impl contract r.1
        × ((q : Protocol) (n : ℕ)
            → listens_on sets impl contract r.1 q n
              ≡ (succeeded r.0 && (proto == q && from == n) || listens_on sets impl contract g q n))
        × ((r.0 ≢ panics) ⊎ (is_listening proc proto from ≡ crashed))
  unfolding add_forwarding
  add_forwarding-IsValid proc proto from target to comment g v =
      elim (Bool-cases (listens_on sets impl contract g proto from)) [
        | inl old ↦ rw old (v, (λ q n. refl), inl (λ e. cc))
        | inr new ↦ rw new (
            add_free_lem g proto from (is_listening proc proto from)
              (impl.add proto from target to comment g.underlying) v
              (λ e.
                let known = free-Supported proc proto from e in
                let (sound, post) =
                  add_sound proto from target to comment g.underlying known v.sound
                    (sym (v.agrees proto from) ∙ new) in
                (known, sound, post)))
      ]
