-- ===== src/Forwarding/PureGo/Sound.antt =====
-- The pure Go implementation keeps the contract of the guard.
use kertical.Prelude.{
  ℕ, ◌+◌, ◌≤◌, ◌<◌, String, Bool, true, false, not, ◌&&◌, ◌≡◌, ◌≢◌, refl, sym, Option, none, some,
  List, ◌==◌, nat_Eq, arith, Bool-cases, inl, inr, nat_eq_iff, ==_ne, ==_refl, ap, ◌∙◌, ◌⊎◌,
}
use kertical.Forwarding.Types.{Protocol, tcp, udp, other, protocol_Eq, protocol_eq_iff, done}
use kertical.Forwarding.Guard.Contract.{Supported, Contract, AddPost, RemovePost}
use kertical.Forwarding.PureGo.{
  new_purego, PureGo, purego, store, cancel, start, stop, add_forwarding, remove_forwarding,
}

abbrev live_in : (ℕ → Bool) → Option ℕ → Bool
live_in cancelled none = false
live_in cancelled (some ctx) = not (cancelled ctx)

-- The port has a context, and neither that nor its parent is cancelled. The goroutines that listen on the
-- port are started with it; one may also end by itself, when a socket cannot be read.
abbrev pub is_live : PureGo → Protocol → ℕ → Bool
is_live p proto from = not p.closed && live_in p.cancelled (p.forwards proto from)

pub record IsSound (p : PureGo) : Type 0 where
  pub bounded : (q : Protocol) (n t : ℕ) → p.forwards q n ≡ some t → t < p.next
  pub fresh : (t : ℕ) → p.next ≤ t → p.cancelled t ≡ false
  pub distinct :
      (q : Protocol) (n : ℕ) (q' : Protocol) (n' t : ℕ)
      → p.forwards q n ≡ some t
      → p.forwards q' n' ≡ some t
      → (q ≡ q') × (n ≡ n')
  pub is_open : p.closed ≡ false

-- A context of the table after `start` is the new one at its port, or was there.
store_cases :
    (proto : Protocol) (from ctx : ℕ) (forwards : Protocol → ℕ → Option ℕ) (q : Protocol) (n t : ℕ)
    → store proto from ctx forwards q n ≡ some t
    → ((q ≡ proto) × (n ≡ from) × (t ≡ ctx)) ⊎ (forwards q n ≡ some t)
store_cases proto from ctx forwards q n t e =
    ground (arith, protocol_eq_iff proto q, nat_eq_iff from n)

-- Cancelling a context that a port does not hold leaves the port alone.
live-cancel_ne :
    (ctx : ℕ) (cancelled : ℕ → Bool) (o : Option ℕ)
    → o ≢ some ctx
    → live_in (cancel ctx cancelled) o ≡ live_in cancelled o
live-cancel_ne ctx cancelled none h = refl
live-cancel_ne ctx cancelled (some t) h = rw (==_ne ctx t (λ e. h (cc))) refl

module _ (p : PureGo) (v : IsSound p) where
  ne_next : (q : Protocol) (n : ℕ) → p.forwards q n ≢ some p.next
  ne_next q n e = omega (arith, v.bounded q n p.next e)

  ne_other :
      (proto : Protocol) (from ctx : ℕ) (q : Protocol) (n : ℕ)
      → p.forwards proto from ≡ some ctx
      → (proto == q && from == n) ≡ false
      → p.forwards q n ≢ some ctx
  ne_other proto from ctx q n held apart e =
      let (same_q, same_n) = v.distinct proto from q n ctx held e in
      ground (arith, protocol_eq_iff proto q, nat_eq_iff from n)

  module _ (binds : Protocol → (from ctx : ℕ) → Bool) (proto : Protocol) (from : ℕ) where
    store_distinct :
        (q : Protocol) (n : ℕ) (q' : Protocol) (n' t : ℕ)
        → store proto from p.next p.forwards q n ≡ some t
        → store proto from p.next p.forwards q' n' ≡ some t
        → (q ≡ q') × (n ≡ n')
    store_distinct q n q' n' t e e' =
        both (store_cases proto from p.next p.forwards q n t e)
          (store_cases proto from p.next p.forwards q' n' t e')
      where
        both :
            ((q ≡ proto) × (n ≡ from) × (t ≡ p.next)) ⊎ (p.forwards q n ≡ some t)
            → ((q' ≡ proto) × (n' ≡ from) × (t ≡ p.next)) ⊎ (p.forwards q' n' ≡ some t)
            → (q ≡ q') × (n ≡ n')
        both (inl a) (inl b) = (a.0 ∙ sym b.0, a.1 ∙ sym b.1)
        both (inl a) (inr b) = absurd (omega (arith, v.bounded q' n' t b))
        both (inr a) (inl b) = absurd (omega (arith, v.bounded q n t a))
        both (inr a) (inr b) = v.distinct q n q' n' t a b

    store_bounded :
        (q : Protocol) (n t : ℕ) → store proto from p.next p.forwards q n ≡ some t → t < p.next + 1
    store_bounded q n t e = elim (store_cases proto from p.next p.forwards q n t e) [
      | inl new ↦ omega arith
      | inr old ↦ omega (arith, v.bounded q n t old)
    ]

    start_lem :
        IsSound (start binds proto from p).1
        × AddPost
            (is_live p)
            proto
            from
            (start binds proto from p).0
            (is_live (start binds proto from p).1)
    unfolding start
    start_lem = elim (Bool-cases (binds proto from p.next)) [
      | inl bound ↦ rw bound (
        record {
          bounded = store_bounded;
          fresh = λ t le. v.fresh t (omega arith);
          distinct = store_distinct;
          is_open = v.is_open;
        },
        (λ q n. ground (arith, protocol_eq_iff proto q, nat_eq_iff from n, v.fresh p.next)),
      )
      | inr taken ↦ rw taken (
        record {
          bounded = λ q n t e. omega (arith, v.bounded q n t e);
          fresh = λ t le. rw (==_ne p.next t (omega arith)) (v.fresh t (omega arith));
          distinct = v.distinct;
          is_open = v.is_open;
        },
        (λ q n.
            ap (λ b. not p.closed && b)
              (live-cancel_ne p.next p.cancelled (p.forwards q n) (ne_next q n))),
      )
    ]

    stop_lem :
        is_live p proto from ≡ true
        → IsSound (stop binds (p.forwards proto from) p)
          × RemovePost (is_live p) proto from done (is_live (stop binds (p.forwards proto from) p))
    unfolding stop
    stop_lem live = go (p.forwards proto from) refl
      where
        go :
            (o : Option ℕ)
            → p.forwards proto from ≡ o
            → IsSound (stop binds o p)
              × RemovePost (is_live p) proto from done (is_live (stop binds o p))
        go none e = absurd (ground (arith, live, ap (live_in p.cancelled) e))
        go (some ctx) e = (
          record {
            bounded = v.bounded;
            fresh =
                λ t le. rw (==_ne ctx t (omega (arith, v.bounded proto from ctx e))) (v.fresh t le);
            distinct = v.distinct;
            is_open = v.is_open;
          },
          (λ q n. elim (Bool-cases (proto == q && from == n)) [
            | inl same ↦
                rw same (ground (arith, protocol_eq_iff proto q, nat_eq_iff from n, ==_refl ctx))
            | inr apart ↦ rw apart (
                ap (λ b. not p.closed && b)
                  (live-cancel_ne ctx p.cancelled (p.forwards q n)
                    (ne_other proto from ctx q n e apart)))
          ]),
        )

module _ (binds : Protocol → (from ctx : ℕ) → Bool) where
  -- The pure Go implementation meets the guard's contract: its ports are those with a
  -- live context.
  pub purego_contract : Contract (purego binds)
  unfolding add_forwarding remove_forwarding
  purego_contract = record {
    IsSound = IsSound;
    forwards = is_live;
    add_sound = adds;
    remove_sound = removes;
  }
    where
      adds :
          (proto : Protocol) (from : ℕ) (target : List String) (to : ℕ) (comment : String)
          (p : PureGo)
          → Supported proto
          → IsSound p
          → is_live p proto from ≡ false
          → IsSound (add_forwarding binds proto from target to comment p).1
            × AddPost
                (is_live p)
                proto
                from
                (add_forwarding binds proto from target to comment p).0
                (is_live (add_forwarding binds proto from target to comment p).1)
      adds tcp from target to comment p known v idle = start_lem p v binds tcp from
      adds udp from target to comment p known v idle = start_lem p v binds udp from
      adds (other name) from target to comment p known v idle = absurd known

      removes :
          (proto : Protocol) (from : ℕ) (target : List String) (to : ℕ) (p : PureGo)
          → Supported proto
          → IsSound p
          → is_live p proto from ≡ true
          → IsSound (remove_forwarding binds proto from target to p).1
            × RemovePost
                (is_live p)
                proto
                from
                (remove_forwarding binds proto from target to p).0
                (is_live (remove_forwarding binds proto from target to p).1)
      removes tcp from target to p known v live = stop_lem p v binds tcp from live
      removes udp from target to p known v live = stop_lem p v binds udp from live
      removes (other name) from target to p known v live = absurd known

  new_purego-IsSound : IsSound new_purego
  new_purego-IsSound = record {
    bounded = λ q n t e. absurd (cc);
    fresh = λ t le. refl;
    distinct = λ q n q' n' t e e'. absurd (cc);
    is_open = refl;
  }

  -- A new one is sound, and forwards nothing.
  pub starts_idle :
      purego_contract.IsSound new_purego
      × ((q : Protocol) (n : ℕ) → purego_contract.forwards new_purego q n ≡ false)
  unfolding purego_contract
  starts_idle = (new_purego-IsSound, (λ q n. refl))
