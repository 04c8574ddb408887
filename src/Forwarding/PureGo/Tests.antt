-- ===== src/Forwarding/PureGo/Tests.antt =====
-- A guard over the pure Go implementation on a host where nothing listens.
use kertical.Prelude.{
  ℕ, Bool, true, false, ◌≡◌, ◌≢◌, ◌⊎◌, ◌&&◌, ◌||◌, not, ◌==◌, some, List, [], ◌∷◌, list_sets,
  nat_Eq,
}
use kertical.Forwarding.Types.{Protocol, tcp, udp, panics, protocol_Eq}
use kertical.Forwarding.Transport.{Proc, crashed, is_listening}
use kertical.Forwarding.Guard.{Guard, new_guard, add_forwarding, remove_forwarding}
use kertical.Forwarding.Guard.Sequence.{Call, adds, removes, ports_after, run, run-forwards}
use kertical.Forwarding.Guard.Contract.{IsValid, listens_on, succeeded, new_guard-IsValid}
use kertical.Forwarding.Guard.Adding.{add_forwarding-IsValid}
use kertical.Forwarding.Guard.Removing.{remove_forwarding-IsValid}
use kertical.Forwarding.PureGo.{new_purego, purego}
use kertical.Forwarding.PureGo.Sound.{starts_idle, purego_contract}

abbrev quiet : Proc
quiet filename = some (record { lines = []; cut_short = false })

abbrev binds : Protocol → (from ctx : ℕ) → Bool
binds proto from ctx = true

abbrev calls : List Call
calls =
    adds quiet tcp 80 ("10.0.0.1" ∷ []) 8080 "web"
    ∷ adds quiet tcp 80 ("10.0.0.2" ∷ []) 8080 "web"
    ∷ removes udp 80 [] 8080
    ∷ removes tcp 80 [] 8080
    ∷ adds quiet udp 53 ("10.0.0.1" ∷ []) 53 "dns"
    ∷ []

abbrev idle_guard : Guard list_sets (purego binds)
idle_guard = new_guard list_sets (purego binds) new_purego

idle_guard-IsValid : IsValid list_sets (purego binds) (purego_contract binds) idle_guard
idle_guard-IsValid =
    new_guard-IsValid list_sets (purego binds) (purego_contract binds) new_purego
      (starts_idle binds).0 (starts_idle binds).1

abbrev web_guard : Guard list_sets (purego binds)
web_guard =
    (add_forwarding list_sets (purego binds) quiet tcp 80 ("10.0.0.1" ∷ []) 8080 "web" idle_guard).1

web_guard-IsValid : IsValid list_sets (purego binds) (purego_contract binds) web_guard
web_guard-IsValid =
    (add_forwarding-IsValid list_sets (purego binds) (purego_contract binds) quiet tcp 80
      ("10.0.0.1" ∷ []) 8080 "web" idle_guard idle_guard-IsValid).0

run-forwards_example :
    let r = run list_sets (purego binds) calls [] (new_guard list_sets (purego binds) new_purego) in
    IsValid list_sets (purego binds) (purego_contract binds) r.1
    × ((q : Protocol) (n : ℕ)
        → (purego_contract binds).forwards r.1.underlying q n ≡ ports_after r.0 q n)
run-forwards_example =
    run-forwards list_sets (purego binds) (purego_contract binds) calls new_purego
      (starts_idle binds).0 (starts_idle binds).1

add_forwarding-IsValid_example :
    let r =
      add_forwarding list_sets
        (purego binds)
        quiet
        tcp
        80
        ("10.0.0.1" ∷ [])
        8080
        "web"
        idle_guard in
    IsValid list_sets (purego binds) (purego_contract binds) r.1
    × ((q : Protocol) (n : ℕ)
        → listens_on list_sets (purego binds) (purego_contract binds) r.1 q n ≡ (
            succeeded r.0 && (tcp == q && 80 == n)
            || listens_on list_sets (purego binds) (purego_contract binds) idle_guard q n))
    × ((r.0 ≢ panics) ⊎ (is_listening quiet tcp 80 ≡ crashed))
add_forwarding-IsValid_example =
    add_forwarding-IsValid list_sets (purego binds) (purego_contract binds) quiet tcp 80
      ("10.0.0.1" ∷ []) 8080 "web" idle_guard idle_guard-IsValid

remove_forwarding-IsValid_example :
    let r = remove_forwarding list_sets (purego binds) tcp 80 [] 0 web_guard in
    IsValid list_sets (purego binds) (purego_contract binds) r.1
    × ((q : Protocol) (n : ℕ)
        → listens_on list_sets (purego binds) (purego_contract binds) r.1 q n ≡ (
            not (succeeded r.0 && (tcp == q && 80 == n))
            && listens_on list_sets (purego binds) (purego_contract binds) web_guard q n))
    × (r.0 ≢ panics)
remove_forwarding-IsValid_example =
    remove_forwarding-IsValid list_sets (purego binds) (purego_contract binds) tcp 80 [] 0 web_guard
      web_guard-IsValid
