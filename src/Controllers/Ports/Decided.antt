-- ===== src/Controllers/Ports/Decided.antt =====
-- What `SyncForwardingPorts` decides on each port of the specification.
use mathlib.Core.List.{append_assoc}
use text.Mathlib.TextEquality.{eq_iff}
use kertical.Prelude.{
  ℕ, String, Bool, true, false, ◌&&◌, ◌==◌, nat_Eq, string_Eq, nat_eq_iff, Option, none, some, List,
  [], ◌∷◌, ◌++◌, ◌≡◌, refl, sym, ap, ◌∙◌, Bool-cases, inl, inr, arith,
}
use kertical.Forwarding.Types.{other, protocol_Eq, protocol_eq_iff}
use kertical.Controllers.Ports.{
  IntOrString, from_int, bool_eq, same_port, same_hosts, Service, ServicePort, EndpointSlice, ready,
  failed, ForwardedPort, Wanted, Sync, is_unchanged, sync_found, sync_port, sync_all,
  find_service_port, target_hosts_of, wanted_port, failure_of, deref,
}

-- The list that a port of the specification comes to, with the entry.
pub data Decision : Type 0 where
  adds keeps fails : ForwardedPort → Decision

abbrev pub added_by : Decision → List ForwardedPort
added_by (adds f) = f ∷ []
added_by (keeps f) = []
added_by (fails f) = []

abbrev pub kept_by : Decision → List ForwardedPort
kept_by (adds f) = []
kept_by (keeps f) = f ∷ []
kept_by (fails f) = []

abbrev pub failed_by : Decision → List ForwardedPort
failed_by (adds f) = []
failed_by (keeps f) = []
failed_by (fails f) = f ∷ []

-- All the entries of one list, in order.
abbrev pub gathered : (Decision → List ForwardedPort) → List Decision → List ForwardedPort
gathered by [] = []
gathered by (d ∷ ds) = by d ++ gathered by ds

-- The host's port: the one that is asked for, or else the port of the Service.
abbrev pub host_port : Option ℕ → ℕ → ℕ
host_port none n = n
host_port (some m) n = m

-- The decision is right for the port, by the port of the Service that was found for it. An addition is pinned
-- in full; a forwarding that is kept has the protocol, the host's port and the target hosts.
abbrev pub IsRight : (hosts : List String) → Wanted → Option ServicePort → Decision → Type 0
IsRight hosts w none (fails f) = f ≡ record {
  protocol = other "";
  source_port = w.target;
  target_hosts = [];
  target_port = 0;
  state = failed;
}
IsRight hosts w none d = ⊥
IsRight hosts w (some p) (adds f) = f ≡ record {
  protocol = p.protocol;
  source_port = from_int (host_port w.host_port p.port);
  target_hosts = hosts;
  target_port = p.port;
  state = ready;
}
IsRight hosts w (some p) (keeps f) =
    (f.protocol ≡ p.protocol)
    × (f.source_port ≡ from_int (host_port w.host_port p.port))
    × (f.target_hosts ≡ hosts)
IsRight hosts w (some p) (fails f) = ⊥

-- One right decision for each port, in the order of the specification.
abbrev pub AreRight :
    (List String) → (Wanted → Option ServicePort) → List Wanted → List Decision → Type 0
AreRight hosts find [] [] = Unit
AreRight hosts find [] (d ∷ ds) = ⊥
AreRight hosts find (w ∷ ws) [] = ⊥
AreRight hosts find (w ∷ ws) (d ∷ ds) = IsRight hosts w (find w) d × AreRight hosts find ws ds

-- The lists hold what they held, and what was decided.
unfoldable pub Holds : Sync → List Decision → Sync → Type 0
Holds s ds s' =
    (s'.additions ≡ s.additions ++ gathered added_by ds)
    × (s'.unchanged ≡ s.unchanged ++ gathered kept_by ds)
    × (s'.errors ≡ s.errors ++ gathered failed_by ds)

append_nil : (xs : List ForwardedPort) → xs ≡ xs ++ []
append_nil [] = refl
append_nil (x ∷ xs) = ap (λ ys. x ∷ ys) (append_nil xs)

same_hosts-eq : (xs ys : List String) → same_hosts xs ys ≡ true → ys ≡ xs
unfolding same_hosts
same_hosts-eq [] [] e = refl
same_hosts-eq [] (y ∷ ys) e = absurd (cc)
same_hosts-eq (x ∷ xs) [] e = absurd (cc)
same_hosts-eq (x ∷ xs) (y ∷ ys) e = elim (Bool-cases (x == y)) [
  | inl same ↦
      let head : x ≡ y = (eq_iff x y).0 same in
      let tail : ys ≡ xs = same_hosts-eq xs ys (ground (arith, e, same)) in cc
  | inr apart ↦ absurd (ground (arith, e, apart))
]

bool_eq-eq : (a b : Bool) → bool_eq a b ≡ true → a ≡ b
bool_eq-eq true true e = refl
bool_eq-eq true false e = absurd (cc)
bool_eq-eq false true e = absurd (cc)
bool_eq-eq false false e = refl

and_true : (a b : Bool) → a && b ≡ true → (a ≡ true) × (b ≡ true)
and_true true b e = (refl, e)
and_true false b e = absurd (cc)

port_of : Bool → ℕ → String → IntOrString
port_of kind number text = record { is_string = kind; int_val = number; str_val = text }

same_port-eq : (a b : IntOrString) → same_port a b ≡ true → a ≡ b
unfolding same_port port_of
same_port-eq a b e =
    let (kind, values) = and_true (bool_eq a.is_string b.is_string) _ e in
    let (number, text) = and_true (a.int_val == b.int_val) _ values in
    let k : a.is_string ≡ b.is_string = bool_eq-eq a.is_string b.is_string kind in
    let n : a.int_val ≡ b.int_val = (nat_eq_iff a.int_val b.int_val).0 number in
    let t : a.str_val ≡ b.str_val = (eq_iff a.str_val b.str_val).0 text in
    ap (λ x. port_of x a.int_val a.str_val) k
    ∙ (ap (λ x. port_of b.is_string x a.str_val) n ∙ ap (λ x. port_of b.is_string b.int_val x) t)

module _ (sort : List String → List String) where
  is_unchanged-same :
      (f old : ForwardedPort)
      → is_unchanged sort f old ≡ true
      → (old.protocol ≡ f.protocol)
        × (old.source_port ≡ f.source_port)
        × (old.target_hosts ≡ f.target_hosts)
  unfolding is_unchanged
  is_unchanged-same f old e =
      let (protocol, rest) = and_true (old.protocol == f.protocol) _ e in
      let (port, hosts) = and_true (same_port old.source_port f.source_port) _ rest in
      (
        (protocol_eq_iff old.protocol f.protocol).0 protocol,
        same_port-eq old.source_port f.source_port port,
        same_hosts-eq f.target_hosts old.target_hosts hosts,
      )

  wanted_with : ServicePort → List String → ℕ → ForwardedPort
  wanted_with p hosts n = record {
    protocol = p.protocol;
    source_port = from_int n;
    target_hosts = hosts;
    target_port = p.port;
    state = ready;
  }

  deref-host_port : (o : Option ℕ) (n : ℕ) → deref o n ≡ host_port o n
  deref-host_port none n = refl
  deref-host_port (some m) n = refl

  wanted-IsRight :
      (hosts : List String) (w : Wanted) (p : ServicePort)
      → IsRight hosts w (some p) (adds (wanted_port sort p w hosts))
  unfolding wanted_port wanted_with
  wanted-IsRight hosts w p = ap (wanted_with p hosts) (deref-host_port w.host_port p.port)

  kept-IsRight :
      (hosts : List String) (w : Wanted) (p : ServicePort) (old : ForwardedPort)
      → is_unchanged sort (wanted_port sort p w hosts) old ≡ true
      → IsRight hosts w (some p) (keeps old)
  unfolding wanted_port
  kept-IsRight hosts w p old e =
      let (protocol, port, same) = is_unchanged-same (wanted_port sort p w hosts) old e in
      (protocol, port ∙ ap from_int (deref-host_port w.host_port p.port), same)

  found-IsRight :
      (hosts : List String) (w : Wanted) (p : ServicePort) (o : Option ForwardedPort) (s : Sync)
      → (d : Decision) × IsRight hosts w (some p) d
        × Holds s (d ∷ []) (sync_found sort (wanted_port sort p w hosts) o s)
  unfolding sync_found Holds
  found-IsRight hosts w p none s = (
    adds (wanted_port sort p w hosts),
    wanted-IsRight hosts w p,
    (refl, append_nil s.unchanged, append_nil s.errors),
  )
  found-IsRight hosts w p (some old) s =
      elim (Bool-cases (is_unchanged sort (wanted_port sort p w hosts) old)) [
        | inl same ↦ (
          keeps old,
          kept-IsRight hosts w p old same,
          rw same (append_nil s.additions, refl, append_nil s.errors),
        )
        | inr changed ↦ (
          adds (wanted_port sort p w hosts),
          wanted-IsRight hosts w p,
          rw changed (refl, append_nil s.unchanged, append_nil s.errors),
        )
      ]

  port-IsRight :
      (hosts : List String) (w : Wanted) (o : Option ServicePort) (s : Sync)
      → (d : Decision) × IsRight hosts w o d × Holds s (d ∷ []) (sync_port sort hosts w o s)
  unfolding sync_port Holds
  port-IsRight hosts w none s =
      (fails (failure_of w), refl, (append_nil s.additions, append_nil s.unchanged, refl))
  port-IsRight hosts w (some p) s = found-IsRight hosts w p _ s

  Holds-cons :
      (s s' s'' : Sync) (d : Decision) (ds : List Decision)
      → Holds s (d ∷ []) s'
      → Holds s' ds s''
      → Holds s (d ∷ ds) s''
  unfolding Holds
  Holds-cons s s' s'' d ds (a, u, e) (a', u', e') = (
    joined added_by s.additions s'.additions s''.additions a a',
    joined kept_by s.unchanged s'.unchanged s''.unchanged u u',
    joined failed_by s.errors s'.errors s''.errors e e',
  )
    where
      joined :
          (by : Decision → List ForwardedPort) (xs ys zs : List ForwardedPort)
          → ys ≡ xs ++ (by d ++ [])
          → zs ≡ ys ++ gathered by ds
          → zs ≡ xs ++ (by d ++ gathered by ds)
      joined by xs ys zs first rest =
          rest
          ∙ (ap (λ l. l ++ gathered by ds) (first ∙ ap (λ l. xs ++ l) (sym (append_nil (by d))))
              ∙ append_assoc xs (by d) (gathered by ds))

  pub all-AreRight :
      (svc : Service) (slices : List EndpointSlice) (ws : List Wanted) (s : Sync)
      → (ds : List Decision) × AreRight
          (target_hosts_of sort svc slices)
          (λ w. find_service_port svc w.target slices)
          ws
          ds
        × Holds s ds (sync_all sort svc slices ws s)
  unfolding sync_all Holds
  all-AreRight svc slices [] s =
      ([], tt, (append_nil s.additions, append_nil s.unchanged, append_nil s.errors))
  all-AreRight svc slices (w ∷ ws) s =
      let hosts = target_hosts_of sort svc slices in
      let found = find_service_port svc w.target slices in
      let s' = sync_port sort hosts w found s in
      let (d, right, one) = port-IsRight hosts w found s in
      let (ds, rights, others) = all-AreRight svc slices ws s' in
      (d ∷ ds, (right, rights), Holds-cons s s' (sync_all sort svc slices ws s') d ds one others)
