-- ===== src/Webhooks/Defaults/Again.antt =====
-- Defaults that are applied twice.
use kertical.Prelude.{
  ℕ, String, string_Eq, ◌&&◌, ◌≡◌, ◌≢◌, ◌∙◌, refl, sym, ap, Option, none, some, List, [], ◌∷◌, ◌==◌,
  nat_Eq, Bool-cases, inl, inr, arith,
}
use kertical.Controllers.Ports.{ServicePort, EndpointPort, deref}
use kertical.Controllers.Proxy.{
  Backend, ProxyBackend, ProxyPath, ProxyRule, ProxyIngress, ExternalProxy,
}
use kertical.Webhooks.Kubernetes.{is_empty}
use kertical.Webhooks.Defaults.{
  or_text, no_backend, default_port, default_ports, default_backends, service_ports, backend_at,
  default_path, default_paths, rule_paths, default_rule_with, default_rules, with_rules,
  ingress_of_port, ingress_of_ports, asked_for, default_ingress, with_ingress, with_ports,
  with_names, apply_defaults,
}

or_text-again : (d t : String) → or_text d (or_text d t) ≡ or_text d t
unfolding or_text
or_text-again d t = ground arith

default_ports-again : (ps : List EndpointPort) → default_ports (default_ports ps) ≡ default_ports ps
unfolding default_ports
default_ports-again [] = refl
default_ports-again (p ∷ ps) = ap (λ rest. default_port p ∷ rest) (default_ports-again ps)

default_backends-again :
    (bs : List Backend) → default_backends (default_backends bs) ≡ default_backends bs
unfolding default_backends
default_backends-again [] = refl
default_backends-again (b ∷ bs) = cc (default_ports-again b.ports, default_backends-again bs)

service_ports-again :
    (bs : List Backend) (ps qs : List ServicePort)
    → service_ports bs ps ≡ some qs
    → service_ports bs qs ≡ some qs
unfolding service_ports
service_ports-again [] ps qs e = refl
service_ports-again (b ∷ bs) [] [] e = e
service_ports-again (b ∷ bs) (p ∷ ps) [] e = absurd (cc)
service_ports-again (b ∷ bs) ps (q ∷ qs) e = refl

backend_at-again :
    (port : ℕ) (b : ProxyBackend) → backend_at port (backend_at port b) ≡ backend_at port b
unfolding backend_at
backend_at-again port b = elim (Bool-cases (is_empty b.port_name && b.port_number == 0)) [
  | inl unset ↦ ground (arith, unset)
  | inr set ↦ ground (arith, set)
]

default_path-again :
    (port : ℕ) (x : ProxyPath) → default_path port (default_path port x) ≡ default_path port x
unfolding default_path
default_path-again port x =
    ap (λ b. record (default_path port x) { backend = some b })
      (backend_at-again port (deref x.backend no_backend))

default_paths-again :
    (port : ℕ) (xs : List ProxyPath)
    → default_paths port (default_paths port xs) ≡ default_paths port xs
unfolding default_paths
default_paths-again port [] = refl
default_paths-again port (x ∷ xs) = cc (default_path-again port x, default_paths-again port xs)

rule_with-again :
    (port : ℕ) (r : ProxyRule) (paths : Option (List ProxyPath)) (rest : Option (List ProxyRule))
    (qs : List ProxyRule)
    → default_rule_with port r paths rest ≡ some qs
    → ((ts : List ProxyRule) → rest ≡ some ts → default_rules port ts ≡ some ts)
    → default_rules port qs ≡ some qs
unfolding default_rule_with default_rules
rule_with-again port r none rest qs e again = absurd (cc)
rule_with-again port r (some xs) none qs e again = absurd (cc)
rule_with-again port r (some xs) (some ts) qs e again =
    let same : record r { paths = some (default_paths port xs) } ∷ ts ≡ qs = cc in
    rw⁻¹ same (
      rw (again ts refl)
        (ap (λ ys. some (record r { paths = some ys } ∷ ts)) (default_paths-again port xs)))

default_rules-again :
    (port : ℕ) (rs qs : List ProxyRule)
    → default_rules port rs ≡ some qs
    → default_rules port qs ≡ some qs
unfolding default_rules
default_rules-again port [] qs e = let same : [] ≡ qs = cc in rw⁻¹ same refl
default_rules-again port (r ∷ rs) qs e =
    rule_with-again port r (rule_paths r.host r.paths) (default_rules port rs) qs e
      (default_rules-again port rs)

cons-some :
    (port : ℕ) (r : ProxyRule) (paths : Option (List ProxyPath)) (rest : Option (List ProxyRule))
    → default_rule_with port r paths rest ≢ some []
unfolding default_rule_with
cons-some port r none rest = λ e. cc
cons-some port r (some xs) none = λ e. cc
cons-some port r (some xs) (some ts) = λ e. cc

with_rules-given :
    (i j : ProxyIngress) (rules : Option (List ProxyRule))
    → with_rules i rules ≡ some j
    → (qs : List ProxyRule) × (rules ≡ some qs) × (record i { rules = qs } ≡ j)
unfolding with_rules
with_rules-given i j none e = absurd (cc)
with_rules-given i j (some qs) e = (qs, refl, cc)

rules_of_port-again :
    (port : ℕ) (i : ProxyIngress) (r : ProxyRule) (rs qs : List ProxyRule)
    → default_rules port (r ∷ rs) ≡ some qs
    → ingress_of_port port (record i { rules = qs }) qs ≡ some (record i { rules = qs })
unfolding ingress_of_port with_rules
rules_of_port-again port i r rs [] e =
    absurd (
      unfold default_rules in
      cons-some port r (rule_paths r.host r.paths) (default_rules port rs) e)
rules_of_port-again port i r rs (q ∷ qs) e = rw (default_rules-again port (r ∷ rs) (q ∷ qs) e) refl

ingress_of_port-again :
    (port : ℕ) (i j : ProxyIngress) (rules : List ProxyRule)
    → i.rules ≡ rules
    → ingress_of_port port i rules ≡ some j
    → ingress_of_port port j j.rules ≡ some j
unfolding ingress_of_port
ingress_of_port-again port i j [] none_given e =
    let same : record i { default_backend = some (record { port_name = ""; port_number = port }) }
        ≡ j =
      cc in
    rw⁻¹ same (rw none_given refl)
ingress_of_port-again port i j (r ∷ rs) given e =
    let (qs, rules, same) = with_rules-given i j (default_rules port (r ∷ rs)) e in
    rw⁻¹ same (rules_of_port-again port i r rs qs rules)

ingress_of_port-name :
    (port : ℕ) (i j : ProxyIngress) (rules : List ProxyRule)
    → ingress_of_port port i rules ≡ some j
    → j.name ≡ i.name
unfolding ingress_of_port
ingress_of_port-name port i j [] e =
    let same : record i { default_backend = some (record { port_name = ""; port_number = port }) }
        ≡ j =
      cc in
    rw⁻¹ same refl
ingress_of_port-name port i j (r ∷ rs) e =
    let (qs, rules, same) = with_rules-given i j (default_rules port (r ∷ rs)) e in rw⁻¹ same refl

-- The defaults of an ingress keep its name, and are kept when they are applied again.
ingress_of_ports-again :
    (ports : List ServicePort) (i j : ProxyIngress)
    → ingress_of_ports ports i ≡ some j
    → (ingress_of_ports ports j ≡ some j) × (j.name ≡ i.name)
unfolding ingress_of_ports
ingress_of_ports-again [] i j e = let same : i ≡ j = cc in (refl, rw⁻¹ same refl)
ingress_of_ports-again (p ∷ []) i j e =
    (ingress_of_port-again p.port i j i.rules refl e, ingress_of_port-name p.port i j i.rules e)
ingress_of_ports-again (p ∷ q ∷ ps) i j e = let same : i ≡ j = cc in (refl, rw⁻¹ same refl)

asked_for-given :
    (r : Option ProxyIngress) (given : Option ProxyIngress)
    → asked_for r ≡ some given
    → (j : ProxyIngress) × (r ≡ some j) × (given ≡ some j)
unfolding asked_for
asked_for-given none given e = absurd (cc)
asked_for-given (some j) given e = (j, refl, cc)

default_ingress-again :
    (name : String) (ports : List ServicePort) (asked given : Option ProxyIngress)
    → default_ingress name ports asked ≡ some given
    → default_ingress name ports given ≡ some given
unfolding default_ingress asked_for
default_ingress-again name ports none given e = let same : none ≡ given = cc in rw⁻¹ same refl
default_ingress-again name ports (some i) given e =
    let (j, made, same) =
      asked_for-given (ingress_of_ports ports (record i { name = or_text name i.name })) given e in
    let (again, kept) =
      ingress_of_ports-again ports (record i { name = or_text name i.name }) j made in
    let named : or_text name j.name ≡ j.name =
      ap (or_text name) kept ∙ (or_text-again name i.name ∙ sym kept) in
    let whole : ingress_of_ports ports (record j { name = or_text name j.name }) ≡ some j =
      ap (λ n. ingress_of_ports ports (record j { name = n })) named ∙ again in
    rw same (rw whole refl)

with_ingress-given :
    (p q : ExternalProxy) (r : Option (Option ProxyIngress))
    → with_ingress p r ≡ some q
    → (given : Option ProxyIngress) × (r ≡ some given) × (record p { ingress = given } ≡ q)
unfolding with_ingress
with_ingress-given p q none e = absurd (cc)
with_ingress-given p q (some given) e = (given, refl, cc)

abbrev with_service_ports : ExternalProxy → List ServicePort → ExternalProxy
with_service_ports p ports = record p { service = record p.service { ports = ports } }

with_ports-given :
    (p q : ExternalProxy) (r : Option (List ServicePort))
    → with_ports p r ≡ some q
    → (ports : List ServicePort) × (r ≡ some ports)
      × (with_ingress (with_service_ports p ports) (default_ingress p.key.name ports p.ingress)
          ≡ some q)
unfolding with_ports
with_ports-given p q none e = absurd (cc)
with_ports-given p q (some ports) e = (ports, refl, e)

-- What the defaults make of an object whose parts are the defaults already.
fixed :
    (p : ExternalProxy) (ports : List ServicePort) (given : Option ProxyIngress)
    → service_ports (default_backends p.backends) ports ≡ some ports
    → default_ingress p.key.name ports given ≡ some given
    → let q = record (with_service_ports (with_names p) ports) { ingress = given } in
      apply_defaults q ≡ some q
unfolding apply_defaults with_names with_ports with_ingress
fixed p ports given same_ports same_ingress =
    rw
      (
        default_backends-again p.backends,
        same_ports,
        same_ingress,
        or_text-again p.key.name p.service.name,
        or_text-again "ClusterIP" p.service.service_type,
      )
      refl

-- When the defaults of an ExternalProxy have been applied, with no panic, applying them to the result gives
-- the result, with no panic: a second pass changes nothing.
pub apply_defaults-again :
    (p q : ExternalProxy) → apply_defaults p ≡ some q → apply_defaults q ≡ some q
unfolding with_names
apply_defaults-again p q e =
    let (ports, made, rest) =
      with_ports-given (with_names p) q
        (service_ports (default_backends p.backends) p.service.ports)
        (unfold apply_defaults in e) in
    let (given, asked, same) =
      with_ingress-given (with_service_ports (with_names p) ports) q
        (default_ingress p.key.name ports p.ingress) rest in
    rw⁻¹ same (
      fixed p ports given
        (service_ports-again (default_backends p.backends) p.service.ports ports made)
        (default_ingress-again p.key.name ports p.ingress given asked))
