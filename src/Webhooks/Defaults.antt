-- ===== src/Webhooks/Defaults.antt =====
-- internal/webhook/networking/v1alpha1/externalproxy_webhook.go: applyDefaults, with the defaults of
-- NewExternalProxyCustomDefaulter. Where a nil pointer is read the result is none.
pub mod Again
use kertical.Prelude.{
  ℕ, String, Bool, true, false, not, ◌&&◌, ◌||◌, Option, none, some, List, [], ◌∷◌, ◌++◌, ◌==◌,
  string_Eq, nat_Eq, elem, if◌then◌else◌,
}
use kertical.Forwarding.Types.{Protocol, tcp}
use kertical.Controllers.Ports.{IntOrString, from_int, ServicePort, EndpointPort, deref}
use kertical.Controllers.Proxy.{
  Backend, ProxyService, ProxyBackend, ProxyPath, ProxyRule, ProxyIngress, ExternalProxy,
}
use kertical.Webhooks.Kubernetes.{is_empty}

-- A text, or another one if it is empty
unfoldable pub or_text : String → String → String
or_text default text = if is_empty text then default else text

abbrev pub default_port : EndpointPort → EndpointPort
default_port p = record p { protocol = some (deref p.protocol tcp) }

unfoldable pub default_ports : List EndpointPort → List EndpointPort
default_ports [] = []
default_ports (p ∷ ps) = default_port p ∷ default_ports ps

unfoldable pub default_backends : List Backend → List Backend
unfolding default_ports
default_backends [] = []
default_backends (b ∷ bs) = record b { ports = default_ports b.ports } ∷ default_backends bs

-- The ports of all backends, in the order of the two loops
unfoldable pub ports_of : List Backend → List EndpointPort
ports_of [] = []
ports_of (b ∷ bs) = b.ports ++ ports_of bs

-- preferredTargetPort, given the number of the port
unfoldable pub preferred_target_port : Option String → ℕ → IntOrString
preferred_target_port none number = from_int number
preferred_target_port (some name) number =
    if is_empty name
    then from_int number
    else record { is_string = true; int_val = 0; str_val = name }

unfoldable pub port_from :
    (name : String) → EndpointPort → Option Protocol → Option ℕ → Option ServicePort
unfolding preferred_target_port
port_from name p none number = none
port_from name p (some protocol) none = none
port_from name p (some protocol) (some number) = some (record {
  name = name;
  protocol = protocol;
  port = number;
  target_port = preferred_target_port p.name number;
  app_protocol = p.app_protocol;
})

unfoldable pub cons_port :
    Option ServicePort → Option (List ServicePort) → Option (List ServicePort)
cons_port none rest = none
cons_port (some p) none = none
cons_port (some p) (some ps) = some (p ∷ ps)

unfoldable pub is_new : Option String → (registered : List String) → Bool
is_new none registered = false
is_new (some name) registered = not (is_empty name) && not (elem name registered)

-- The ports that have a name of their own; `registered` are the names so far.
unfoldable pub new_ports :
    (registered : List String) → List EndpointPort → Option (List ServicePort)
unfolding is_new port_from cons_port
new_ports registered [] = some []
new_ports registered (p ∷ ps) =
    let name = deref p.name "" in
    let skipped = new_ports registered ps in
    let taken = new_ports (name ∷ registered) ps in
    if is_new p.name registered
    then cons_port (port_from name p p.protocol p.port) taken
    else skipped

unfoldable pub service_ports : List Backend → List ServicePort → Option (List ServicePort)
unfolding new_ports
service_ports [] ports = some ports
service_ports (b ∷ bs) [] = new_ports [] (ports_of (b ∷ bs))
service_ports (b ∷ bs) (p ∷ ps) = some (p ∷ ps)

abbrev pub no_backend : ProxyBackend
no_backend = record { port_name = ""; port_number = 0 }

unfoldable pub backend_at : (port : ℕ) → ProxyBackend → ProxyBackend
backend_at port b =
    if is_empty b.port_name && b.port_number == 0 then record b { port_number = port } else b

unfoldable pub default_path : (port : ℕ) → ProxyPath → ProxyPath
unfolding backend_at
default_path port x = record x {
  path_type = some (deref x.path_type "ImplementationSpecific");
  backend = some (backend_at port (deref x.backend no_backend));
}

unfoldable pub default_paths : (port : ℕ) → List ProxyPath → List ProxyPath
unfolding default_path
default_paths port [] = []
default_paths port (x ∷ xs) = default_path port x ∷ default_paths port xs

-- A rule with a host but no HTTP gets the path of the root.
unfoldable pub rule_paths : (host : String) → Option (List ProxyPath) → Option (List ProxyPath)
rule_paths host (some xs) = some xs
rule_paths host none =
    if is_empty host
    then none
    else some (record { path = "/"; path_type = none; backend = none } ∷ [])

unfoldable pub default_rule_with :
    (port : ℕ)
    → ProxyRule
    → Option (List ProxyPath)
    → Option (List ProxyRule)
    → Option (List ProxyRule)
unfolding default_paths
default_rule_with port r none rest = none
default_rule_with port r (some xs) none = none
default_rule_with port r (some xs) (some rs) =
    some (record r { paths = some (default_paths port xs) } ∷ rs)

unfoldable pub default_rules : (port : ℕ) → List ProxyRule → Option (List ProxyRule)
unfolding default_rule_with rule_paths
default_rules port [] = some []
default_rules port (r ∷ rs) =
    default_rule_with port r (rule_paths r.host r.paths) (default_rules port rs)

unfoldable pub with_rules : ProxyIngress → Option (List ProxyRule) → Option ProxyIngress
with_rules i none = none
with_rules i (some rules) = some (record i { rules = rules })

-- A Service with one port gives the default backend, or the port of each path.
unfoldable pub ingress_of_port : (port : ℕ) → ProxyIngress → List ProxyRule → Option ProxyIngress
unfolding with_rules default_rules
ingress_of_port port i [] =
    some (record i { default_backend = some (record { port_name = ""; port_number = port }) })
ingress_of_port port i (r ∷ rs) = with_rules i (default_rules port (r ∷ rs))

unfoldable pub ingress_of_ports : List ServicePort → ProxyIngress → Option ProxyIngress
unfolding ingress_of_port
ingress_of_ports [] i = some i
ingress_of_ports (p ∷ []) i = ingress_of_port p.port i i.rules
ingress_of_ports (p ∷ q ∷ ps) i = some i

unfoldable pub asked_for : Option ProxyIngress → Option (Option ProxyIngress)
asked_for none = none
asked_for (some i) = some (some i)

unfoldable pub default_ingress :
    (name : String) → List ServicePort → Option ProxyIngress → Option (Option ProxyIngress)
unfolding asked_for ingress_of_ports or_text
default_ingress name ports none = some none
default_ingress name ports (some i) =
    asked_for (ingress_of_ports ports (record i { name = or_text name i.name }))

unfoldable pub with_ingress : ExternalProxy → Option (Option ProxyIngress) → Option ExternalProxy
with_ingress p none = none
with_ingress p (some i) = some (record p { ingress = i })

unfoldable pub with_ports : ExternalProxy → Option (List ServicePort) → Option ExternalProxy
unfolding with_ingress default_ingress
with_ports p none = none
with_ports p (some ports) =
    with_ingress (record p { service = record p.service { ports = ports } })
      (default_ingress p.key.name ports p.ingress)

unfoldable pub with_names : ExternalProxy → ExternalProxy
unfolding or_text default_backends
with_names p = record p {
  service = record p.service {
    name = or_text p.key.name p.service.name;
    service_type = or_text "ClusterIP" p.service.service_type;
  };
  backends = default_backends p.backends;
}

unfoldable pub apply_defaults : ExternalProxy → Option ExternalProxy
unfolding with_names with_ports service_ports
apply_defaults p =
    with_ports (with_names p) (service_ports (default_backends p.backends) p.service.ports)
