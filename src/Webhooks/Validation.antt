-- ===== src/Webhooks/Validation.antt =====
-- internal/webhook/networking/v1alpha1: the validators of an ExternalProxy and of a PortForwarding. The
-- supported protocols are TCP, UDP and SCTP.
use kertical.Prelude.{
  ℕ, ◌+◌, String, Bool, true, false, not, Option, none, some, List, [], ◌∷◌, ◌++◌, ◌==◌, string_Eq,
  nat_Eq, SetPackage, if◌then◌else◌,
}
use kertical.Forwarding.Types.{Protocol, tcp, udp, other}
use kertical.Controllers.Ports.{ServicePort, EndpointPort, Wanted}
use kertical.Controllers.Proxy.{
  StringMap, Backend, ProxyService, ProxyBackend, ProxyRule, ProxyIngress, ExternalProxy,
}
use kertical.Webhooks.{
  child, Place, Problem, required, duplicate, not_supported, invalid, Library, under, nth,
  invalid_each, and_also,
}
use kertical.Webhooks.Kubernetes.{
  is_empty, problem_if, IngressValidationOptions, validate_dns1123_label, validate_qualified_name,
  validate_port_num_or_name, validate_ingress_tls, validate_ingress_backend, validate_ingress_rules,
  validate_endpoint_ip,
}

-- `ingressValidationOpts` of the validator, and the zero value
abbrev pub strict : IngressValidationOptions
strict = record { allow_invalid_secret_name = false; allow_invalid_wildcard_host_rule = false }

supported : Protocol → Bool
supported tcp = true
supported udp = true
supported (other s) = s == "SCTP"

is_unset : Protocol → Bool
is_unset tcp = false
is_unset udp = false
is_unset (other s) = is_empty s

abbrev pub required_if_none : {A : Type 0} → List A → Place → List Problem
required_if_none [] place = required place ∷ []
required_if_none (x ∷ xs) place = []

module _ (sets : SetPackage String) (lib : Library) where
  open sets use {Set, insert, has, new}
  open lib use {
    name_is_dns_subdomain, is_valid_port_num, is_service_name, annotations_errors, labels_errors,
  }

  -- A name, checked and looked up in the set of those before it, with the set after it.
  unfoldable pub named : String → Place → Set → List Problem × Set
  named name place seen = (
    validate_dns1123_label lib name (under place "name")
        ++ problem_if (has name seen) (duplicate (under place "name")),
    if has name seen then seen else insert name seen,
  )

  endpoint_port_name : Option String → Place → Set → List Problem × Set
  unfolding named
  endpoint_port_name none place seen = ([], seen)
  endpoint_port_name (some name) place seen =
      if is_empty name then ([], seen) else named name place seen

  endpoint_port_protocol : Option Protocol → Place → List Problem
  unfolding supported
  endpoint_port_protocol none place = required place ∷ []
  endpoint_port_protocol (some p) place = problem_if (not (supported p)) (not_supported place)

  app_protocol_problems : Option String → Place → List Problem
  app_protocol_problems none place = []
  app_protocol_problems (some name) place = validate_qualified_name lib name place

  -- validateExternalProxyBackendPorts, whose places have `ports` twice
  backend_ports_from : Place → ℕ → Set → List EndpointPort → List Problem
  unfolding endpoint_port_name endpoint_port_protocol app_protocol_problems
  backend_ports_from place i seen [] = []
  backend_ports_from place i seen (p ∷ ps) =
      let at = nth (under place "ports") i in
      let (problems, seen') = endpoint_port_name p.name at seen in
      problems
      ++ (endpoint_port_protocol p.protocol (under at "protocol")
          ++ (app_protocol_problems p.app_protocol (under at "appProtocol")
              ++ backend_ports_from place (i + 1) seen' ps))

  addresses_from : Place → ℕ → List String → List Problem
  addresses_from place i [] = []
  addresses_from place i (a ∷ rest) =
      validate_endpoint_ip lib a (under (nth (under place "addresses") i) "ip")
      ++ addresses_from place (i + 1) rest

  backends_from : Place → ℕ → List Backend → List Problem
  unfolding addresses_from backend_ports_from
  backends_from place i [] = []
  backends_from place i (b ∷ bs) =
      let at = nth place i in
      required_if_none b.addresses (under at "addresses")
      ++ (required_if_none b.ports (under at "ports")
          ++ (addresses_from at 0 b.addresses
              ++ (backend_ports_from (under at "ports") 0 (new []) b.ports
                  ++ backends_from place (i + 1) bs)))

  unfoldable pub validate_backends : List Backend → Place → List Problem
  unfolding backends_from
  validate_backends backends place =
      required_if_none backends place ++ backends_from place 0 backends

  -- The two functions for metadata
  unfoldable pub validate_meta :
      (name : String) → (annotations labels : StringMap) → Place → List Problem
  validate_meta name annotations labels place =
      invalid_each (under place "name") (is_service_name name)
      ++ (annotations_errors (under place "annotations") annotations
          ++ labels_errors (under place "labels") labels)

  unfoldable pub service_port_name :
      (require_name : Bool) → String → Place → Set → List Problem × Set
  unfolding named
  service_port_name require_name name place seen =
      if is_empty name
      then ((if require_name then required (under place "name") ∷ [] else []), seen)
      else named name place seen

  service_port_protocol : Protocol → Place → List Problem
  unfolding supported is_unset
  service_port_protocol p place =
      if is_unset p
      then required place ∷ []
      else problem_if (not (supported p)) (not_supported place)

  -- The rest of validateExternalProxyServicePort
  unfoldable pub service_port_problems : Place → ServicePort → List Problem
  unfolding service_port_protocol app_protocol_problems
  service_port_problems at p =
      invalid_each (under at "port") (is_valid_port_num p.port)
      ++ (service_port_protocol p.protocol (under at "protocol")
          ++ (validate_port_num_or_name lib p.target_port (under at "targetPort")
              ++ app_protocol_problems p.app_protocol (under at "appProtocol")))

  -- The loop over the ports of validateExternalProxyService
  unfoldable pub service_ports_from :
      (require_name : Bool) → Place → ℕ → Set → List ServicePort → List Problem
  unfolding service_port_name service_port_problems
  service_ports_from require_name place i seen [] = []
  service_ports_from require_name place i seen (p ∷ ps) =
      let at = nth (under place "ports") i in
      let (problems, seen') = service_port_name require_name p.name at seen in
      problems
      ++ (service_port_problems at p ++ service_ports_from require_name place (i + 1) seen' ps)

  unfoldable pub several : {A : Type 0} → List A → Bool
  several [] = false
  several (x ∷ []) = false
  several (x ∷ y ∷ ys) = true

  unfoldable pub validate_service : ProxyService → Place → List Problem
  unfolding validate_meta service_ports_from several
  validate_service s place =
      validate_meta s.name s.annotations s.labels (under place "metadata")
      ++ (required_if_none s.ports (under place "ports")
          ++ service_ports_from (several s.ports) place 0 (new []) s.ports)

  class_problems : Option String → Place → List Problem
  class_problems none place = []
  class_problems (some name) place = invalid_each place (name_is_dns_subdomain name)

  default_problems : Option ProxyBackend → Place → List Problem
  default_problems none place = []
  default_problems (some b) place = validate_ingress_backend lib b place

  abbrev neither : List ProxyRule → Option ProxyBackend → Place → List Problem
  neither [] none place = invalid place "either `defaultBackend` or `rules` must be specified" ∷ []
  neither [] (some b) place = []
  neither (r ∷ rs) backend place = []

  unfoldable pub validate_ingress : ProxyIngress → Place → Option (List Problem)
  unfolding validate_meta class_problems default_problems
  validate_ingress i place =
      and_also
        (some (
          validate_meta i.name i.annotations i.labels (under place "metadata")
          ++ (class_problems i.class_name (under place "ingressClassName")
              ++ (default_problems i.default_backend (under place "defaultBackend")
                  ++ (neither i.rules i.default_backend place
                      ++ validate_ingress_tls lib strict i.tls (under place "tls"))))))
        (validate_ingress_rules lib strict i.rules (under place "rules"))

  unfoldable pub ingress_problems : Option ProxyIngress → Place → Option (List Problem)
  ingress_problems none place = some []
  ingress_problems (some i) place = validate_ingress i place

  -- validateExternalProxySpec; the object is refused if there are errors.
  unfoldable pub validate_external_proxy : ExternalProxy → Option (List Problem)
  unfolding ingress_problems validate_backends validate_service
  validate_external_proxy p =
      and_also
        (some (
          validate_backends p.backends (child "spec" ∷ child "backends" ∷ [])
          ++ validate_service p.service (child "spec" ∷ child "service" ∷ [])))
        (ingress_problems p.ingress (child "spec" ∷ child "ingress" ∷ []))

-- validatePortForwarding
unfoldable pub validate_port_forwarding : (service_name : String) → List Wanted → List Problem
validate_port_forwarding service_name ports =
    problem_if (is_empty service_name)
      (required (child "spec" ∷ child "serviceRef" ∷ child "name" ∷ []))
    ++ required_if_none ports (child "spec" ∷ child "ports" ∷ [])
