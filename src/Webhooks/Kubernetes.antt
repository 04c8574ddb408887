-- ===== src/Webhooks/Kubernetes.antt =====
-- internal/webhook/validation/kubernetes.go. Where a nil pointer is read the result is none.
use kertical.Prelude.{
  ℕ, ◌+◌, String, Bool, true, false, not, ◌&&◌, ◌||◌, Option, none, some, List, [], ◌∷◌, ◌++◌, ◌==◌,
  string_Eq, nat_Eq, if◌then◌else◌,
}
use kertical.Controllers.Ports.{IntOrString}
use kertical.Controllers.Proxy.{Tls, ProxyBackend, ProxyPath, ProxyRule}
use kertical.Webhooks.{
  Place, Problem, required, not_supported, invalid, Address, Library, under, nth, invalid_each,
  and_also,
}

abbrev pub is_empty : String → Bool
is_empty text = text == ""

-- IngressValidationOptions
pub record IngressValidationOptions : Type 0 where
  pub allow_invalid_secret_name : Bool
  pub allow_invalid_wildcard_host_rule : Bool

abbrev pub problem_if : Bool → Problem → List Problem
problem_if b p = if b then p ∷ [] else []

module _ (lib : Library) where
  open lib use {
    is_dns1123_label, is_dns1123_subdomain, is_wildcard_subdomain, is_qualified_name,
    is_valid_port_name, is_valid_port_num, name_is_dns_subdomain, parse_ip_sloppy, contains,
    has_prefix, has_suffix,
  }

  unfoldable pub validate_dns1123_label : String → Place → List Problem
  validate_dns1123_label value place = invalid_each place (is_dns1123_label value)

  unfoldable pub validate_qualified_name : String → Place → List Problem
  validate_qualified_name value place = invalid_each place (is_qualified_name value)

  -- A value is a number or a text.
  unfoldable pub validate_port_num_or_name : IntOrString → Place → List Problem
  validate_port_num_or_name port place =
      if port.is_string
      then invalid_each place (is_valid_port_name port.str_val)
      else invalid_each place (is_valid_port_num port.int_val)

  -- A host of a TLS entry or a rule
  host_messages : String → List String
  host_messages host =
      if contains host "*" then is_wildcard_subdomain host else is_dns1123_subdomain host

  validate_tls_hosts : Place → ℕ → List String → List Problem
  unfolding host_messages
  validate_tls_hosts place i [] = []
  validate_tls_hosts place i (host ∷ hosts) =
      invalid_each (nth (under place "hosts") i) (host_messages host)
      ++ validate_tls_hosts place (i + 1) hosts

  validate_tls_secret_name : String → List String
  validate_tls_secret_name name = if is_empty name then [] else name_is_dns_subdomain name

  validate_tls_from : IngressValidationOptions → Place → ℕ → List Tls → List Problem
  unfolding validate_tls_hosts validate_tls_secret_name
  validate_tls_from opts place i [] = []
  validate_tls_from opts place i (t ∷ ts) =
      validate_tls_hosts (nth place i) 0 t.hosts
      ++ ((if opts.allow_invalid_secret_name
            then []
            else invalid_each (under (nth place i) "secretName")
                (validate_tls_secret_name t.secret_name))
          ++ validate_tls_from opts place (i + 1) ts)

  unfoldable pub validate_ingress_tls : IngressValidationOptions → List Tls → Place → List Problem
  unfolding validate_tls_from
  validate_ingress_tls opts tls place = validate_tls_from opts place 0 tls

  unfoldable pub validate_ingress_backend : ProxyBackend → Place → List Problem
  validate_ingress_backend b place =
      let has_name = not (is_empty b.port_name) in
      let has_number = not (b.port_number == 0) in
      if has_name && has_number
      then invalid place "cannot set both port name & port number" ∷ []
      else if has_name
      then invalid_each (under (under (under place "service") "port") "name")
          (is_valid_port_name b.port_name)
      else if has_number
      then invalid_each (under (under (under place "service") "port") "number")
          (is_valid_port_num b.port_number)
      else required place ∷ []

  abbrev invalid_path_sequences : List String
  invalid_path_sequences = "//" ∷ "/./" ∷ "/../" ∷ "%2f" ∷ "%2F" ∷ []

  abbrev invalid_path_suffixes : List String
  invalid_path_suffixes = "/.." ∷ "/." ∷ []

  sequence_problems : Place → String → List String → List Problem
  sequence_problems place path [] = []
  sequence_problems place path (s ∷ ss) =
      problem_if (contains path s) (invalid place s) ++ sequence_problems place path ss

  suffix_problems : Place → String → List String → List Problem
  suffix_problems place path [] = []
  suffix_problems place path (s ∷ ss) =
      problem_if (has_suffix path s) (invalid place s) ++ suffix_problems place path ss

  -- The switch over the type of a path
  path_problems : String → String → Place → List Problem
  unfolding sequence_problems suffix_problems
  path_problems path_type path place =
      let relative =
        problem_if (not (has_prefix path "/"))
          (invalid (under place "path") "must be an absolute path") in
      if path_type == "Exact" || path_type == "Prefix"
      then relative
        ++ (if is_empty path
            then []
            else sequence_problems (under place "path") path invalid_path_sequences
              ++ suffix_problems (under place "path") path invalid_path_suffixes)
      else if path_type == "ImplementationSpecific"
      then if is_empty path then [] else relative
      else not_supported (under place "pathType") ∷ []

  unfoldable pub backend_problems : Option ProxyBackend → Place → Option (List Problem)
  backend_problems none place = none
  backend_problems (some b) place = some (validate_ingress_backend b place)

  unfoldable pub typed_path_problems : Option String → ProxyPath → Place → Option (List Problem)
  unfolding path_problems backend_problems
  typed_path_problems none x place = some (required (under place "pathType") ∷ [])
  typed_path_problems (some path_type) x place =
      and_also (some (path_problems path_type x.path place))
        (backend_problems x.backend (under place "backend"))

  unfoldable pub validate_http_ingress_path : ProxyPath → Place → Option (List Problem)
  unfolding typed_path_problems
  validate_http_ingress_path x place = typed_path_problems x.path_type x place

  unfoldable pub validate_paths_from : Place → ℕ → List ProxyPath → Option (List Problem)
  unfolding validate_http_ingress_path
  validate_paths_from place i [] = some []
  validate_paths_from place i (x ∷ xs) =
      and_also (validate_http_ingress_path x (nth (under place "paths") i))
        (validate_paths_from place (i + 1) xs)

  abbrev pub none_given : {A : Type 0} → List A → Place → List Problem
  none_given [] place = required place ∷ []
  none_given (x ∷ xs) place = []

  unfoldable pub validate_http_ingress_rule_value :
      Option (List ProxyPath) → Place → Option (List Problem)
  unfolding validate_paths_from
  validate_http_ingress_rule_value none place = none
  validate_http_ingress_rule_value (some xs) place =
      and_also (some (none_given xs (under place "paths"))) (validate_paths_from place 0 xs)

  is_address : Option Address → Bool
  is_address none = false
  is_address (some a) = true

  unfoldable pub host_problems : String → Place → List Problem
  unfolding host_messages is_address
  host_problems host place =
      if is_empty host
      then []
      else problem_if (is_address (parse_ip_sloppy host))
          (invalid place "must be a DNS name, not an IP address")
        ++ invalid_each place (host_messages host)

  -- A rule whose host has a wildcard may be let through unread.
  unfoldable pub rule_problems :
      IngressValidationOptions → ProxyRule → Place → Option (List Problem)
  unfolding validate_http_ingress_rule_value
  rule_problems opts r place =
      if (not (is_empty r.host) && contains r.host "*") && opts.allow_invalid_wildcard_host_rule
      then some []
      else validate_http_ingress_rule_value r.paths place

  unfoldable pub validate_rules_from :
      IngressValidationOptions → Place → ℕ → List ProxyRule → Option (List Problem)
  unfolding host_problems rule_problems
  validate_rules_from opts place i [] = some []
  validate_rules_from opts place i (r ∷ rs) =
      and_also
        (and_also (some (host_problems r.host (under (nth place i) "host")))
          (rule_problems opts r (nth place i)))
        (validate_rules_from opts place (i + 1) rs)

  unfoldable pub validate_ingress_rules :
      IngressValidationOptions → List ProxyRule → Place → Option (List Problem)
  unfolding validate_rules_from
  validate_ingress_rules opts rules place = validate_rules_from opts place 0 rules

  address_problems : Option Address → Place → List Problem
  address_problems none place = invalid place "must be a valid IP address" ∷ []
  address_problems (some a) place =
      problem_if a.is_unspecified (invalid place "may not be unspecified")
      ++ (problem_if a.is_loopback
            (invalid place "may not be in the loopback range (127.0.0.0/8, ::1/128)")
          ++ (problem_if a.is_link_local_unicast
                (invalid place "may not be in the link-local range (169.254.0.0/16, fe80::/10)")
              ++ problem_if a.is_link_local_multicast (
                  invalid place
                    "may not be in the link-local multicast range (224.0.0.0/24, ff02::/10)")))

  unfoldable pub validate_endpoint_ip : String → Place → List Problem
  unfolding address_problems
  validate_endpoint_ip text place = address_problems (parse_ip_sloppy text) place
