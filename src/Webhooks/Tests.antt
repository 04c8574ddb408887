-- ===== src/Webhooks/Tests.antt =====
-- A resource that passes the checks of a library which finds no value wrong.
use kertical.Prelude.{
  ℕ, String, string_Eq, true, false, ◌≡◌, refl, Option, none, some, List, [], ◌∷◌, list_sets,
  nat_Eq, All,
}
use kertical.Forwarding.Types.{Protocol, tcp, udp}
use kertical.Controllers.Ports.{from_int, ServicePort, EndpointPort}
use kertical.Controllers.Proxy.{ProxyIngress, ExternalProxy}
use kertical.Controllers.Proxy.Build.{new_ingress}
use kertical.Webhooks.{Library, and_also, invalid_each}
use kertical.Webhooks.Kubernetes.{
  validate_dns1123_label, validate_port_num_or_name, validate_ingress_backend,
  validate_ingress_rules, validate_endpoint_ip, validate_ingress_tls,
}
use kertical.Webhooks.Validation.{validate_external_proxy, validate_ingress, several}
use kertical.Webhooks.Accepted.{HasPaths, IsGiven, new_ingress-IsGiven}
use kertical.Webhooks.Unique.{Unique, validate_external_proxy-Unique}
use kertical.Webhooks.Defaults.{apply_defaults, ports_of}
use kertical.Controllers.Proxy.{StringMap}
use kertical.Webhooks.Default.{Admission, last_applied_configuration, with_spec, default}
use kertical.Webhooks.Applied.{default-applied}
use kertical.Webhooks.Defaults.Again.{apply_defaults-again}

abbrev fine : {A : Type 0} → A → List String
fine value = []

abbrev lenient : Library
lenient = record {
  is_dns1123_label = fine;
  is_dns1123_subdomain = fine;
  is_wildcard_subdomain = fine;
  is_qualified_name = fine;
  is_valid_port_name = fine;
  is_valid_port_num = fine;
  name_is_dns_subdomain = fine;
  is_service_name = fine;
  annotations_errors = λ place map. [];
  labels_errors = λ place map. [];
  parse_ip_sloppy = λ text. some (record {
    is_unspecified = false;
    is_loopback = false;
    is_link_local_unicast = false;
    is_link_local_multicast = false;
  });
  contains = λ text part. false;
  has_prefix = λ text part. true;
  has_suffix = λ text part. false;
}

abbrev port_named : String → Protocol → ℕ → ServicePort
port_named name protocol port = record {
  name = name;
  protocol = protocol;
  port = port;
  target_port = from_int port;
  app_protocol = none;
}

-- The host of the rule is empty: the library of the test reads every text as an address.
abbrev web_ingress : ProxyIngress
web_ingress = record {
  name = "web";
  labels = none;
  annotations = none;
  class_name = none;
  default_backend = none;
  tls = [];
  rules =
      record {
        host = "";
        paths = some (
            record {
              path = "/";
              path_type = some "Exact";
              backend = some (record { port_name = ""; port_number = 80 });
            }
            ∷ []);
      }
      ∷ [];
}

abbrev web_port : EndpointPort
web_port = record { name = some "web"; protocol = some tcp; port = some 80; app_protocol = none }

abbrev proxy : ExternalProxy
proxy = record {
  key = record { namespace = "default"; name = "web" };
  uid = "u1";
  generation = 1;
  backends = record { addresses = "10.0.0.1" ∷ []; ports = web_port ∷ [] } ∷ [];
  service = record {
    name = "web";
    labels = none;
    annotations = none;
    service_type = "ClusterIP";
    ports = port_named "web" tcp 80 ∷ port_named "dns" udp 53 ∷ [];
  };
  ingress = some web_ingress;
  status = record { is_ready = false; service_name = ""; observed_generation = 0 };
}

proxy_accepted : validate_external_proxy list_sets lenient proxy ≡ some []
unfolding validate_external_proxy and_also validate_ingress validate_ingress_rules
    validate_endpoint_ip validate_dns1123_label invalid_each validate_port_num_or_name
    validate_ingress_tls validate_ingress_backend
proxy_accepted = refl

abbrev print : ℕ → String
print n = "1"

abbrev parse : String → Option String
parse text = some text

abbrev slice_name : String → ℕ → String → String
slice_name service index suffix = suffix

new_ingress-IsGiven_example :
    All (λ r. HasPaths r.paths) web_ingress.rules
    × IsGiven (new_ingress print parse parse slice_name proxy web_ingress)
new_ingress-IsGiven_example =
    new_ingress-IsGiven list_sets lenient print parse parse slice_name proxy web_ingress refl
      proxy_accepted

validate_external_proxy-Unique_example :
    Unique (several list_sets lenient proxy.service.ports) proxy.service.ports
validate_external_proxy-Unique_example =
    validate_external_proxy-Unique list_sets lenient proxy proxy_accepted

-- With no ports of the Service, no name and no rules
abbrev short_proxy : ExternalProxy
short_proxy = record proxy {
  service = record proxy.service { name = ""; service_type = ""; ports = [] };
  ingress = some (record web_ingress { name = ""; rules = [] });
}

abbrev full_proxy : ExternalProxy
full_proxy = record proxy {
  service = record proxy.service {
    ports =
        record {
          name = "web";
          protocol = tcp;
          port = 80;
          target_port = record { is_string = true; int_val = 0; str_val = "web" };
          app_protocol = none;
        }
        ∷ [];
  };
  ingress = some (record web_ingress {
    default_backend = some (record { port_name = ""; port_number = 80 });
    rules = [];
  });
}

short_proxy_filled : apply_defaults short_proxy ≡ some full_proxy
unfolding apply_defaults ports_of
short_proxy_filled = refl

apply_defaults-again_example : apply_defaults full_proxy ≡ some full_proxy
apply_defaults-again_example = apply_defaults-again short_proxy full_proxy short_proxy_filled

abbrev apply_request : Admission
apply_request = record { is_update = true; field_manager = some "kubectl-client-side-apply" }

abbrev annotations : StringMap
annotations = some (("kubectl.kubernetes.io/last-applied-configuration", "{}") ∷ [])

abbrev decode : String → Option ExternalProxy
decode text = some short_proxy

default-applied_example :
    default decode (some apply_request) annotations full_proxy
    ≡ default decode (some apply_request) annotations (with_spec full_proxy proxy)
unfolding last_applied_configuration
default-applied_example =
    default-applied decode apply_request annotations full_proxy short_proxy proxy "{}" refl refl
      refl refl
