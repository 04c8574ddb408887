-- ===== src/Controllers/Proxy/Build.antt =====
-- internal/controller/networking/externalproxy/externalproxy.go: the objects that an ExternalProxy asks for.
pub mod Revised
use kertical.Prelude.{
  ℕ, ◌+◌, String, Bool, true, false, not, Option, none, some, List, [], ◌∷◌, ◌++◌, ◌==◌, string_Eq,
}
use kertical.Events.{Request}
use kertical.Controllers.Proxy.{
  StringMap, Meta, Object, ServiceSpec, AddressType, no_type, ipv4, ipv6, SliceSpec, IngressBackend,
  IngressPath, IngressRule, IngressSpec, Backend, ProxyBackend, ProxyPath, ProxyRule, ProxyIngress,
  ExternalProxy, value_of, put,
}

-- ExternalProxyRevisionAnnotationKey
abbrev pub revision_key : String
revision_key = "networking.kertical.com/external-proxy-revision"

abbrev pub new_meta : (namespace name : String) → StringMap → StringMap → Meta
new_meta namespace name labels annotations = record {
  name = name;
  namespace = namespace;
  uid = "";
  labels = labels;
  annotations = annotations;
  deleting = false;
  created = 0;
  owner = none;
}

-- ServiceKey
abbrev pub service_key : ExternalProxy → Request
service_key p = record { namespace = p.key.namespace; name = p.service.name }

-- `print` is strconv.FormatInt in base 10, for a generation; `parse4` and `parse6` are net.ParseIP followed by
-- To4, or by the test that To4 gives nil, and the text of the address; `slice_name` prints the name.
module _ (print : ℕ → String) (parse4 parse6 : String → Option String)
    (slice_name : (service : String) → (index : ℕ) → (suffix : String) → String) where
  unfoldable pub annotated : String → StringMap → StringMap
  annotated revision none = some (put revision_key revision [])
  annotated revision (some m) = some (put revision_key revision m)

  -- InjectExternalProxyRevision
  unfoldable pub inject_revision : {S : Type 0} → ExternalProxy → Object S → Object S
  unfolding annotated
  inject_revision p o = record o {
    meta = record o.meta { annotations = annotated (print p.generation) o.meta.annotations };
  }

  -- ShouldReconcileResource
  unfoldable pub should_reconcile : {S : Type 0} → ExternalProxy → Object S → Bool
  should_reconcile p o = not (value_of revision_key o.meta.annotations == print p.generation)

  -- NewService, before the revision is set
  abbrev pub service_of : ExternalProxy → Object ServiceSpec
  service_of p = record {
    meta = new_meta p.key.namespace p.service.name p.service.labels p.service.annotations;
    spec = record { service_type = p.service.service_type; ports = p.service.ports; others = "" };
  }

  unfoldable pub new_service : ExternalProxy → Object ServiceSpec
  unfolding inject_revision
  new_service p = inject_revision p (service_of p)

  -- The loop over the addresses of NewEndpointSliceFromBackend; `filter` gives the text of the address.
  endpoints_of : (filter : String → Option String) → List String → List (List String × Bool)
  endpoints_of filter [] = []
  endpoints_of filter (a ∷ rest) = elim (filter a) [
    | none ↦ endpoints_of filter rest
    | some ip ↦ (ip ∷ [], true) ∷ endpoints_of filter rest
  ]

  -- NewEndpointSliceFromBackend
  new_endpoint_slice_from_backend :
      (name : String) → Backend → (filter : String → Option String) → Object SliceSpec
  unfolding endpoints_of
  new_endpoint_slice_from_backend name b filter = record {
    meta = new_meta "" name none none;
    spec = record {
      address_type = no_type;
      endpoints = endpoints_of filter b.addresses;
      ports = b.ports;
    };
  }

  -- The slice of one address type, if it has endpoints.
  typed_slice : ExternalProxy → AddressType → Object SliceSpec → List (Object SliceSpec)
  unfolding inject_revision
  typed_slice p type o = elim o.spec.endpoints [
    | [] ↦ []
    | e ∷ es ↦ inject_revision p (record o { spec = record o.spec { address_type = type } }) ∷ []
  ]

  slices_from : ExternalProxy → (index : ℕ) → List Backend → List (Object SliceSpec)
  unfolding typed_slice new_endpoint_slice_from_backend
  slices_from p index [] = []
  slices_from p index (b ∷ bs) =
      typed_slice p ipv4
        (new_endpoint_slice_from_backend (slice_name p.service.name index "v4") b parse4)
      ++ (typed_slice p ipv6
            (new_endpoint_slice_from_backend (slice_name p.service.name index "v6") b parse6)
          ++ slices_from p (index + 1) bs)

  -- The last loop of NewEndpointSlices; `controller` is the name of the controller.
  label_slices :
      (controller : String) → ExternalProxy → List (Object SliceSpec) → List (Object SliceSpec)
  label_slices controller p [] = []
  label_slices controller p (o ∷ os) =
      record o {
        meta = record o.meta {
          namespace = p.key.namespace;
          labels = some (
              ("endpointslice.kubernetes.io/managed-by", controller)
              ∷ ("kubernetes.io/service-name", p.service.name)
              ∷ []);
        };
      }
      ∷ label_slices controller p os

  unfoldable pub new_endpoint_slices :
      (controller : String) → ExternalProxy → List (Object SliceSpec)
  unfolding label_slices slices_from
  new_endpoint_slices controller p = label_slices controller p (slices_from p 0 p.backends)

  -- toIngressBackend
  to_ingress_backend : ExternalProxy → ProxyBackend → IngressBackend
  to_ingress_backend p b = record {
    service_name = p.service.name;
    port_name = b.port_name;
    port_number = b.port_number;
  }

  default_of : ExternalProxy → Option ProxyBackend → Option IngressBackend
  unfolding to_ingress_backend
  default_of p none = none
  default_of p (some b) = some (to_ingress_backend p b)

  -- The loops over rules and paths; none where a nil HTTP or a nil backend is read.
  unfoldable pub path_with :
      ExternalProxy
      → ProxyPath
      → Option ProxyBackend
      → Option (List IngressPath)
      → Option (List IngressPath)
  unfolding to_ingress_backend
  path_with p x none rest = none
  path_with p x (some b) none = none
  path_with p x (some b) (some rest) =
      some
        (record { path = x.path; path_type = x.path_type; backend = to_ingress_backend p b } ∷ rest)

  unfoldable pub paths_of : ExternalProxy → List ProxyPath → Option (List IngressPath)
  unfolding path_with
  paths_of p [] = some []
  paths_of p (x ∷ xs) = path_with p x x.backend (paths_of p xs)

  unfoldable pub rule_paths : ExternalProxy → Option (List ProxyPath) → Option (List IngressPath)
  unfolding paths_of
  rule_paths p none = none
  rule_paths p (some xs) = paths_of p xs

  unfoldable pub rule_with :
      ProxyRule → Option (List IngressPath) → Option (List IngressRule) → Option (List IngressRule)
  rule_with r none rest = none
  rule_with r (some ys) none = none
  rule_with r (some ys) (some rest) = some (record { host = r.host; paths = ys } ∷ rest)

  unfoldable pub rules_of : ExternalProxy → List ProxyRule → Option (List IngressRule)
  unfolding rule_with rule_paths
  rules_of p [] = some []
  rules_of p (r ∷ rs) = rule_with r (rule_paths p r.paths) (rules_of p rs)

  unfoldable pub ingress_with :
      ExternalProxy → ProxyIngress → Option (List IngressRule) → Option (Object IngressSpec)
  unfolding default_of inject_revision
  ingress_with p i none = none
  ingress_with p i (some rules) = some (
      inject_revision p (record {
        meta = new_meta p.key.namespace i.name i.labels i.annotations;
        spec = record {
          class_name = i.class_name;
          default_backend = default_of p i.default_backend;
          tls = i.tls;
          rules = rules;
        };
      }))

  -- NewIngress for the ingress of the specification; none where it panics.
  unfoldable pub new_ingress : ExternalProxy → ProxyIngress → Option (Object IngressSpec)
  unfolding ingress_with rules_of
  new_ingress p i = ingress_with p i (rules_of p i.rules)
