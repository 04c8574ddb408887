-- ===== src/Controllers/Proxy.antt =====
-- api/networking/v1alpha1/externalproxy_types.go and what internal/controller/networking/externalproxy
-- reads and writes of a Service, an EndpointSlice and an Ingress.
pub mod Build
pub mod Revision
pub mod Kinds
pub mod Sync
pub mod Reconcile
pub mod Keeping
pub mod Waiting
pub mod Listed
pub mod Contents
pub mod Stored
pub mod Slices
pub mod Synced
pub mod Resolve
mod Tests
use kertical.Prelude.{
  ℕ, String, Bool, true, false, Option, none, some, List, [], ◌∷◌, ◌==◌, string_Eq, if◌then◌else◌,
}
use kertical.Events.{Request}
use kertical.Controllers.Ports.{ServicePort, EndpointPort}

-- A map[string]string: nil, or its entries.
abbrev pub StringMap : Type 0
StringMap = Option (List (String × String))

-- metav1.ObjectMeta; `created` orders the creation timestamps, `owner` is the UID of the controller.
pub record Meta : Type 0 where
  pub name : String
  pub namespace : String
  pub uid : String
  pub labels : StringMap
  pub annotations : StringMap
  pub deleting : Bool
  pub created : ℕ
  pub owner : Option String

pub record Object (S : Type 0) : Type 0 where
  pub meta : Meta
  pub spec : S

-- `others`: what the program leaves as it is.
pub record ServiceSpec : Type 0 where
  pub service_type : String
  pub ports : List ServicePort
  pub others : String

pub data AddressType : Type 0 where
  no_type ipv4 ipv6 : AddressType

-- The body of an EndpointSlice; an endpoint is its addresses and the condition `Ready`.
pub record SliceSpec : Type 0 where
  pub address_type : AddressType
  pub endpoints : List (List String × Bool)
  pub ports : List EndpointPort

pub record Tls : Type 0 where
  pub hosts : List String
  pub secret_name : String

-- networkingv1.IngressBackend, which always has a service.
pub record IngressBackend : Type 0 where
  pub service_name : String
  pub port_name : String
  pub port_number : ℕ

pub record IngressPath : Type 0 where
  pub path : String
  pub path_type : Option String
  pub backend : IngressBackend

pub record IngressRule : Type 0 where
  pub host : String
  pub paths : List IngressPath

pub record IngressSpec : Type 0 where
  pub class_name : Option String
  pub default_backend : Option IngressBackend
  pub tls : List Tls
  pub rules : List IngressRule

-- ExternalProxyBackend, with the addresses as texts
pub record Backend : Type 0 where
  pub addresses : List String
  pub ports : List EndpointPort

-- ExternalProxyService with its metadata
pub record ProxyService : Type 0 where
  pub name : String
  pub labels : StringMap
  pub annotations : StringMap
  pub service_type : String
  pub ports : List ServicePort

-- ExternalProxyIngressBackend, with its port
pub record ProxyBackend : Type 0 where
  pub port_name : String
  pub port_number : ℕ

pub record ProxyPath : Type 0 where
  pub path : String
  pub path_type : Option String
  pub backend : Option ProxyBackend

-- `paths` is none for a rule whose HTTP is nil.
pub record ProxyRule : Type 0 where
  pub host : String
  pub paths : Option (List ProxyPath)

pub record ProxyIngress : Type 0 where
  pub name : String
  pub labels : StringMap
  pub annotations : StringMap
  pub class_name : Option String
  pub default_backend : Option ProxyBackend
  pub tls : List Tls
  pub rules : List ProxyRule

pub record ProxyStatus : Type 0 where
  pub is_ready : Bool
  pub service_name : String
  pub observed_generation : ℕ

pub record ExternalProxy : Type 0 where
  pub key : Request
  pub uid : String
  pub generation : ℕ
  pub backends : List Backend
  pub service : ProxyService
  pub ingress : Option ProxyIngress
  pub status : ProxyStatus

-- m[key]
unfoldable pub entry : String → List (String × String) → Option String
entry key [] = none
entry key ((k, v) ∷ m) = if k == key then some v else entry key m

abbrev pub or_empty : Option String → String
or_empty none = ""
or_empty (some v) = v

-- The value of a map that may be nil, with the empty text for a missing key.
unfoldable pub value_of : String → StringMap → String
unfolding entry
value_of key none = ""
value_of key (some m) = or_empty (entry key m)

unfoldable pub drop_entry : String → List (String × String) → List (String × String)
drop_entry key [] = []
drop_entry key ((k, v) ∷ m) =
    let rest = drop_entry key m in if k == key then rest else (k, v) ∷ rest

-- m[key] = value
unfoldable pub put : String → String → List (String × String) → List (String × String)
unfolding drop_entry
put key value m = (key, value) ∷ drop_entry key m

unfoldable pub put_all : List (String × String) → List (String × String) → List (String × String)
unfolding put
put_all m [] = m
put_all m ((k, v) ∷ entries) = put_all (put k v m) entries

-- maps.Copy, or none where it panics: an entry is written to a nil map.
unfoldable pub copy_map : StringMap → StringMap → Option StringMap
unfolding put_all
copy_map target none = some target
copy_map target (some []) = some target
copy_map none (some (e ∷ entries)) = none
copy_map (some m) (some (e ∷ entries)) = some (some (put_all m (e ∷ entries)))
