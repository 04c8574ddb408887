-- ===== src/Webhooks.antt =====
-- internal/webhook: what the webhooks of the API check and fill in. An error is its kind with its place; the
-- wording of a message is the library's or left out.
pub mod Kubernetes
pub mod Validation
pub mod Defaults
pub mod Default
pub mod Applied
pub mod Accepted
pub mod Unique
mod Tests
use kertical.Prelude.{ℕ, String, Bool, Option, none, some, List, [], ◌∷◌, ◌++◌}
use kertical.Controllers.Proxy.{StringMap}

pub data Segment : Type 0 where
  child : String → Segment
  index : ℕ → Segment

-- field.Path, from the root
abbrev pub Place : Type 0
Place = List Segment

pub data Problem : Type 0 where
  required duplicate not_supported : Place → Problem
  invalid : Place → (message : String) → Problem

-- A parsed address, with what net.IP says of it
pub record Address : Type 0 where
  pub is_unspecified : Bool
  pub is_loopback : Bool
  pub is_link_local_unicast : Bool
  pub is_link_local_multicast : Bool

-- The functions of k8s.io/apimachinery, k8s.io/utils and strings that the checks call; a list of messages is
-- empty for a value that is fine.
pub record Library : Type 0 where
  pub is_dns1123_label : String → List String
  pub is_dns1123_subdomain : String → List String
  pub is_wildcard_subdomain : String → List String
  pub is_qualified_name : String → List String
  pub is_valid_port_name : String → List String
  pub is_valid_port_num : ℕ → List String
  pub name_is_dns_subdomain : String → List String
  pub is_service_name : String → List String
  pub annotations_errors : Place → StringMap → List Problem
  pub labels_errors : Place → StringMap → List Problem
  pub parse_ip_sloppy : String → Option Address
  pub contains : (text part : String) → Bool
  pub has_prefix : (text part : String) → Bool
  pub has_suffix : (text part : String) → Bool

abbrev pub under : Place → String → Place
under place name = place ++ (child name ∷ [])

abbrev pub nth : Place → ℕ → Place
nth place i = place ++ (index i ∷ [])

-- field.Invalid for each message
unfoldable pub invalid_each : Place → List String → List Problem
invalid_each place [] = []
invalid_each place (m ∷ ms) = invalid place m ∷ invalid_each place ms

-- The errors of two checks; a panic of either is a panic.
unfoldable pub and_also : Option (List Problem) → Option (List Problem) → Option (List Problem)
and_also none second = none
and_also (some es) none = none
and_also (some es) (some fs) = some (es ++ fs)
