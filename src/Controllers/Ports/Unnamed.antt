-- ===== src/Controllers/Ports/Unnamed.antt =====
-- A target that is a number, and a service port that has no name.
use native.Mathlib.Omega.{arith}
use kertical.Prelude.{ℕ, true, false, some, List, ◌∷◌, ◌≡◌, refl, ap, ◌∙◌, ◌==◌, string_Eq, nat_Eq}
use kertical.Controllers.Ports.{
  IntOrString, from_int, Service, ServicePort, EndpointSlice, find_service_port, chosen_port,
  is_headless, find_port,
}

chosen_plain :
    (svc : Service) (p : ServicePort) (slices : List EndpointSlice)
    → is_headless svc ≡ false
    → chosen_port svc p slices ≡ some p
unfolding chosen_port
chosen_plain svc p slices plain = rw (plain, chosen_port) refl

find_named :
    (svc : Service) (target : IntOrString) (slices : List EndpointSlice) (p : ServicePort)
    (ps : List ServicePort)
    → (p.name == target.str_val) ≡ true
    → find_port svc target slices (p ∷ ps) ≡ chosen_port svc p slices
unfolding find_port
find_named svc target slices p ps named = ground (arith, named)

-- In a service with a cluster address whose first port has no name, a target that is a number is found
-- to be that port, whatever number it is and whatever ports follow.
pub find_service_port-unnamed :
    (svc : Service) (p : ServicePort) (ps : List ServicePort) (n : ℕ) (slices : List EndpointSlice)
    → svc.ports ≡ p ∷ ps
    → p.name ≡ ""
    → is_headless svc ≡ false
    → find_service_port svc (from_int n) slices ≡ some p
unfolding find_service_port
find_service_port-unnamed svc p ps n slices e unnamed plain =
    ap (λ ports. find_port svc (from_int n) slices ports) e
    ∙ (find_named svc (from_int n) slices p ps (ap (λ name. name == "") unnamed)
        ∙ chosen_plain svc p slices plain)
