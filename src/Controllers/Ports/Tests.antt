-- ===== src/Controllers/Ports/Tests.antt =====
-- A service whose port has moved, and a node that forwards two ports.
use kertical.Prelude.{ℕ, String, none, some, List, [], ◌∷◌, ◌≡◌, refl}
use kertical.Forwarding.Types.{tcp}
use kertical.Controllers.Ports.{
  from_int, Service, ForwardedPort, Wanted, ready, sync_forwarding_ports, find_service_port,
  look_up, same_port, wanted_port, target_hosts_of,
}
use kertical.Controllers.Ports.Unnamed.{find_service_port-unnamed}

abbrev sorted : List String → List String
sorted hosts = hosts

abbrev service : Service
service = record {
  cluster_ip = "10.1.0.1";
  ports =
      record {
        name = "web";
        protocol = tcp;
        port = 8080;
        target_port = from_int 80;
        app_protocol = none;
      }
      ∷ [];
}

abbrev forwarded_at : ℕ → ForwardedPort
forwarded_at port = record {
  protocol = tcp;
  source_port = from_int port;
  target_hosts = "10.1.0.1" ∷ [];
  target_port = port;
  state = ready;
}

abbrev spec : List Wanted
spec =
    record { target = from_int 8080; host_port = some 80 }
    ∷ record { target = from_int 9; host_port = none }
    ∷ []

-- The service port is 8080, the rule goes to 80, and it is left as it is.
moved_unchanged :
    (sync_forwarding_ports sorted spec (forwarded_at 80 ∷ []) service []).unchanged
    ≡ forwarded_at 80 ∷ []
unfolding sync_forwarding_ports find_service_port look_up same_port wanted_port target_hosts_of
moved_unchanged = refl

abbrev unnamed_service : Service
unnamed_service = record {
  cluster_ip = "10.1.0.1";
  ports =
      record {
        name = "";
        protocol = tcp;
        port = 8080;
        target_port = from_int 80;
        app_protocol = none;
      }
      ∷ [];
}

find_service_port-unnamed_example :
    find_service_port unnamed_service (from_int 9) []
    ≡ some (record {
      name = "";
      protocol = tcp;
      port = 8080;
      target_port = from_int 80;
      app_protocol = none;
    })
find_service_port-unnamed_example =
    find_service_port-unnamed unnamed_service
      (record {
        name = "";
        protocol = tcp;
        port = 8080;
        target_port = from_int 80;
        app_protocol = none;
      })
      [] 9 [] refl refl refl
