-- ===== src/Controllers/Proxy/Reconcile.antt =====
-- internal/controller/networking/externalproxy_controller.go, `Reconcile`, and
-- internal/controller/networking/externalproxy/status.go.
use kertical.Prelude.{
  ℕ, ◌-◌, String, string_Eq, Bool, true, false, Option, List, leb, SetPackage, if◌then◌else◌,
}
use kertical.Events.{Request}
use kertical.Expectations.{Cache, satisfied_expectations, delete_expectations}
use kertical.Controllers.Cluster.{
  Failure, not_found, conflict, other_failure, Reply, answered, refused, Retrying, Reconciled,
  finished, requeued_after, erred, crashed,
}
use kertical.Controllers.Proxy.{
  Object, ServiceSpec, SliceSpec, IngressSpec, ProxyStatus, ExternalProxy,
}
use kertical.Controllers.Proxy.Kinds.{Ran, gives, stops, crashes, Kind}
use kertical.Controllers.Proxy.Sync.{sync_service, sync_endpoint_slices, sync_ingress}

-- The client, and what else the controller is given. `request_text` is the text of a request; `iterate` is the
-- order in which a map is ranged over.
pub record Setup (K : Type 0) : Type 1 where
  pub retrying : Retrying K
  pub get : Request → K → Reply ExternalProxy
  pub update_status : ExternalProxy → K → Reply Unit × K
  pub get_service : Request → K → Reply (Object ServiceSpec)
  pub services : Kind K ServiceSpec
  pub slices : Kind K SliceSpec
  pub ingresses : Kind K IngressSpec
  pub iterate : List (Object SliceSpec) → List (Object SliceSpec)
  pub print : ℕ → String
  pub parse4 : String → Option String
  pub parse6 : String → Option String
  pub slice_name : String → ℕ → String → String
  pub controller_name : String
  pub request_text : Request → String
  pub timeout : ℕ

-- The two readings of the clock at each of the three checks.
pub record Times : Type 0 where
  pub services : ℕ × ℕ
  pub slices : ℕ × ℕ
  pub ingresses : ℕ × ℕ

module _ (sets : SetPackage String) {K : Type 0} (setup : Setup K) where
  open setup use {
    retrying, get, get_service, iterate, print, parse4, parse6, slice_name, controller_name,
    request_text, timeout,
  }

  -- The caches of expectations, and the cluster.
  pub record Manager : Type 0 where
    pub services : Cache sets
    pub slices : Cache sets
    pub ingresses : Cache sets
    pub cluster : K

  put_status : ProxyStatus → Reply ExternalProxy → K → Reply Unit × K
  put_status status (refused e) k = (refused e, k)
  put_status status (answered p) k = setup.update_status (record p { status = status }) k

  -- UpdateStatus
  unfoldable pub update_status : Request → ProxyStatus → K → Reply Unit × K
  unfolding put_status
  update_status key status k = retrying.retry (λ k. put_status status (get key k) k) k

  unfoldable pub status_done : Manager → Reply Unit × K → Ran Manager Unit
  status_done m (answered _, k) = gives tt (record m { cluster = k })
  status_done m (refused e, k) = stops e (record m { cluster = k })

  unfoldable pub write_status : Request → ProxyStatus → Manager → Ran Manager Unit
  unfolding status_done
  write_status key status m = status_done m (update_status key status m.cluster)

  with_services : Manager → Ran (Cache sets × K) Unit → Ran Manager Unit
  with_services m (gives a (cache, k)) = gives a (record m { services = cache; cluster = k })
  with_services m (stops e (cache, k)) = stops e (record m { services = cache; cluster = k })
  with_services m crashes = crashes

  with_slices : Manager → Ran (Cache sets × K) Unit → Ran Manager Unit
  with_slices m (gives a (cache, k)) = gives a (record m { slices = cache; cluster = k })
  with_slices m (stops e (cache, k)) = stops e (record m { slices = cache; cluster = k })
  with_slices m crashes = crashes

  with_ingresses : Manager → Ran (Cache sets × K) Unit → Ran Manager Unit
  with_ingresses m (gives a (cache, k)) = gives a (record m { ingresses = cache; cluster = k })
  with_ingresses m (stops e (cache, k)) = stops e (record m { ingresses = cache; cluster = k })
  with_ingresses m crashes = crashes

  sync_services : (key : String) → ExternalProxy → Manager → Ran Manager Unit
  unfolding with_services
  sync_services key p m = with_services m (
      sync_service sets print parse4 parse6 slice_name controller_name p key setup.services
        (m.services, m.cluster))

  sync_slices : (key : String) → ExternalProxy → Manager → Ran Manager Unit
  unfolding with_slices
  sync_slices key p m = with_slices m (
      sync_endpoint_slices sets print parse4 parse6 slice_name controller_name p key setup.slices
        iterate get_service (m.slices, m.cluster))

  sync_ingresses : (key : String) → ExternalProxy → Manager → Ran Manager Unit
  unfolding with_ingresses
  sync_ingresses key p m = with_ingresses m (
      sync_ingress sets print parse4 parse6 slice_name controller_name p key setup.ingresses
        (m.ingresses, m.cluster))

  -- An error of SyncEndpointSlices or SyncIngress that says not found is no error.
  unless_missing : Failure → Manager → Reconciled Manager
  unless_missing not_found m = finished m
  unless_missing conflict m = erred m
  unless_missing other_failure m = erred m

  -- With a check of the expectations that says no.
  unfoldable pub skipped : (since : ℕ) → Manager → Reconciled Manager
  skipped since m = if leb timeout since then finished m else requeued_after (timeout - since) m

  finish : ExternalProxy → Ran Manager Unit → Reconciled Manager
  finish p (gives _ m) = finished m
  finish p (stops e m) = erred m
  finish p crashes = crashed

  after_ingresses : ExternalProxy → Ran Manager Unit → Reconciled Manager
  unfolding unless_missing finish
  after_ingresses p (gives _ m) = finish p (
      write_status p.key
        (record {
          is_ready = true;
          service_name = p.service.name;
          observed_generation = p.generation;
        })
        m)
  after_ingresses p (stops e m) = unless_missing e m
  after_ingresses p crashes = crashed

  check_ingresses :
      (key : String) → ExternalProxy → Cache sets × Bool × ℕ → Manager → Reconciled Manager
  unfolding skipped after_ingresses sync_ingresses
  check_ingresses key p (cache, true, since) m =
      after_ingresses p (sync_ingresses key p (record m { ingresses = cache }))
  check_ingresses key p (cache, false, since) m = skipped since (record m { ingresses = cache })

  after_slices : Times → (key : String) → ExternalProxy → Ran Manager Unit → Reconciled Manager
  unfolding check_ingresses unless_missing
  after_slices times key p (gives _ m) =
      check_ingresses key p
        (satisfied_expectations sets key times.ingresses.0 times.ingresses.1 m.ingresses) m
  after_slices times key p (stops e m) = unless_missing e m
  after_slices times key p crashes = crashed

  check_slices :
      Times → (key : String) → ExternalProxy → Cache sets × Bool × ℕ → Manager → Reconciled Manager
  unfolding skipped after_slices sync_slices
  check_slices times key p (cache, true, since) m =
      after_slices times key p (sync_slices key p (record m { slices = cache }))
  check_slices times key p (cache, false, since) m = skipped since (record m { slices = cache })

  after_status : Times → (key : String) → ExternalProxy → Ran Manager Unit → Reconciled Manager
  unfolding check_slices
  after_status times key p (gives _ m) =
      check_slices times key p
        (satisfied_expectations sets key times.slices.0 times.slices.1 m.slices) m
  after_status times key p (stops e m) = erred m
  after_status times key p crashes = crashed

  after_services : Times → (key : String) → ExternalProxy → Ran Manager Unit → Reconciled Manager
  unfolding after_status
  after_services times key p (gives _ m) = after_status times key p (
      write_status p.key
        (record { is_ready = false; service_name = p.service.name; observed_generation = 0 }) m)
  after_services times key p (stops e m) = erred m
  after_services times key p crashes = crashed

  unfoldable pub check_services :
      Times → (key : String) → ExternalProxy → Cache sets × Bool × ℕ → Manager → Reconciled Manager
  unfolding skipped after_services sync_services
  check_services times key p (cache, true, since) m =
      after_services times key p (sync_services key p (record m { services = cache }))
  check_services times key p (cache, false, since) m = skipped since (record m { services = cache })

  unfoldable pub reconcile_got :
      Times → Request → Reply ExternalProxy → Manager → Reconciled Manager
  unfolding check_services
  reconcile_got times key (refused not_found) m =
      finished (record m { services = delete_expectations sets (request_text key) m.services })
  reconcile_got times key (refused conflict) m = erred m
  reconcile_got times key (refused other_failure) m = erred m
  reconcile_got times key (answered p) m =
      check_services times (request_text key) p
        (satisfied_expectations sets (request_text key) times.services.0 times.services.1
          m.services)
        m

  unfoldable pub reconcile : Times → Request → Manager → Reconciled Manager
  unfolding reconcile_got
  reconcile times key m = reconcile_got times key (get key m.cluster) m
