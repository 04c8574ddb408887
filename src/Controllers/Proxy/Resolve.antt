-- ===== src/Controllers/Proxy/Resolve.antt =====
-- internal/controller/networking/externalproxy_controller.go, endpointSliceControllerRefResolver: the resource
-- that an event on an EndpointSlice belongs to.
use kertical.Prelude.{String, string_Eq, Option, none, some, ◌==◌, if◌then◌else◌}
use kertical.Events.{Object, Request}
use kertical.Controllers.Cluster.{Reply, answered, refused}
use kertical.Controllers.Proxy.{StringMap, entry, value_of}

-- m[key], also of a nil map
unfoldable pub label_of : String → StringMap → Option String
unfolding entry
label_of key none = none
label_of key (some m) = entry key m

-- `service_resolver` is the resolver of a Service.
module _ {K : Type 0} (controller : String) (get_service : Request → K → Reply Object)
    (service_resolver : Object → Option Request) where
  of_service : Reply Object → Option Request
  of_service (refused e) = none
  of_service (answered svc) = service_resolver svc

  of_name : (namespace : String) → Option String → K → Option Request
  unfolding of_service
  of_name namespace none k = none
  of_name namespace (some name) k =
      of_service (get_service (record { namespace = namespace; name = name }) k)

  unfoldable pub resolve_slice : (labels : StringMap) → Object → K → Option Request
  unfolding of_name label_of
  resolve_slice labels slice k =
      if value_of "endpointslice.kubernetes.io/managed-by" labels == controller
      then of_name slice.namespace (label_of "kubernetes.io/service-name" labels) k
      else none
