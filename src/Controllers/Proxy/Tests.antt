-- ===== src/Controllers/Proxy/Tests.antt =====
-- A resource with one backend, over a cluster that is the list of the names of its objects.
mod SliceStore
use kertical.Prelude.{
  ℕ, ◌∙◌, String, string_Eq, true, false, not, ◌&&◌, ◌≡◌, ◌↔◌, ◌⊎◌, refl, Option, none, some, List,
  [], ◌∷◌, ◌==◌, list_sets, elem, elem-without, without, arith, nat_Eq,
}
use kertical.Expectations.{creations, new_cache, expect}
use kertical.Expectations.Pending.{pending-expect}
use kertical.Controllers.Cluster.{answered}
use kertical.Controllers.Proxy.{
  Object, ServiceSpec, no_type, SliceSpec, ExternalProxy, value_of, put, put_all, copy_map,
  drop_entry,
}
use kertical.Controllers.Proxy.Build.{
  revision_key, new_meta, annotated, inject_revision, should_reconcile, new_service,
}
use kertical.Controllers.Proxy.Kinds.{
  gives, crashes, Kind, World, merged, merge, settle, expecting, create_controlled, create_expected,
  sync_activated, live,
}
use kertical.Controllers.Proxy.Sync.{settle_service, sync_endpoint_slices}
use kertical.Controllers.Proxy.Reconcile.{Setup, Times, Manager, reconcile}
use kertical.Controllers.Proxy.Revision.{settle_service-again, settle_service-crashes, has_entries}
use kertical.Controllers.Proxy.Keeping.{Store, After, Gone, others, is_some, sync_activated-Gone}
use kertical.Controllers.Proxy.Waiting.{Waits, reconcile-Waits, settle_service-Waits}
use kertical.Controllers.Proxy.Synced.{IsSynced}

abbrev Names : Type 0
Names = List String

-- A kind whose owned objects are always the same ones.
abbrev kind_of : {S : Type 0} → List (Object S) → Kind Names S
kind_of owned = record {
  list_owned = λ namespace uid k. answered owned;
  create = λ o k. (answered tt, o.meta.name ∷ k);
  update = λ o k. (answered tt, k);
  delete = λ o k. (answered tt, without o.meta.name k);
  set_controller = λ uid o. answered (record o { meta = record o.meta { owner = some uid } });
  sort_created = λ os. os;
}

has-without :
    (name n : String) (k : Names) → elem n (without name k) ≡ (not (name == n) && elem n k)
has-without name n k = elem-without name n k ∙ ground arith

controlled_name :
    {S : Type 0} (uid : String) (o o' : Object S)
    → answered (record o { meta = record o.meta { owner = some uid } }) ≡ answered o'
    → o'.meta.name ≡ o.meta.name
controlled_name uid o o' e =
    let same : record o { meta = record o.meta { owner = some uid } } ≡ o' = cc in rw⁻¹ same refl

abbrev store_of : {S : Type 0} (owned : List (Object S)) → Store (kind_of owned)
store_of owned = record {
  has = λ k n. elem n k;
  has-create = λ o k n ok. refl;
  has-update = λ o k n ok. refl;
  has-delete = λ o k n ok. has-without o.meta.name n k;
  named = controlled_name;
  sorts = λ os n. refl;
  sorts_all = λ P os all. all;
}

abbrev pub print : ℕ → String
print n = "1"

abbrev pub parse4 : String → Option String
parse4 text = some text

abbrev pub parse6 : String → Option String
parse6 text = none

abbrev pub slice_name : String → ℕ → String → String
slice_name service index suffix = suffix

abbrev pub proxy : ExternalProxy
proxy = record {
  key = record { namespace = "default"; name = "web" };
  uid = "u1";
  generation = 1;
  backends = record { addresses = "10.0.0.1" ∷ []; ports = [] } ∷ [];
  service = record {
    name = "web";
    labels = some (("app", "web") ∷ []);
    annotations = none;
    service_type = "ClusterIP";
    ports = [];
  };
  ingress = none;
  status = record { is_ready = false; service_name = ""; observed_generation = 0 };
}

abbrev pub service_at : String → Option (List (String × String)) → Object ServiceSpec
service_at name map = record {
  meta = record (new_meta "default" name map map) { uid = "u2" };
  spec = record { service_type = "ClusterIP"; ports = []; others = "10.1.0.1" };
}

abbrev pub slice_at : String → Object SliceSpec
slice_at name = record {
  meta = new_meta "default" name (some []) (some []);
  spec = record { address_type = no_type; endpoints = []; ports = [] };
}

abbrev two_services : List (Object ServiceSpec)
two_services = service_at "web" none ∷ service_at "old" none ∷ []

abbrev pub two_slices : List (Object SliceSpec)
two_slices = slice_at "v4" ∷ slice_at "old" ∷ []

abbrev Services : Type 0
Services = World list_sets (kind_of two_services) "default/web"

sync_activated-Gone_example :
    After list_sets
      (kind_of two_services)
      "default/web"
      (store_of two_services)
      (λ found w'.
        (is_some list_sets (kind_of two_services) "default/web" (store_of two_services) found
          ≡ true)
        × Gone list_sets
            (kind_of two_services)
            "default/web"
            (store_of two_services)
            (others list_sets
              (kind_of two_services)
              "default/web"
              (store_of two_services)
              "web"
              two_services)
            (new_cache list_sets, "web" ∷ "old" ∷ [])
            w')
      (sync_activated list_sets
        (kind_of two_services)
        "default/web"
        "web"
        none
        two_services
        (new_cache list_sets, "web" ∷ "old" ∷ []))
sync_activated-Gone_example =
    sync_activated-Gone list_sets (kind_of two_services) "default/web" (store_of two_services) "web"
      none two_services (new_cache list_sets, "web" ∷ "old" ∷ [])

abbrev updated_service : Object ServiceSpec
updated_service = record {
  meta = record (service_at "web" (some [])).meta {
    labels = some (("app", "web") ∷ []);
    annotations = some ((revision_key, "1") ∷ []);
  };
  spec = record { service_type = "ClusterIP"; ports = []; others = "10.1.0.1" };
}

settle_service-again_example :
    (settle_service list_sets print parse4 parse6 slice_name "kertical" proxy "default/web"
        (kind_of two_services)
        (some updated_service)
        (new_cache list_sets, [])
      ≡ gives tt (new_cache list_sets, []))
    × (settle_service list_sets print parse4 parse6 slice_name "kertical" proxy "default/web"
          (kind_of two_services)
          (some updated_service)
          (new_cache list_sets, [])
        ≡ gives tt (new_cache list_sets, []))
unfolding new_service inject_revision annotated put drop_entry put_all copy_map merge merged
settle_service-again_example =
    settle_service-again print parse4 parse6 slice_name list_sets "kertical" proxy "default/web"
      (kind_of two_services) (service_at "web" (some [])) updated_service updated_service
      (new_cache list_sets, []) refl refl

settle_service-crashes_example :
    (settle_service list_sets print parse4 parse6 slice_name "kertical" proxy "default/web"
        (kind_of two_services)
        (some (service_at "web" none))
        (new_cache list_sets, [])
      ≡ crashes)
    ↔ ((service_at "web" none).meta.annotations ≡ none)
      ⊎ (((service_at "web" none).meta.labels ≡ none)
          × (has_entries (some (("app", "web") ∷ [])) ≡ true))
unfolding should_reconcile value_of
settle_service-crashes_example =
    settle_service-crashes print parse4 parse6 slice_name list_sets "kertical" proxy "default/web"
      (kind_of two_services) (service_at "web" none) (new_cache list_sets, []) refl

abbrev pub iterate : List (Object SliceSpec) → List (Object SliceSpec)
iterate os = os

abbrev setup : Setup Names
setup = record {
  retrying = record {
    retry = λ call k. call k;
    retry_once = λ call k no_conflict. refl;
    retry_keeps = λ Kept call keeps k h. keeps k h;
  };
  get = λ key k. answered proxy;
  update_status = λ p k. (answered tt, k);
  get_service = λ key k. answered (service_at "web" none);
  services = kind_of [];
  slices = kind_of [];
  ingresses = kind_of [];
  iterate = iterate;
  print = print;
  parse4 = parse4;
  parse6 = parse6;
  slice_name = slice_name;
  controller_name = "kertical";
  request_text = λ key. key.name;
  timeout = 300;
}

abbrev times : Times
times = record { services = (10, 20); slices = (10, 20); ingresses = (10, 20) }

-- The Service has been created.
abbrev waiting : Manager list_sets setup
waiting = record {
  services = expect list_sets "web" creations "web" (new_cache list_sets);
  slices = new_cache list_sets;
  ingresses = new_cache list_sets;
  cluster = "web" ∷ [];
}

reconcile-Waits_example :
    Waits list_sets setup waiting (reconcile list_sets setup times proxy.key waiting)
reconcile-Waits_example =
    reconcile-Waits list_sets setup waiting times proxy.key proxy creations "web" refl
      (pending-expect list_sets (new_cache list_sets) "web" "web" creations creations "web" "web")

settle_service-Waits_example :
    Waits list_sets setup waiting (reconcile list_sets setup times proxy.key waiting)
unfolding settle_service create_expected create_controlled expecting settle new_service
    inject_revision
settle_service-Waits_example =
    settle_service-Waits list_sets setup proxy proxy proxy.key (new_cache list_sets, []) waiting
      ("web" ∷ []) times
      (λ o e. controlled_name "u1" (new_service print parse4 parse6 slice_name proxy) o e) refl refl
