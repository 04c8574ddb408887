-- ===== src/Controllers/PortForwarding/Resolve.antt =====
-- internal/controller/networking/portforwarding_controller.go: which resources an event on a Service or an
-- EndpointSlice wakes.
use kertical.Prelude.{
  String, string_Eq, Bool, true, false, ◌&&◌, ◌||◌, ◌≡◌, refl, Option, none, some, List, [], ◌∷◌,
  ◌==◌, if◌then◌else◌, map, arith, Bool-cases, inl, inr,
}
use kertical.Events.{
  Object, Request, Effect, add, add_after, forget, resolve, referenced_create, referenced_update,
  referenced_delete,
}
use kertical.Controllers.Cluster.{Reply, answered, refused}
use kertical.Controllers.Objects.{Resource}

-- The resources of the list that name the Service, in the namespace of the Service
unfoldable pub referring :
    {F : Type 0} → (namespace service : String) → List (Resource F) → List Request
referring namespace service [] = []
referring namespace service (o ∷ os) =
    let rest = referring namespace service os in
    if o.service_name == service
    then record { namespace = namespace; name = o.key.name } ∷ rest
    else rest

module _ {K F : Type 0} (list : (namespace : String) → K → Reply (List (Resource F))) where
  unfoldable pub referring_in :
      (namespace service : String) → Reply (List (Resource F)) → Option (List Request)
  unfolding referring
  referring_in namespace service (refused e) = none
  referring_in namespace service (answered os) = some (referring namespace service os)

  -- resolveReferencedPortForwarding, with the nil function on an error
  unfoldable pub resolve_referenced : K → Object → Option (List Request)
  unfolding referring_in
  resolve_referenced k svc = referring_in svc.namespace svc.name (list svc.namespace k)

  -- resolveIndirectPortForwarding; `label` is the value of kubernetes.io/service-name of the EndpointSlice.
  unfoldable pub resolve_indirect : K → (label : Option String) → Object → Option (List Request)
  unfolding resolve_referenced
  resolve_indirect k none slice = some []
  resolve_indirect k (some name) slice = resolve_referenced k (record slice { name = name })

  -- A namespace and a name are those of a request which is added.
  abbrev pub wakes : (ns n : String) → List Effect → Bool
  wakes ns n [] = false
  wakes ns n (add r ∷ es) = (r.namespace == ns && r.name == n) || wakes ns n es
  wakes ns n (add_after r ∷ es) = wakes ns n es
  wakes ns n (forget r ∷ es) = wakes ns n es

  -- Some resource of the name refers to the Service.
  abbrev pub refers : (n service : String) → List (Resource F) → Bool
  refers n service [] = false
  refers n service (o ∷ os) = (o.service_name == service && o.key.name == n) || refers n service os

  -- What an event gives, by the answer of the list.
  abbrev pub IsWoken : (svc : Object) → Reply (List (Resource F)) → Option (List Effect) → Type 0
  IsWoken svc (refused e) effects = effects ≡ none
  IsWoken svc (answered os) none = ⊥
  IsWoken svc (answered os) (some effects) =
      (ns n : String) → wakes ns n effects ≡ (svc.namespace == ns && refers n svc.name os)

  wakes-referring :
      (ns n namespace service : String) (os : List (Resource F))
      → wakes ns n (map add (referring namespace service os))
        ≡ (namespace == ns && refers n service os)
  unfolding referring
  wakes-referring ns n namespace service [] = ground arith
  wakes-referring ns n namespace service (o ∷ os) = elim (Bool-cases (o.service_name == service)) [
    | inl same ↦ ground (arith, same, wakes-referring ns n namespace service os)
    | inr apart ↦ ground (arith, apart, wakes-referring ns n namespace service os)
  ]

  resolve-IsWoken :
      (k : K) (svc : Object) (r : Reply (List (Resource F)))
      → list svc.namespace k ≡ r
      → IsWoken svc r (resolve (resolve_referenced k) svc)
  unfolding resolve resolve_referenced
  resolve-IsWoken k svc (refused e) listed = rw listed refl
  resolve-IsWoken k svc (answered os) listed =
      rw listed (λ ns n. wakes-referring ns n svc.namespace svc.name os)

  -- An object of the right type is resolved.
  typed_events :
      (resolver : Object → Option (List Request)) (object : Object)
      → object.typed ≡ true
      → (referenced_create resolver object ≡ resolve resolver object)
        × (referenced_update resolver object ≡ resolve resolver object)
        × (referenced_delete resolver object ≡ resolve resolver object)
  unfolding referenced_create referenced_update referenced_delete
  typed_events resolver object typed =
      (ground (arith, typed), ground (arith, typed), ground (arith, typed))

  -- An event on a Service, as it is created, changed or deleted, adds a request for exactly those names,
  -- in the namespace of the Service and in no other, that a listed resource which refers to the Service
  -- has; when the resources of the namespace cannot be listed, the handler panics.
  pub service_event-IsWoken :
      (k : K) (svc : Object)
      → svc.typed ≡ true
      → IsWoken svc (list svc.namespace k) (referenced_create (resolve_referenced k) svc)
        × IsWoken svc (list svc.namespace k) (referenced_update (resolve_referenced k) svc)
        × IsWoken svc (list svc.namespace k) (referenced_delete (resolve_referenced k) svc)
  service_event-IsWoken k svc typed =
      let woken = resolve-IsWoken k svc (list svc.namespace k) refl in
      let (created, updated, deleted) = typed_events (resolve_referenced k) svc typed in
      (rw created woken, rw updated woken, rw deleted woken)
