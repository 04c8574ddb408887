-- ===== src/Controllers/Proxy/Waiting.antt =====
-- A reconciliation while an event is outstanding, also the one that follows a creation.
use kertical.Prelude.{
  ℕ, String, string_Eq, Bool, true, false, ◌≡◌, ◌∙◌, refl, none, leb, SetPackage, Bool-cases, inl,
  inr, arith, ==_refl,
}
use kertical.Events.{Request}
use kertical.Expectations.{Action, creations, action_Eq, Cache, satisfied_expectations}
use kertical.Expectations.Pending.{pending, pending-expect, pending-satisfied, satisfied_iff}
use kertical.Controllers.Cluster.{
  Reply, answered, refused, Reconciled, finished, requeued, requeued_after, erred, crashed,
}
use kertical.Controllers.Proxy.{Object, ServiceSpec, ExternalProxy}
use kertical.Controllers.Proxy.Build.{new_service}
use kertical.Controllers.Proxy.Kinds.{
  gives, Kind, World, settle, expecting, create_controlled, create_expected,
}
use kertical.Controllers.Proxy.Sync.{settle_service}
use kertical.Controllers.Proxy.Reconcile.{
  Setup, Times, Manager, skipped, check_services, reconcile_got, reconcile,
}

module _ (sets : SetPackage String) {K : Type 0} (setup : Setup K) where
  -- The reconciliation has left the cluster as it was, and with it what the controller waits for.
  abbrev pub Kept : Manager sets setup → Manager sets setup → Type 0
  Kept m m' =
      (m'.cluster ≡ m.cluster)
      × ((key : String) (a : Action) (n : String)
          → pending sets m'.services key a n ≡ pending sets m.services key a n)

  abbrev pub Waits : Manager sets setup → Reconciled (Manager sets setup) → Type 0
  Waits m (finished m') = Kept m m'
  Waits m (requeued_after delay m') = Kept m m'
  Waits m (requeued m') = ⊥
  Waits m (erred m') = ⊥
  Waits m crashed = ⊥

  skipped-Waits :
      (m m' : Manager sets setup) (since : ℕ) → Kept m m' → Waits m (skipped sets setup since m')
  unfolding skipped
  skipped-Waits m m' since h = elim (Bool-cases (leb setup.timeout since)) [
    | inl late ↦ rw late h
    | inr early ↦ rw early h
  ]

  checked-Waits :
      (m : Manager sets setup) (times : Times) (key : String) (p : ExternalProxy)
      (r : Cache sets × Bool × ℕ)
      → r.1 ≡ false
      → ((j : String) (a : Action) (n : String)
          → pending sets r.0 j a n ≡ pending sets m.services j a n)
      → Waits m (check_services sets setup times key p r m)
  unfolding check_services
  checked-Waits m times key p (cache, true, since) h same = absurd (cc)
  checked-Waits m times key p (cache, false, since) h same =
      skipped-Waits m (record m { services = cache }) since (refl, same)

  pending-unsatisfied :
      (cache : Cache sets) (key : String) (now later : ℕ) (a : Action) (n : String)
      → pending sets cache key a n ≡ true
      → (satisfied_expectations sets key now later cache).1 ≡ false
  pending-unsatisfied cache key now later a n left =
      elim (Bool-cases (satisfied_expectations sets key now later cache).1) [
        | inl settled ↦
            let none_left = (satisfied_iff sets cache key now later).0 settled a n in absurd (cc)
        | inr unsettled ↦ unsettled
      ]

  -- While the event of a Service that the controller has created or deleted for a resource is outstanding,
  -- a reconciliation of the resource changes nothing in the cluster, waits for the same events, and
  -- returns no error.
  pub reconcile-Waits :
      (m : Manager sets setup) (times : Times) (key : Request) (p : ExternalProxy) (a : Action)
      (n : String)
      → setup.get key m.cluster ≡ answered p
      → pending sets m.services (setup.request_text key) a n ≡ true
      → Waits m (reconcile sets setup times key m)
  unfolding reconcile reconcile_got
  reconcile-Waits m times key p a n got left =
      let text = setup.request_text key in
      let r = satisfied_expectations sets text times.services.0 times.services.1 m.services in
      rw got (
        checked-Waits m times text p r
          (pending-unsatisfied m.services text times.services.0 times.services.1 a n left)
          (λ j b n. pending-satisfied sets m.services text j times.services.0 times.services.1 b n))

  settle-pending :
      {S : Type 0} (kind : Kind K S) (key : String) (a : Action) (n : String) (cache : Cache sets)
      (r : Reply Unit × K) (cache' : Cache sets) (k' : K)
      → settle sets kind key a n cache r ≡ gives tt (cache', k')
      → cache ≡ cache'
  unfolding settle
  settle-pending kind key a n cache (answered x, k) cache' k' e = cc
  settle-pending kind key a n cache (refused x, k) cache' k' e = absurd (cc)

  controlled-pending :
      {S : Type 0} (kind : Kind K S) (key : String) (r : Reply (Object S)) (name : String)
      (w : World sets kind key) (cache' : Cache sets) (k' : K)
      → ((o : Object S) → r ≡ answered o → o.meta.name ≡ name)
      → create_controlled sets kind key r w ≡ gives tt (cache', k')
      → pending sets cache' key creations name ≡ true
  unfolding create_controlled expecting
  controlled-pending kind key (refused x) name w cache' k' named e = absurd (cc)
  controlled-pending kind key (answered o) name (cache, k) cache' k' named e =
      rw⁻¹ (settle-pending kind key creations o.meta.name _ (kind.create o k) cache' k' e) (
        pending-expect sets cache key key creations creations o.meta.name name
        ∙ ground (arith, named o refl, ==_refl key, ==_refl name))

  -- When SyncService has created the Service of an ExternalProxy, and the reference to the controller has left
  -- its name, then the next reconciliation changes nothing in the cluster, as long as no event has been
  -- observed: it does not create the Service again, however old the list of Services is that it would read.
  pub settle_service-Waits :
      (p q : ExternalProxy) (key : Request) (w : World sets setup.services (setup.request_text key))
      (m : Manager sets setup) (k' : K) (times : Times)
      → let new = new_service setup.print setup.parse4 setup.parse6 setup.slice_name p in
        ((o : Object ServiceSpec)
          → setup.services.set_controller p.uid new ≡ answered o
          → o.meta.name ≡ p.service.name)
        → settle_service sets setup.print setup.parse4 setup.parse6 setup.slice_name
            setup.controller_name p
            (setup.request_text key)
            setup.services
            none
            w
          ≡ gives tt (m.services, k')
        → setup.get key m.cluster ≡ answered q
        → Waits m (reconcile sets setup times key m)
  unfolding settle_service create_expected
  settle_service-Waits p q key w m k' times named e got =
      let new = new_service setup.print setup.parse4 setup.parse6 setup.slice_name p in
      reconcile-Waits m times key q creations p.service.name got (
        controlled-pending setup.services (setup.request_text key)
          (setup.services.set_controller p.uid new) p.service.name w m.services k' named e)
