-- ===== src/Controllers/PortForwarding/Register.antt =====
-- AddFinalizer, and what the handler calls after it.
use kertical.Prelude.{
  ℕ, String, List, true, ◌||◌, ◌≡◌, ◌∙◌, refl, sym, ap, Bool-cases, inl, inr, arith,
}
use kertical.Events.{Request}
use kertical.Forwarding.Types.{PortForwarding}
use kertical.Controllers.Ports.{ForwardedPort}
use kertical.Controllers.PortForwarding.Reconcile.{
  sync_registered, sync_port_forwarding, reconcile_live,
}
use kertical.Controllers.Cluster.{
  not_found, conflict, other_failure, Reply, answered, refused, ignore_not_found, Retrying, erred,
}
use kertical.Controllers.Objects.{Finalizers, Resource, Client, add_to, add_finalizer}
use kertical.Controllers.Server.{Server, answers_once}

module _ (names : Finalizers) {K : Type 0} (retrying : Retrying K) (client : Client K names.Names)
    (server : Server names client) where
  -- The object is found, and is being deleted or has the finalizer.
  abbrev pub IsHeld : Request → K → Type 0
  IsHeld key k =
      (o : Resource names.Names) × (client.get key k ≡ answered o)
      × ((o.deleting || names.contains o.finalizers) ≡ true)

  -- What AddFinalizer gives, by what the server answers to the first reading.
  abbrev IsRegistered : Request → K → Reply (Resource names.Names) → Reply Unit × K → Type 0
  IsRegistered key k (answered o) r = (r.0 ≡ answered tt) × IsHeld key r.1
  IsRegistered key k (refused not_found) r = r ≡ (answered tt, k)
  IsRegistered key k (refused other_failure) r = r ≡ (refused other_failure, k)
  IsRegistered key k (refused conflict) r = Unit

  found-IsRegistered :
      (key : Request) (o : Resource names.Names) (k : K)
      → client.get key k ≡ answered o
      → o.key ≡ key
      → IsRegistered key k (answered o) (add_to names retrying client (answered o) k)
  unfolding add_to
  found-IsRegistered key o k got same =
      elim (Bool-cases (o.deleting || names.contains o.finalizers)) [
        | inl held ↦ rw held (refl, (o, got, held))
        | inr free ↦
            let here = ap (λ j. client.get j k) same ∙ got in
            let (taken, found) = server.addition_takes o k here (ground (arith, free)) in
            let o' = record o { finalizers = names.add o.finalizers } in
            let there = sym (ap (λ j. client.get j (client.update o' k).1) same) ∙ found in
            rw free (taken, (o', there, ground (arith, names.contains-add o.finalizers)))
      ]

  registered :
      (key : Request) (k : K) (r : Reply (Resource names.Names))
      → client.get key k ≡ r
      → ((o : Resource names.Names) → r ≡ answered o → o.key ≡ key)
      → IsRegistered key k r (add_finalizer names retrying client key k)
  unfolding add_finalizer
  registered key k (answered o) got named =
      let f = found-IsRegistered key o k got (named o refl) in
      let call = λ (k : K). add_to names retrying client (client.get key k) k in
      let same : call k ≡ add_to names retrying client (answered o) k = rw got refl in
      let ok : (call k).0 ≡ answered tt = rw same f.0 in
      rw (answers_once retrying call k ok) (rw same f)
  registered key k (refused not_found) got named =
      let call = λ (k : K). add_to names retrying client (client.get key k) k in
      let same : call k ≡ (answered tt, k) = rw got (unfold add_to ignore_not_found in refl) in
      let ok : (call k).0 ≡ answered tt = rw same refl in answers_once retrying call k ok ∙ same
  registered key k (refused other_failure) got named =
      let call = λ (k : K). add_to names retrying client (client.get key k) k in
      let same : call k ≡ (refused other_failure, k) =
        rw got (unfold add_to ignore_not_found in refl) in
      let failed : (call k).0 ≡ refused other_failure = rw same refl in
      retrying.retry_once call k (λ e. cc) ∙ same
  registered key k (refused conflict) got named = tt

  module _ (atoi : String → ℕ) {U : Type 0} (impl : PortForwarding U) (node : String)
      (sort_hosts : List String → List String)
      (sort_ports : List ForwardedPort → List ForwardedPort) (o : Resource names.Names) (u : U)
      (k : K) where
    -- The part of the handler that calls the forwarder is run on the forwarder `u` as it was, in the
    -- cluster `k'`.
    abbrev pub SyncsIn : K → Type 0
    SyncsIn k' =
        reconcile_live names retrying client atoi impl node sort_hosts sort_ports o u k
        ≡ sync_port_forwarding names retrying client atoi impl node sort_hosts sort_ports o u k'

    -- What the handler does, by what the server answers to the first reading of AddFinalizer.
    abbrev pub IsHeldFirst : Reply (Resource names.Names) → Type 0
    IsHeldFirst (answered found) = (k' : K) × IsHeld o.key k' × SyncsIn k'
    IsHeldFirst (refused not_found) = SyncsIn k
    IsHeldFirst (refused other_failure) =
        reconcile_live names retrying client atoi impl node sort_hosts sort_ports o u k
        ≡ erred (u, k)
    IsHeldFirst (refused conflict) = Unit

    registered-IsHeldFirst :
        (r : Reply (Resource names.Names))
        → IsRegistered o.key k r (add_finalizer names retrying client o.key k)
        → IsHeldFirst r
    unfolding reconcile_live sync_registered
    registered-IsHeldFirst (answered found) (ok, held) = (
      (add_finalizer names retrying client o.key k).1,
      held,
      sync_registered_lem (add_finalizer names retrying client o.key k) ok,
    )
      where
        sync_registered_lem :
            (r : Reply Unit × K)
            → r.0 ≡ answered tt
            → sync_registered names retrying client atoi impl node sort_hosts sort_ports o u r
              ≡ sync_port_forwarding names retrying client atoi impl node sort_hosts sort_ports o u
                  r.1
        sync_registered_lem (answered x, k') e = refl
        sync_registered_lem (refused x, k') e = absurd (cc)
    registered-IsHeldFirst (refused not_found) e = rw e refl
    registered-IsHeldFirst (refused other_failure) e = rw e refl
    registered-IsHeldFirst (refused conflict) e = tt

    -- Over a server that takes writes of what was just read, and under whose key each object is found:
    -- when AddFinalizer finds the object, the handler of an object that is not being deleted calls the
    -- forwarder only in a cluster where the object is being deleted or has the finalizer; when the object
    -- is gone, it goes on to the forwarder all the same; when that reading fails with another error than a
    -- conflict, it ends with an error and leaves the forwarder as it was.
    pub reconcile_live-IsHeldFirst :
        ((found : Resource names.Names) → client.get o.key k ≡ answered found → found.key ≡ o.key)
        → IsHeldFirst (client.get o.key k)
    reconcile_live-IsHeldFirst named =
        registered-IsHeldFirst (client.get o.key k)
          (registered o.key k (client.get o.key k) refl named)
