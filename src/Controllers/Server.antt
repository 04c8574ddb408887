-- ===== src/Controllers/Server.antt =====
-- What the controllers rely on in the API server.
use kertical.Prelude.{List, true, false, ◌≡◌, if◌then◌else◌}
use kertical.Controllers.Cluster.{Reply, answered, refused, not_found, Retrying}
use kertical.Controllers.Objects.{NodeStatus, Finalizers, Resource, Client}

-- What the API server does on a write of the object as it was just read, with nobody else writing: the write
-- is taken. An object that is not being deleted is then found with the finalizer that was added. One that is
-- being deleted is gone once its last finalizer is removed, and else is found without the one that was
-- removed. A write of the status is found.
pub record Server (names : Finalizers) {K : Type 0} (client : Client K names.Names) : Type 0 where
  pub addition_takes :
      (o : Resource names.Names) (k : K)
      → client.get o.key k ≡ answered o
      → o.deleting ≡ false
      → let added = record o { finalizers = names.add o.finalizers } in
        ((client.update added k).0 ≡ answered tt)
        × (client.get o.key (client.update added k).1 ≡ answered added)
  pub removal_takes :
      (o : Resource names.Names) (k : K)
      → client.get o.key k ≡ answered o
      → o.deleting ≡ true
      → let left = record o { finalizers = names.remove o.finalizers } in
        ((client.update left k).0 ≡ answered tt)
        × (client.get o.key (client.update left k).1
            ≡ (if names.none_left left.finalizers then refused not_found else answered left))
  pub status_takes :
      (o : Resource names.Names) (ns : List NodeStatus) (k : K)
      → client.get o.key k ≡ answered o
      → ((client.update_status (record o { node_statuses = ns }) k).0 ≡ answered tt)
        × (client.get o.key (client.update_status (record o { node_statuses = ns }) k).1
            ≡ answered (record o { node_statuses = ns }))

pub answers_once :
    {K A : Type 0} (retrying : Retrying K) (call : K → Reply A × K) (k : K) {a : A}
    → (call k).0 ≡ answered a
    → retrying.retry call k ≡ call k
answers_once retrying call k e = retrying.retry_once call k (λ x. cc)
