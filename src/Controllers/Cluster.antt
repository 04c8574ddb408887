-- ===== src/Controllers/Cluster.antt =====
-- What a call of the API server answers, and what a reconciliation returns to the controller runtime.
use kertical.Prelude.{ℕ, ◌≡◌, ◌≢◌}

-- An error of the client: the two that the program tells apart, and the others.
pub data Failure : Type 0 where
  not_found conflict other_failure : Failure

pub data Reply (A : Type 0) : Type 0 where
  answered : A → Reply A
  refused : Failure → Reply A

-- client.IgnoreNotFound, where the answer of the call is not looked at otherwise.
unfoldable pub ignore_not_found : {A : Type 0} → A → Failure → Reply A
ignore_not_found a not_found = answered a
ignore_not_found a conflict = refused conflict
ignore_not_found a other_failure = refused other_failure

-- retry.RetryOnConflict with DefaultRetry: the function is not called again unless it meets a conflict.
pub record Retrying (K : Type 0) : Type 1 where
  pub retry : {A : Type 0} → (K → Reply A × K) → K → Reply A × K
  pub retry_once :
      {A : Type 0} (call : K → Reply A × K) (k : K)
      → (call k).0 ≢ refused conflict
      → retry call k ≡ call k
  -- It changes the cluster by calling the function only.
  pub retry_keeps :
      {A : Type 0} (Kept : K → Type 0) (call : K → Reply A × K)
      → ((k : K) → Kept k → Kept (call k).1)
      → (k : K) → Kept k
      → Kept (retry call k).1

-- What `Reconcile` returns, with the state that it leaves: the empty result, a request to come again at
-- once or after a while, an error, or a panic.
pub data Reconciled (W : Type 0) : Type 0 where
  finished requeued erred : W → Reconciled W
  requeued_after : (delay : ℕ) → W → Reconciled W
  crashed : Reconciled W
