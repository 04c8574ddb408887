-- ===== src/Controllers/Forwarder.antt =====
-- The forwarder of the controller, as the controller uses it: any implementation of the interface whose
-- ports change by what its calls return. The guard is one.
use kertical.Prelude.{ℕ, String, true, false, not, ◌&&◌, ◌||◌, ◌≡◌, ◌==◌, nat_Eq, List, SetPackage}
use kertical.Forwarding.Types.{
  Protocol, protocol_Eq, fails, port_already_forwarded, port_not_forwarded, PortForwarding,
}
use kertical.Forwarding.Transport.{Proc}
use kertical.Forwarding.Guard.{Guard, add_forwarding, remove_forwarding, close}
use kertical.Forwarding.Guard.Contract.{Ports, Contract, IsValid, listens_on, succeeded}
use kertical.Forwarding.Guard.Adding.{add_forwarding-IsValid}
use kertical.Forwarding.Guard.Errors.{LeavesErrors, guard_already, guard_missing}
use kertical.Forwarding.Guard.Removing.{remove_forwarding-IsValid}

pub record Tracked {U : Type 0} (impl : PortForwarding U) : Type 1 where
  pub IsSound : U → Type 0
  pub forwards : U → Ports
  pub add_keeps :
      (proto : Protocol) (from : ℕ) (target : List String) (to : ℕ) (comment : String) (u : U)
      → IsSound u
      → IsSound (impl.add proto from target to comment u).1
        × ((q : Protocol) (n : ℕ)
            → forwards (impl.add proto from target to comment u).1 q n ≡ (
                succeeded (impl.add proto from target to comment u).0 && (proto == q && from == n)
                || forwards u q n))
  pub remove_keeps :
      (proto : Protocol) (from : ℕ) (target : List String) (to : ℕ) (u : U)
      → IsSound u
      → IsSound (impl.remove proto from target to u).1
        × ((q : Protocol) (n : ℕ)
            → forwards (impl.remove proto from target to u).1 q n ≡ (
                not (succeeded (impl.remove proto from target to u).0 && (proto == q && from == n))
                && forwards u q n))
  -- The two errors that say of a port that it is, or is not, forwarded.
  pub add_known :
      (proto : Protocol) (from : ℕ) (target : List String) (to : ℕ) (comment : String) (u : U)
      → (impl.add proto from target to comment u).0 ≡ fails port_already_forwarded
      → forwards u proto from ≡ true
  pub remove_known :
      (proto : Protocol) (from : ℕ) (target : List String) (to : ℕ) (u : U)
      → (impl.remove proto from target to u).0 ≡ fails port_not_forwarded
      → forwards u proto from ≡ false

module _ (sets : SetPackage ℕ) {U : Type 0} (impl : PortForwarding U) (contract : Contract impl)
    (leaves : LeavesErrors impl) (proc : Proc) where
  -- The guard through the interface, over the files of /proc as they are during the calls.
  abbrev pub guarded : PortForwarding (Guard sets impl)
  guarded = record {
    add = add_forwarding sets impl proc;
    remove = remove_forwarding sets impl;
    close = close sets impl;
  }

  unfoldable pub guarded-Tracked : Tracked guarded
  guarded-Tracked = record {
    IsSound = IsValid sets impl contract;
    forwards = listens_on sets impl contract;
    add_keeps = λ proto from target to comment g v.
        let r = add_forwarding-IsValid sets impl contract proc proto from target to comment g v in
        (r.0, r.1);
    remove_keeps = λ proto from target to g v.
        let r = remove_forwarding-IsValid sets impl contract proto from target to g v in (r.0, r.1);
    add_known = guard_already sets impl leaves proc;
    remove_known = guard_missing sets impl leaves;
  }
