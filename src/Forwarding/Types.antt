-- ===== src/Forwarding/Types.antt =====
-- portforwarding.go: protocols, errors and the interface that the implementations fill.
use kertical.Prelude.{
  ℕ, String, Bool, true, false, ◌≡◌, ◌↔◌, refl, List, Eq, ◌==◌, string_Eq, arith,
}
use text.Mathlib.TextEquality.{eq_iff}

-- `netutils.Protocol`: a string; the program tells apart the two that it supports.
pub data Protocol : Type 0 where
  tcp udp : Protocol
  other : String → Protocol

abbrev protocol_eq : Protocol → Protocol → Bool
protocol_eq tcp tcp = true
protocol_eq udp udp = true
protocol_eq (other s) (other t) = s == t
protocol_eq _ _ = false

pub protocol_eq_iff : (p q : Protocol) → (protocol_eq p q ≡ true) ↔ (p ≡ q)
protocol_eq_iff (other s) (other t) =
    ((λ h. ground (arith, eq_iff s t)), (λ h. ground (arith, eq_iff s t)))
protocol_eq_iff tcp tcp = ((λ h. refl), (λ h. refl))
protocol_eq_iff udp udp = ((λ h. refl), (λ h. refl))
protocol_eq_iff p q = ((λ h. cc), (λ h. cc))

instance abbrev pub protocol_Eq : Eq Protocol
protocol_Eq = record { equals = protocol_eq; equals_iff = protocol_eq_iff }

-- `errors.Is` tells the three sentinels from all other errors.
pub data Error : Type 0 where
  port_already_inuse port_not_forwarded port_already_forwarded : Error
  failure : Error

pub data Outcome : Type 0 where
  done : Outcome
  fails : Error → Outcome
  panics : Outcome

-- `PortForwarding`: each method changes the implementation's state.
pub record PortForwarding (U : Type 0) : Type 0 where
  pub add :
      (proto : Protocol) (from : ℕ) (target : List String) (to : ℕ) (comment : String)
      → U
      → Outcome × U
  pub remove : (proto : Protocol) (from : ℕ) (target : List String) (to : ℕ) → U → Outcome × U
  pub close : U → Outcome × U
