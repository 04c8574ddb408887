-- ===== src/Forwarding/Registry.antt =====
-- internal/portforwarding/registry.go: the implementations in falling order, and the choice of one.
-- `slices.SortFunc` sorts a slice as short as the registry by insertion, which keeps equals in place.
pub mod Choice
pub mod Total
mod Tests
use kertical.Prelude.{
  ℕ, String, Bool, true, false, not, Option, none, some, List, [], ◌∷◌, ◌++◌, ltb, ◌==◌, string_Eq,
  if◌then◌else◌,
}

-- `realImplement` with a maker of type `N`; an error of `Available` is `none`.
pub record Implement (N : Type 0) : Type 0 where
  pub name : String
  pub available : Option Bool
  pub make : N
  pub order : ℕ

-- `findPortForwardingImpl` returns what `New` returns, or an error.
pub data Found (N : Type 0) : Type 0 where
  chosen : N → Found N
  check_failed : String → Found N
  none_available : Found N

module _ {N : Type 0} where
  -- An element moves left past each one of a smaller order.
  insert_sorted : Implement N → List (Implement N) → List (Implement N)
  insert_sorted x [] = x ∷ []
  insert_sorted x (y ∷ ys) = if ltb y.order x.order then x ∷ y ∷ ys else y ∷ insert_sorted x ys

  sort_from : List (Implement N) → List (Implement N) → List (Implement N)
  sort_from sorted [] = sorted
  sort_from sorted (x ∷ xs) = sort_from (insert_sorted x sorted) xs

  unfoldable pub register_implement : List (Implement N) → Implement N → List (Implement N)
  unfolding sort_from insert_sorted
  register_implement registry impl = sort_from [] (registry ++ impl ∷ [])

  -- What the body of a loop does with an implementation that it asks.
  asked : Implement N → Option Bool → Found N → Found N
  asked impl none rest = check_failed impl.name
  asked impl (some true) rest = chosen impl.make
  asked impl (some false) rest = rest

  -- The second loop.
  first_available : List (Implement N) → Found N
  unfolding asked
  first_available [] = none_available
  first_available (impl ∷ rest) = asked impl impl.available (first_available rest)

  -- The first loop, with what follows it.
  preferred : String → List (Implement N) → Found N → Found N
  unfolding asked
  preferred preference [] otherwise = otherwise
  preferred preference (impl ∷ rest) otherwise =
      let later = preferred preference rest otherwise in
      if impl.name == preference then asked impl impl.available later else later

  unfoldable pub find_impl : String → List (Implement N) → Found N
  unfolding preferred first_available
  find_impl preference registry =
      if preference == ""
      then first_available registry
      else preferred preference registry (first_available registry)

  -- The registry after the calls of `init`.
  unfoldable pub registered : List (Implement N) → List (Implement N) → List (Implement N)
  unfolding register_implement
  registered registry [] = registry
  registered registry (impl ∷ impls) = registered (register_implement registry impl) impls
