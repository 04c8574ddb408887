-- ===== src/Prelude/Maps.antt =====
-- Go's maps and sets: a map as a partial function, a set through the interface of its package.
use Prim.Native.Nat.{ℕ}
use mathlib.Core.Path.{◌≡◌}
use mathlib.Core.Logic.{◌↔◌}
use mathlib.Core.Bool.{Bool, true, false}
use mathlib.Core.Option.{Option, none, some}
use mathlib.Core.List.{List}
use kertical.Prelude.Tests.{Eq, ◌==◌, if◌then◌else◌}
use kertical.Prelude.Lists.{elem}

module _ {K V : Type 0} ⦃e : Eq K⦄ where
  -- m[k] = v
  abbrev pub update : K → V → (K → Option V) → K → Option V
  update k v m j = if k == j then some v else m j

  -- delete(m, k)
  abbrev pub remove : K → (K → Option V) → K → Option V
  remove k m j = if k == j then none else m j

-- The sets of k8s.io/apimachinery/pkg/util/sets and of k8s.io/utils/set, with what their
-- documentation says of the methods that the program calls.
pub record SetPackage (A : Type 0) ⦃e : Eq A⦄ : Type 1 where
  pub Set : Type 0
  pub new : List A → Set
  pub insert : A → Set → Set
  pub delete : A → Set → Set
  pub has : A → Set → Bool
  pub len : Set → ℕ
  pub has-new : (b : A) (xs : List A) → has b (new xs) ≡ elem b xs
  pub has-insert : (a b : A) (s : Set) → has b (insert a s) ≡ (if a == b then true else has b s)
  pub has-delete : (a b : A) (s : Set) → has b (delete a s) ≡ (if a == b then false else has b s)
  pub len_zero : (s : Set) → (len s ≡ 0) ↔ ((a : A) → has a s ≡ false)
