-- ===== src/Prelude/ListSet.antt =====
-- Lists as an instance of the set packages: what the interface asks can be met.

use mathlib.Core.Path.{◌≡◌, refl}
use mathlib.Core.Logic.{◌↔◌}
use mathlib.Core.Bool.{true, false, not}
use mathlib.Core.List.{List, [], ◌∷◌}
use native.Mathlib.Omega.{arith}
use kertical.Prelude.Tests.{Eq, ◌==◌, if◌then◌else◌, ==_refl}
use kertical.Prelude.Lists.{elem, length, filter}
use kertical.Prelude.Maps.{SetPackage}

module _ {A : Type 0} ⦃e : Eq A⦄ where
  abbrev pub without : A → List A → List A
  without a = filter (λ x. not (a == x))

  pub elem-without :
      (a b : A) (s : List A) → elem b (without a s) ≡ (if a == b then false else elem b s)
  elem-without a b [] = ground arith
  elem-without a b (x ∷ s) =
      ground (arith, elem-without a b s, e.equals_iff a b, e.equals_iff a x, e.equals_iff x b)

  pub elem-cons : (a b : A) (s : List A) → elem b (a ∷ s) ≡ (if a == b then true else elem b s)
  elem-cons a b s = ground arith

  pub length_zero : (s : List A) → (length s ≡ 0) ↔ ((a : A) → elem a s ≡ false)
  length_zero [] = ((λ h a. refl), (λ h. refl))
  length_zero (x ∷ s) = ((λ h. absurd (omega arith)), (λ h. ground (arith, h x, ==_refl x)))

  abbrev pub list_sets : SetPackage A
  list_sets = record {
    Set = List A;
    new = λ xs. xs;
    insert = λ a s. a ∷ s;
    delete = without;
    has = elem;
    len = length;
    has-new = λ b xs. refl;
    has-insert = elem-cons;
    has-delete = elem-without;
    len_zero = length_zero;
  }
