-- ===== src/MyAsync/Registry.antt =====
-- std::map as the containers of my_async use it: find, operator[] with an assignment, and erase.
-- The order of the keys is not modelled: the list has the keys in the order of their insertion.
pub mod Laws
pub mod Change
use mathlib.Core.Logic.{ite}
use xerock.Base.{◌≡◌, Option, none, some, List, [], ◌∷◌}

module _ {ℓ κ} {K : Type ℓ} {V : Type κ} (eq : Discrete K) where
  unfoldable pub lookup : K → List (K × V) → Option V
  lookup k [] = none
  lookup k ((k', v) ∷ m) = ite (eq k' k) (some v) (lookup k m)

  unfoldable pub assign : K → V → List (K × V) → List (K × V)
  assign k v [] = (k, v) ∷ []
  assign k v ((k', v') ∷ m) = ite (eq k' k) ((k', v) ∷ m) ((k', v') ∷ assign k v m)

  unfoldable pub erase : K → List (K × V) → List (K × V)
  erase k [] = []
  erase k ((k', v') ∷ m) = ite (eq k' k) m ((k', v') ∷ erase k m)

  -- No key occurs twice.
  unfoldable pub Distinct : List (K × V) → Type (ℓ ⊔ κ)
  Distinct [] = Unit
  Distinct ((k, v) ∷ m) = (lookup k m ≡ none) × Distinct m
