-- ===== src/MyAsync/Registry/Change.antt =====
-- A call that reads and changes one key of a map.
use mathlib.Core.Logic.{ite, if_pos, if_neg}
use xerock.Base.{◌≡◌, refl, sym, ap, ◌∙◌, Option, none, some, List}
use xerock.MyAsync.Registry.{lookup, assign, erase, Distinct}
use xerock.MyAsync.Registry.Laws.{lookup-assign, lookup-erase, assign-Distinct, erase-Distinct}

lookup_same :
    {K V : Type 0} (eq : Discrete K) (k : K) (m : List (K × V)) (q : K) (x : Option V)
    → lookup eq k m ≡ x
    → lookup eq q m ≡ ite (eq k q) x (lookup eq q m)
lookup_same eq k m q x h = elim (eq k q) [
  | yes e ↦ rw (if_pos (eq k q) e) (sym (ap (λ i. lookup eq i m) e) ∙ h)
  | no n ↦ rw (if_neg (eq k q) n)
]

module _ {K V O : Type 0} (eq : Discrete K) (k : K) (m : List (K × V)) where
  -- The call returns o, leaves x at the key k, nothing else changed, and no key twice.
  abbrev pub Changes : Option V × O → List (K × V) × O → Type 0
  Changes (x, o) r =
      (r.1 ≡ o) × ((q : K) → lookup eq q r.0 ≡ ite (eq k q) x (lookup eq q m)) × Distinct eq r.0

  pub Changes-same :
      (x : Option V) (o : O) → Distinct eq m → lookup eq k m ≡ x → Changes (x, o) (m, o)
  Changes-same x o d h = (refl, (λ q. lookup_same eq k m q x h), d)

  pub Changes-assign : (v : V) (o : O) → Distinct eq m → Changes (some v, o) (assign eq k v m, o)
  Changes-assign v o d = (refl, (λ q. lookup-assign eq q k v m), assign-Distinct eq k v m d)

  pub Changes-erase : (o : O) → Distinct eq m → Changes (none, o) (erase eq k m, o)
  Changes-erase o d = (refl, (λ q. lookup-erase eq q k m d), erase-Distinct eq k m d)
