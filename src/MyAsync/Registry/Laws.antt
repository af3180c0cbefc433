-- ===== src/MyAsync/Registry/Laws.antt =====
-- On what is found after a change of the map.
use mathlib.Core.Logic.{ite, if_pos, if_neg}
use xerock.Base.{◌≡◌, refl, sym, ap, ◌∙◌, none, some, List, [], ◌∷◌}
use xerock.MyAsync.Registry.{lookup, assign, erase, Distinct}

module _ {ℓ κ} {K : Type ℓ} {V : Type κ} (eq : Discrete K) where
  pub lookup-assign :
      (q k : K) (v : V) (m : List (K × V))
      → lookup eq q (assign eq k v m) ≡ ite (eq k q) (some v) (lookup eq q m)
  unfolding lookup assign
  lookup-assign q k v [] = refl
  lookup-assign q k v ((k', v') ∷ m) = elim (eq k' k) [
    | yes e ↦ elim (eq k' q) [
      | yes e' ↦ rw (if_pos (eq k' k) e, if_pos (eq k' q) e', if_pos (eq k q) (sym e ∙ e'))
      | no n ↦ rw (
        if_pos (eq k' k) e,
        if_neg (eq k' q) n,
        if_neg (eq k q) (λ p. n (e ∙ p)),
        if_neg (eq k' q) n,
      )
    ]
    | no n ↦ elim (eq k' q) [
      | yes e' ↦ rw (
        if_neg (eq k' k) n,
        if_pos (eq k' q) e',
        if_neg (eq k q) (λ p. n (e' ∙ sym p)),
        if_pos (eq k' q) e',
      )
      | no n' ↦
          rw (if_neg (eq k' k) n, if_neg (eq k' q) n', if_neg (eq k' q) n', lookup-assign q k v m)
    ]
  ]

  pub lookup-erase :
      (q k : K) (m : List (K × V))
      → Distinct eq m
      → lookup eq q (erase eq k m) ≡ ite (eq k q) none (lookup eq q m)
  unfolding lookup erase Distinct
  lookup-erase q k [] h = elim (eq k q) [
    | yes e ↦ rw (if_pos (eq k q) e)
    | no n ↦ rw (if_neg (eq k q) n)
  ]
  lookup-erase q k ((k', v') ∷ m) (h, d) = elim (eq k' k) [
    | yes e ↦ elim (eq k q) [
      | yes e' ↦
          rw (if_pos (eq k' k) e, if_pos (eq k q) e') (sym (ap (λ x. lookup eq x m) (e ∙ e')) ∙ h)
      | no n ↦ rw (if_pos (eq k' k) e, if_neg (eq k q) n, if_neg (eq k' q) (λ p. n (sym e ∙ p)))
    ]
    | no n ↦ elim (eq k' q) [
      | yes e' ↦ rw (
        if_neg (eq k' k) n,
        if_pos (eq k' q) e',
        if_neg (eq k q) (λ p. n (e' ∙ sym p)),
        if_pos (eq k' q) e',
      )
      | no n' ↦
          rw (if_neg (eq k' k) n, if_neg (eq k' q) n', if_neg (eq k' q) n', lookup-erase q k m d)
    ]
  ]

  pub assign-Distinct :
      (k : K) (v : V) (m : List (K × V)) → Distinct eq m → Distinct eq (assign eq k v m)
  unfolding Distinct assign lookup
  assign-Distinct k v [] h = (refl, tt)
  assign-Distinct k v ((k', v') ∷ m) (h, d) = elim (eq k' k) [
    | yes e ↦ rw (if_pos (eq k' k) e) (h, d)
    | no n ↦ rw (if_neg (eq k' k) n) (
      lookup-assign k' k v m ∙ if_neg (eq k k') (λ p. n (sym p)) _ _ ∙ h,
      assign-Distinct k v m d,
    )
  ]

  pub erase-Distinct : (k : K) (m : List (K × V)) → Distinct eq m → Distinct eq (erase eq k m)
  unfolding Distinct erase
  erase-Distinct k [] h = tt
  erase-Distinct k ((k', v') ∷ m) (h, d) = elim (eq k' k) [
    | yes e ↦ rw (if_pos (eq k' k) e) d
    | no n ↦
        rw (if_neg (eq k' k) n)
          (lookup-erase k' k m d ∙ if_neg (eq k k') (λ p. n (sym p)) _ _ ∙ h, erase-Distinct k m d)
  ]
