-- ===== src/Base/Loop.antt =====
-- `while(true) …` on fuel: none means that the fuel ran out before a round left the loop.
use Prim.Native.Nat.{ℕ, zero, suc, ◌≤◌, ◌<◌}
use mathlib.Core.Path.{◌≡◌, refl}
use mathlib.Core.Logic.{◌⊎◌, inl, inr}
use mathlib.Core.Option.{Option, none, some}
use native.Mathlib.Omega.{arith}

module _ {ℓ κ} {S : Type ℓ} {R : Type κ} where
  abbrev next : (S → Option R) → S ⊎ R → Option R
  next k (inl s) = k s
  next k (inr r) = some r

  -- A round goes on with a state, or leaves the loop with a result.
  unfoldable pub loop : ℕ → (S → S ⊎ R) → S → Option R
  loop zero round s = none
  loop (suc n) round s = next (loop n round) (round s)

  -- The loop ends with r, and n rounds are enough.
  abbrev pub EndsIn : ℕ → (S → S ⊎ R) → S → R → Type κ
  EndsIn n round s r = (fuel : ℕ) → n ≤ fuel → loop fuel round s ≡ some r

  abbrev pub Ends : ℕ → (S → S ⊎ R) → S → Type κ
  Ends n round s = (r : R) × EndsIn n round s r

  -- The loop does not end, whatever the fuel.
  abbrev pub Hangs : (S → S ⊎ R) → S → Type κ
  Hangs round s = (fuel : ℕ) → loop fuel round s ≡ none

  module _ (round : S → S ⊎ R) where
    pub Hangs-round : {s s' : S} → round s ≡ inl s' → Hangs round s' → Hangs round s
    unfolding loop
    Hangs-round e h zero = refl
    Hangs-round e h (suc fuel) = rw e (h fuel)

    pub EndsIn-round :
        {s s' : S} {r : R} {n : ℕ}
        → round s ≡ inl s'
        → EndsIn n round s' r
        → EndsIn (suc n) round s r
    unfolding loop
    EndsIn-round e h zero b = absurd (omega arith)
    EndsIn-round e h (suc fuel) b = rw e (h fuel (omega arith))

    pub EndsIn-leave : {s : S} {r : R} {n : ℕ} → round s ≡ inr r → EndsIn (suc n) round s r
    unfolding loop
    EndsIn-leave e zero b = absurd (omega arith)
    EndsIn-leave e (suc fuel) b = rw e

    -- Two states from which the round does the same.
    pub EndsIn-same :
        {s s' : S} {r : R} {n : ℕ} → round s ≡ round s' → EndsIn n round s' r → EndsIn n round s r
    unfolding loop
    EndsIn-same e h zero b = h zero b
    EndsIn-same e h (suc fuel) b = rw e (h (suc fuel) b)

    -- A state in which every round goes on to such a state.
    pub stuck-Hangs {ι} :
        (Stuck : S → Type ι)
        → ((s : S) → Stuck s → (s' : S) × (round s ≡ inl s') × Stuck s')
        → (s : S) → Stuck s
        → Hangs round s
    unfolding loop
    stuck-Hangs Stuck keep s h zero = refl
    stuck-Hangs Stuck keep s h (suc fuel) =
        let (s', e, h') = keep s h in rw e (stuck-Hangs Stuck keep s' h' fuel)

    -- Where a round leaves the loop, gets stuck or makes the measure smaller.
    abbrev pub Progress {ι} : (S → ℕ) → (S → Type ι) → S → Type (ℓ ⊔ κ ⊔ ι)
    Progress measure Stuck s =
        ((r : R) × (round s ≡ inr r))
        ⊎ ((s' : S) × (round s ≡ inl s') × (Stuck s' ⊎ (measure s' < measure s)))

    halting_at {ι} :
        (measure : S → ℕ) (Stuck : S → Type ι)
        → ((s : S) → Stuck s → Hangs round s)
        → ((s : S) → Progress measure Stuck s)
        → (n : ℕ) (s : S) → measure s < n
        → Ends n round s ⊎ Hangs round s
    halting_at measure Stuck stuck go zero s b = absurd (omega arith)
    halting_at measure Stuck stuck go (suc n) s b = elim (go s) [
      | inl (r, e) ↦ inl (r, EndsIn-leave e)
      | inr (s', e, inl h) ↦ inr (Hangs-round e (stuck s' h))
      | inr (s', e, inr less) ↦ elim (halting_at measure Stuck stuck go n s' (omega arith)) [
        | inl (r, ends) ↦ inl (r, EndsIn-round e ends)
        | inr hangs ↦ inr (Hangs-round e hangs)
      ]
    ]

    pub halting {ι} :
        (measure : S → ℕ) (Stuck : S → Type ι)
        → ((s : S) → Stuck s → Hangs round s)
        → ((s : S) → Progress measure Stuck s)
        → (s : S) → Ends (suc (measure s)) round s ⊎ Hangs round s
    halting measure Stuck stuck go s =
        halting_at measure Stuck stuck go (suc (measure s)) s (omega arith)

    bounded_at :
        (measure : S → ℕ)
        → ((s : S)
            → ((r : R) × (round s ≡ inr r))
              ⊎ ((s' : S) × (round s ≡ inl s') × (measure s' < measure s)))
        → (n : ℕ) (s : S) → measure s < n
        → Ends n round s
    bounded_at measure go zero s b = absurd (omega arith)
    bounded_at measure go (suc n) s b = elim (go s) [
      | inl (r, e) ↦ (r, EndsIn-leave e)
      | inr (s', e, less) ↦
          let (r, h) = bounded_at measure go n s' (omega arith) in (r, EndsIn-round e h)
    ]

    -- Where every round leaves the loop or makes the measure smaller.
    pub bounded :
        (measure : S → ℕ)
        → ((s : S)
            → ((r : R) × (round s ≡ inr r))
              ⊎ ((s' : S) × (round s ≡ inl s') × (measure s' < measure s)))
        → (s : S) → Ends (suc (measure s)) round s
    bounded measure go s = bounded_at measure go (suc (measure s)) s (omega arith)
