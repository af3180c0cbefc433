-- ===== src/Base/Run.antt =====
-- Code that may die: a failed assertion of a library, or an exception that leaves a `noexcept`
-- function, ends the program. A `bool` function with an output parameter is a `Run (Option A)`,
-- since its callers read the output after `true` only.
use mathlib.Core.Path.{◌≡◌, refl}
use mathlib.Core.Logic.{◌⊎◌, inl, inr}
use mathlib.Core.Bool.{Bool, true, false}
use mathlib.Core.Option
use mathlib.Core.Option.{Option, none, some}

pub data Run {ℓ} (A : Type ℓ) : Type ℓ where
  done : A → Run A
  abort : Run A

infixl 5 ◌>>=◌
abbrev pub ◌>>=◌ {ℓ κ} : {A : Type ℓ} {B : Type κ} → Run A → (A → Run B) → Run B
done a >>= f = f a
abort >>= f = abort

-- `a && b`: the second operand runs only if the first does not decide.
infixr 35 ◌and_then◌
abbrev pub ◌and_then◌ : Run Bool → Run Bool → Run Bool
done true and_then k = k
done false and_then k = done false
abort and_then k = abort

-- The run ends without an abort, in a value that satisfies P.
pub data Returns {ℓ κ} {A : Type ℓ} (P : A → Type κ) : Run A → Type (ℓ ⊔ κ) where
  returns : (a : A) → P a → Returns P (done a)

-- `if (!check) return false;` before the rest of a parser.
abbrev pub when {ℓ} : {A : Type ℓ} → Bool → Run (Option A) → Run (Option A)
when true k = k
when false k = done none

module _ {ℓ κ ℓ' κ'} {A : Type ℓ} {B : Type ℓ'} {P : A → Type κ} {Q : B → Type κ'} where
  pub Returns-bind :
      {m : Run A} {f : A → Run B}
      → Returns P m
      → ((a : A) → P a → Returns Q (f a))
      → Returns Q (m >>= f)
  Returns-bind (returns a p) k = k a p

-- A parser in full: it ends, in a value that the specification describes, or in none, and then
-- the specification describes no value.
abbrev pub Decides {ℓ κ} : {A : Type ℓ} → (A → Type κ) → Run (Option A) → Type (ℓ ⊔ κ)
Decides {A = A} S m = ((a : A) × S a × (m ≡ done (some a))) ⊎ (((a : A) → ¬ S a) × (m ≡ done none))

-- A test in full: it ends, and tells whether P holds.
abbrev pub Settles {κ} : Type κ → Run Bool → Type κ
Settles P m = (P × (m ≡ done true)) ⊎ ((¬ P) × (m ≡ done false))

pub Settles-and_then {κ κ'} :
    {P : Type κ} {Q : Type κ'} {m k : Run Bool}
    → Settles P m
    → (P → Settles Q k)
    → Settles (P × Q) (m and_then k)
Settles-and_then {P} {Q} {m} {k} (inr (absent, e)) h = inr ((λ t. absent t.0), rw e)
Settles-and_then {P} {Q} {m} {k} (inl (p, e)) h = elim (h p) [
  | inl (q, e') ↦ inl ((p, q), rw (e, e'))
  | inr (absent, e') ↦ inr ((λ t. absent t.1), rw (e, e'))
]

pub Settles-Bool : (b : Bool) → Settles (b ≡ true) (done b)
Settles-Bool true = inl (refl, refl)
Settles-Bool false = inr ((λ e. cc), refl)

-- A parser that checks first.
pub Decides-check {ℓ κ κ'} :
    {A : Type ℓ} {S : A → Type κ} {P : Type κ'} {c : Run Bool} {m : Run (Option A)}
    → Settles P c
    → (P → Decides S m)
    → ((a : A) → S a → P)
    → Decides S (do ok ← c; when ok m)
Decides-check (inr (absent, e)) h down = inr ((λ a s. absent (down a s)), rw e)
Decides-check (inl (p, e)) h down = elim (h p) [
  | inl (a, s, e') ↦ inl (a, s, rw (e, e'))
  | inr (absent, e') ↦ inr (absent, rw (e, e'))
]

-- Two parsers in turn, where what the second reads is described by T.
pub Decides-bind {ℓ κ ℓ' κ'} :
    {A : Type ℓ} {B : Type ℓ'} (S : A → Type κ) (T : B → Type κ') (g : A → B) (m : Run (Option A))
    → Decides S m
    → ((a : A) → S a → T (g a))
    → ((b : B) → T b → (a : A) × S a)
    → Decides T (do o ← m; done (Option.map g o))
Decides-bind S T g m (inl (a, s, e)) up down = inl (g a, up a s, rw e)
Decides-bind S T g m (inr (absent, e)) up down =
    inr ((λ b t. let (a, s) = down b t in absent a s), rw e)
