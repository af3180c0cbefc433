-- ===== src/Istream/Progress.antt =====
-- What an extraction leaves: no more text than there was, and less behind a line or a field.
use xerock.Base.{
  ℕ, suc, ◌≤◌, ◌<◌, ◌≡◌, refl, true, false, Bool, not, Bool-cases, inl, inr, [], ◌∷◌, Text, length,
  arith,
}
use xerock.Istream.{
  Istream, good, at_end, is_space, skip_space, word, digits, sign, take_word, take_number, split_at,
  read_word, read_number, ignore, getline,
}

-- The text that is left, and one more while its end has not been seen.
abbrev pub weight_of : Text → Bool → ℕ
weight_of text true = length text
weight_of text false = suc (length text)

abbrev pub weight : Istream → ℕ
weight s = weight_of s.rest s.eof

length-split_at : (d : ℕ) (cs : Text) → length (split_at d cs).1 ≤ length cs
length-split_at d [] = omega arith
length-split_at d (c ∷ cs) = ground (arith, length-split_at d cs)

length-split_at-cons : (d c : ℕ) (cs : Text) → length (split_at d (c ∷ cs)).1 < suc (length cs)
length-split_at-cons d c cs = ground (arith, length-split_at d cs)

length-skip_space : (cs : Text) → length (skip_space cs) ≤ length cs
length-skip_space [] = omega arith
length-skip_space (c ∷ cs) = ground (arith, length-skip_space cs)

length-word : (cs : Text) → length (word cs).1 ≤ length cs
length-word [] = omega arith
length-word (c ∷ cs) = ground (arith, length-word cs)

length-digits : (cs : Text) → length (digits cs).1 ≤ length cs
length-digits [] = omega arith
length-digits (c ∷ cs) = ground (arith, length-digits cs)

length-sign : (cs : Text) → length (sign cs).1 ≤ length cs
length-sign [] = omega arith
length-sign (c ∷ cs) = ground arith

weight_of-le : (text : Text) (e : Bool) → weight_of text e ≤ suc (length text)
weight_of-le text true = omega arith
weight_of-le text false = omega arith

-- The weight of a good stream is that of one whose end has not been seen.
weight-good : (s : Istream) → good s ≡ true → weight s ≡ suc (length s.rest)
weight-good s h = elim (Bool-cases s.eof) [ inl e ↦ cc (h, e) | inr e ↦ rw e ]

pub weight-ignore : (d : ℕ) (s : Istream) → weight (ignore d s) ≤ weight s
unfolding ignore
weight-ignore d s = elim (Bool-cases (good s)) [
  | inl h ↦ rw h (
      omega
        (arith, weight-good s h, weight_of-le (split_at d s.rest).1 _, length-split_at d s.rest))
  | inr h ↦ rw h (omega arith)
]

pub weight-getline : (d : ℕ) (old : Text) (s : Istream) → weight (getline d old s).1 ≤ weight s
unfolding getline
weight-getline d old s = elim (Bool-cases (good s)) [
  | inl h ↦ rw h (
      omega
        (arith, weight-good s h, weight_of-le (split_at d s.rest).1 _, length-split_at d s.rest))
  | inr h ↦ rw h (omega arith)
]

less-split_at :
    (d : ℕ) (cs : Text) → weight_of (split_at d cs).1 (not (split_at d cs).2) < suc (length cs)
less-split_at d [] = omega arith
less-split_at d (c ∷ cs) = omega (
  arith,
  weight_of-le (split_at d (c ∷ cs)).1 (not (split_at d (c ∷ cs)).2),
  length-split_at-cons d c cs,
)

-- Where the end has not been seen and nothing has failed.
pub weight-getline-good :
    (d : ℕ) (old : Text) (s : Istream) → good s ≡ true → weight (getline d old s).1 < weight s
unfolding getline
weight-getline-good d old s h = rw h (omega (arith, weight-good s h, less-split_at d s.rest))

weight-take_word : (old cs : Text) → weight (take_word old cs).1 ≤ suc (length cs)
weight-take_word old [] = omega arith
weight-take_word old (c ∷ cs) =
    omega (arith, weight_of-le (word (c ∷ cs)).1 _, length-word (c ∷ cs))

pub weight-read_word : (old : Text) (s : Istream) → weight (read_word old s).1 ≤ weight s
unfolding read_word
weight-read_word old s = elim (Bool-cases (good s)) [
  | inl h ↦ rw h (
      omega (
        arith,
        weight-good s h,
        weight-take_word old (skip_space s.rest),
        length-skip_space s.rest,
      ))
  | inr h ↦ rw h (omega arith)
]

module _ {ℓ} {A : Type ℓ} (convert : Bool → Text → A × Bool) where
  weight-take_number :
      (old : A) (cs : Text) → weight (take_number convert old cs).1 ≤ suc (length cs)
  weight-take_number old [] = omega arith
  weight-take_number old (c ∷ cs) =
      let r = (sign (c ∷ cs)).1 in
      omega (arith, weight_of-le (digits r).1 _, length-digits r, length-sign (c ∷ cs))

  pub weight-read_number : (old : A) (s : Istream) → weight (read_number convert old s).1 ≤ weight s
  unfolding read_number
  weight-read_number old s = elim (Bool-cases (good s)) [
    | inl h ↦ rw h (
        omega (
          arith,
          weight-good s h,
          weight-take_number old (skip_space s.rest),
          length-skip_space s.rest,
        ))
    | inr h ↦ rw h (omega arith)
  ]

-- A stream that has failed before its end was seen stays as it is.
abbrev pub Stuck : Istream → Type 0
Stuck s = (s.failed ≡ true) × (s.eof ≡ false)

pub Stuck-bad : (s : Istream) → Stuck s → good s ≡ false
Stuck-bad s (f, e) = rw (f, e)

pub Stuck-read_word : (old : Text) (s : Istream) → Stuck s → Stuck (read_word old s).1
unfolding read_word
Stuck-read_word old s h = rw (Stuck-bad s h) (refl, h.1)

pub Stuck-read_number {ℓ} :
    {A : Type ℓ} (convert : Bool → Text → A × Bool) (old : A) (s : Istream)
    → Stuck s
    → Stuck (read_number convert old s).1
unfolding read_number
Stuck-read_number convert old s h = rw (Stuck-bad s h) (refl, h.1)

pub Stuck-ignore : (d : ℕ) (s : Istream) → Stuck s → Stuck (ignore d s)
unfolding ignore
Stuck-ignore d s h = rw (Stuck-bad s h) (refl, h.1)

pub Stuck-getline : (d : ℕ) (old : Text) (s : Istream) → Stuck s → Stuck (getline d old s).1
unfolding getline
Stuck-getline d old s h = rw (Stuck-bad s h) (refl, h.1)

less-word : (c : ℕ) (cs : Text) → is_space c ≡ false → length (word (c ∷ cs)).1 < suc (length cs)
less-word c cs h = rw h (omega (arith, length-word cs))

-- White space is gone at the front of what is left.
less-take_word : (old cs : Text) → weight (take_word old (skip_space cs)).1 < suc (length cs)
less-take_word old [] = omega arith
less-take_word old (c ∷ cs) = elim (Bool-cases (is_space c)) [
  | inl h ↦ rw h (omega (arith, less-take_word old cs))
  | inr h ↦
      let less = less-word c cs h in
      rw h (omega (arith, less, weight_of-le (word (c ∷ cs)).1 (at_end (word (c ∷ cs)).1)))
]

pub weight-read_word-good :
    (old : Text) (s : Istream) → good s ≡ true → weight (read_word old s).1 < weight s
unfolding read_word
weight-read_word-good old s h = rw h (omega (arith, weight-good s h, less-take_word old s.rest))
