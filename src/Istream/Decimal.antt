-- ===== src/Istream/Decimal.antt =====
-- Numbers in decimal: `out << number`, and what an extraction reads of it.
use mathlib.Core.List.{cons-ne-nil}
use xerock.Base.{
  ℕ, zero, suc, ◌+◌, ◌-◌, ◌*◌, ◌/◌, ◌%◌, ◌^◌, ◌<◌, ◌≡◌, ◌≢◌, refl, true, false, Bool, [], ◌∷◌, ◌++◌,
  arith, ltb, leb, ◌==◌, if◌then◌else◌, Text, All, All-append, Bool-cases, inl, inr,
}
use xerock.Base.Int.{ℤ, pos, negsuc}
use xerock.Istream.{
  over, is_space, is_digit, digits, value, to_int, to_unsigned_long, read_number, read_int,
  read_unsigned_long, converted, atol,
}

show_on : ℕ → ℕ → Text
show_on zero n = []
show_on (suc fuel) n =
    let front = show_on fuel (n / 10) in
    if ltb n 10 then (48 + n) ∷ [] else front ++ (48 + n % 10) ∷ []

-- As many rounds as the number are enough.
unfoldable pub show : ℕ → Text
unfolding show_on
show n = show_on (suc n) n

unfoldable pub show_int : ℤ → Text
unfolding show
show_int (pos n) = show n
show_int (negsuc n) = 45 ∷ show (suc n)

abbrev pub IsDigit : ℕ → Type 0
IsDigit c = is_digit c ≡ true

value-append : (n : ℕ) (xs ys : Text) → value n (xs ++ ys) ≡ value (value n xs) ys
value-append n [] ys = refl
value-append n (x ∷ xs) ys = value-append (n * 10 + (x - 48)) xs ys

show_on-digits : (fuel n : ℕ) → All IsDigit (show_on fuel n)
unfolding show_on
show_on-digits zero n = tt
show_on-digits (suc fuel) n = elim (Bool-cases (ltb n 10)) [
  | inl e ↦ rw e (ground arith, tt)
  | inr e ↦ rw e (
      All-append IsDigit (show_on fuel (n / 10)) _ (show_on-digits fuel (n / 10))
        (ground arith, tt))
]

value-show_on : (fuel n : ℕ) → n < fuel → value 0 (show_on fuel n) ≡ n
unfolding show_on
value-show_on zero n h = absurd (omega arith)
value-show_on (suc fuel) n h = elim (Bool-cases (ltb n 10)) [
  | inl e ↦ rw e (omega arith)
  | inr e ↦
      rw (e, value-append 0 (show_on fuel (n / 10)) ((48 + n % 10) ∷ []))
        (ground (arith, value-show_on fuel (n / 10)))
]

pub value-show : (n : ℕ) → value 0 (show n) ≡ n
unfolding show
value-show n = value-show_on (suc n) n (omega arith)

show_on-ne-nil : (fuel n : ℕ) → show_on (suc fuel) n ≢ []
unfolding show_on
show_on-ne-nil fuel n = elim (Bool-cases (ltb n 10)) [
  | inl e ↦ rw e (cons-ne-nil (48 + n) [])
  | inr e ↦ rw e (append-ne-nil (show_on fuel (n / 10)) _)
]
  where
    append-ne-nil : (xs : Text) (x : ℕ) → xs ++ x ∷ [] ≢ []
    append-ne-nil [] x h = cc
    append-ne-nil (y ∷ ys) x h = cc

-- The print of a number is a digit and further digits.
pub show-Cons : (n : ℕ) → (c : ℕ) × (cs : Text) × (show n ≡ c ∷ cs) × IsDigit c × All IsDigit cs
unfolding show
show-Cons n = split (show_on (suc n) n) (show_on-ne-nil n n) (show_on-digits (suc n) n)
  where
    split :
        (ds : Text)
        → ds ≢ []
        → All IsDigit ds
        → (c : ℕ) × (cs : Text) × (ds ≡ c ∷ cs) × IsDigit c × All IsDigit cs
    split [] h a = absurd (h refl)
    split (c ∷ cs) h (a, rest) = (c, cs, refl, a, rest)

digits-append :
    (d : ℕ) (ds r : Text) → is_digit d ≡ false → All IsDigit ds → digits (ds ++ d ∷ r) ≡ (ds, d ∷ r)
digits-append d [] r b h = rw b
digits-append d (e ∷ es) r b (h, hs) = rw (h, digits-append d es r b hs)

-- A digit is neither white space nor a sign.
IsDigit-plain :
    (c : ℕ) → IsDigit c → (is_space c ≡ false) × ((c == 45) ≡ false) × ((c == 43) ≡ false)
IsDigit-plain c h = (ground (arith, h), ground (arith, h), ground (arith, h))

module _ {ℓ} {A : Type ℓ} (convert : Bool → Text → A × Bool) where
  -- What is left when a number without a sign has been read.
  pub read_number-digits :
      (d c : ℕ) (old : A) (cs r : Text)
      → is_digit d ≡ false
      → IsDigit c
      → All IsDigit cs
      → read_number convert old (over (c ∷ cs ++ d ∷ r)) ≡ converted convert false (c ∷ cs, d ∷ r)
  unfolding read_number
  read_number-digits d c old cs r b h hs =
      let (dull, plain, plain') = IsDigit-plain c h in
      rw (dull, plain, plain', h, digits-append d cs r b hs)

read_int-minus :
    (old : ℤ) (c : ℕ) (cs r : Text)
    → IsDigit c
    → All IsDigit cs
    → read_int old (over (45 ∷ c ∷ cs ++ 10 ∷ r)) ≡ converted to_int true (c ∷ cs, 10 ∷ r)
unfolding read_number
read_int-minus old c cs r h hs = rw (h, digits-append 10 cs r refl hs)

abbrev pub IsInt32 : ℤ → Type 0
IsInt32 (pos n) = n < 2 ^ 31
IsInt32 (negsuc n) = n < 2 ^ 31

-- A printed `int` is read back up to the end of its line.
pub read_int-show_int :
    (p old : ℤ) (r : Text)
    → IsInt32 p
    → read_int old (over (show_int p ++ 10 ∷ r)) ≡ (p, over (10 ∷ r))
unfolding show_int
read_int-show_int (pos n) old r b =
    let (c, cs, e, h, hs) = show-Cons n in
    let v : value 0 (c ∷ cs) ≡ n = cc (value-show n, e) in
    let small : ltb n (2 ^ 31) ≡ true = ground (arith, b) in
    rw (e, read_number-digits to_int 10 c old cs r refl h hs, v, small)
read_int-show_int (negsuc n) old r b =
    let (c, cs, e, h, hs) = show-Cons (suc n) in
    let v : value 0 (c ∷ cs) ≡ suc n = cc (value-show (suc n), e) in
    let some_number : (suc n == 0) ≡ false = ground arith in
    let small : leb (suc n) (2 ^ 31) ≡ true = ground (arith, b) in
    let back : suc n - 1 ≡ n = omega arith in
    rw (e, read_int-minus old c cs r h hs, v, some_number, small, back)

-- A printed `unsigned long` is read back, up to a character that is no digit.
pub read_unsigned_long-show :
    (d n old : ℕ) (r : Text)
    → is_digit d ≡ false
    → n < 2 ^ 64
    → read_unsigned_long old (over (show n ++ d ∷ r)) ≡ (n, over (d ∷ r))
read_unsigned_long-show d n old r b small =
    let (c, cs, e, h, hs) = show-Cons n in
    let v : value 0 (c ∷ cs) ≡ n = cc (value-show n, e) in
    let fits : leb (2 ^ 64) n ≡ false = ground (arith, small) in
    rw (e, read_number-digits to_unsigned_long d c old cs r b h hs, v, fits)

digits-All : (ds : Text) → All IsDigit ds → digits ds ≡ (ds, [])
digits-All [] h = refl
digits-All (d ∷ ds) (h, hs) = rw (h, digits-All ds hs)

pub atol-show : (n : ℕ) → n < 2 ^ 64 → atol (show n) ≡ n
atol-show n small =
    let (c, cs, e, h, hs) = show-Cons n in
    let v : value 0 (c ∷ cs) ≡ n = cc (value-show n, e) in
    let (dull, plain, plain') = IsDigit-plain c h in
    let fits : n % 2 ^ 64 ≡ n = omega (arith, small) in
    rw (e, dull, plain, plain', h, digits-All cs hs, v, fits)

digits-dull : (cs : Text) → All IsDigit cs → All (λ c. is_space c ≡ false) cs
digits-dull [] h = tt
digits-dull (c ∷ cs) (h, hs) = ((IsDigit-plain c h).0, digits-dull cs hs)

-- The print of a number has no white space.
pub show-dull : (n : ℕ) → All (λ c. is_space c ≡ false) (show n)
show-dull n = let (c, cs, e, h, hs) = show-Cons n in rw e ((IsDigit-plain c h).0, digits-dull cs hs)
