-- ===== src/Istream.antt =====
-- std::istream over a text, as the code uses it: `good` is the sentry, which sets failbit where it
-- fails, and a failed extraction of a word leaves its target as it was. The bytes are those of the
-- classic locale.
pub mod Decimal
pub mod Progress
pub mod Words
use xerock.Base.{
  ℕ, ◌+◌, Option, none, some, ◌*◌, ◌-◌, ◌%◌, ◌^◌, Bool, true, false, ◌||◌, ◌&&◌, not, List, [], ◌∷◌,
  if◌then◌else◌, ◌==◌, leb, ltb, Text,
}
use xerock.Base.Int.{ℤ, pos, negsuc}

pub record Istream : Type 0 where
  pub rest : Text
  pub eof : Bool
  pub failed : Bool

abbrev pub over : Text → Istream
over text = record { rest = text; eof = false; failed = false }

abbrev pub failing : Istream → Istream
failing s = record s { failed = true }

abbrev pub good : Istream → Bool
good s = not (s.eof || s.failed)

-- The characters that isspace accepts.
abbrev pub is_space : ℕ → Bool
is_space c = (c == 32) || (leb 9 c && leb c 13)

abbrev pub is_digit : ℕ → Bool
is_digit c = leb 48 c && leb c 57

abbrev pub skip_space : Text → Text
skip_space [] = []
skip_space (c ∷ cs) = if is_space c then skip_space cs else c ∷ cs

-- The word at the front, and what is behind it.
abbrev pub word : Text → Text × Text
word [] = ([], [])
word (c ∷ cs) = if is_space c then ([], c ∷ cs) else (c ∷ (word cs).0, (word cs).1)

abbrev pub at_end : Text → Bool
at_end [] = true
at_end (c ∷ cs) = false

-- `in >> text`, behind the white space: what was there before is the first argument.
abbrev pub take_word : Text → Text → Text × Istream
take_word old [] = (old, record { rest = []; eof = true; failed = true })
take_word old (c ∷ cs) = (
  (word (c ∷ cs)).0,
  record { rest = (word (c ∷ cs)).1; eof = at_end (word (c ∷ cs)).1; failed = false },
)

unfoldable pub read_word : Text → Istream → Text × Istream
read_word old s = if good s then take_word old (skip_space s.rest) else (old, failing s)

-- The digits at the front, and what is behind them.
abbrev pub digits : Text → Text × Text
digits [] = ([], [])
digits (c ∷ cs) = if is_digit c then (c ∷ (digits cs).0, (digits cs).1) else ([], c ∷ cs)

abbrev pub value : ℕ → Text → ℕ
value n [] = n
value n (c ∷ cs) = value (n * 10 + (c - 48)) cs

-- Whether there is a sign at the front, whether it is a minus, and what is behind it.
abbrev pub sign : Text → Bool × Text
sign [] = (false, [])
sign (c ∷ cs) = if c == 45 then (true, cs) else if c == 43 then (false, cs) else (false, c ∷ cs)

-- The number, and whether the extraction fails.
abbrev pub to_int : Bool → Text → ℤ × Bool
to_int minus [] = (pos 0, true)
to_int true (c ∷ cs) =
    let n = value 0 (c ∷ cs) in
    if n == 0
    then (pos 0, false)
    else if leb n (2 ^ 31)
    then (negsuc (n - 1), false)
    else (negsuc (2 ^ 31 - 1), true)
to_int false (c ∷ cs) =
    let n = value 0 (c ∷ cs) in if ltb n (2 ^ 31) then (pos n, false) else (pos (2 ^ 31 - 1), true)

abbrev pub to_unsigned_long : Bool → Text → ℕ × Bool
to_unsigned_long minus [] = (0, true)
to_unsigned_long minus (c ∷ cs) =
    let n = value 0 (c ∷ cs) in
    if leb (2 ^ 64) n
    then (2 ^ 64 - 1, true)
    else if minus && ltb 0 n
    then (2 ^ 64 - n, false)
    else (n, false)

abbrev signed : Bool → ℕ → ℕ
signed false n = n % 2 ^ 64
signed true n = (2 ^ 64 - n % 2 ^ 64) % 2 ^ 64

-- `std::atol`, as the `unsigned long` that it is assigned to.
abbrev pub atol : Text → ℕ
atol t = let behind = sign (skip_space t) in signed behind.0 (value 0 (digits behind.1).0)

module _ {ℓ} {A : Type ℓ} (convert : Bool → Text → A × Bool) where
  abbrev pub converted : Bool → Text × Text → A × Istream
  converted minus (ds, rest) = (
    (convert minus ds).0,
    record { rest = rest; eof = at_end rest; failed = (convert minus ds).1 },
  )

  abbrev pub take_number : A → Text → A × Istream
  take_number old [] = (old, record { rest = []; eof = true; failed = true })
  take_number old (c ∷ cs) = converted (sign (c ∷ cs)).0 (digits (sign (c ∷ cs)).1)

  -- `in >> number`.
  unfoldable pub read_number : A → Istream → A × Istream
  read_number old s = if good s then take_number old (skip_space s.rest) else (old, failing s)

abbrev pub read_int : ℤ → Istream → ℤ × Istream
read_int = read_number to_int

abbrev pub read_unsigned_long : ℕ → Istream → ℕ × Istream
read_unsigned_long = read_number to_unsigned_long

-- What stands before the first d, what stands behind it, and whether there is one.
abbrev pub split_at : ℕ → Text → Text × Text × Bool
split_at d [] = ([], [], false)
split_at d (c ∷ cs) =
    if c == d then ([], cs, true) else (c ∷ (split_at d cs).0, (split_at d cs).1, (split_at d cs).2)

-- `in.ignore(max, d)`.
unfoldable pub ignore : ℕ → Istream → Istream
ignore d s =
    if good s
    then record { rest = (split_at d s.rest).1; eof = not (split_at d s.rest).2; failed = false }
    else failing s

-- `std::getline(in, text, d)`; it fails too where there is nothing left.
unfoldable pub getline : ℕ → Text → Istream → Text × Istream
getline d old s =
    if good s
    then (
      (split_at d s.rest).0,
      record {
        rest = (split_at d s.rest).1;
        eof = not (split_at d s.rest).2;
        failed = at_end s.rest;
      },
    )
    else (old, failing s)

-- `in >> c`, for one character: none where the extraction fails.
abbrev pub take_char : Text → Option ℕ × Istream
take_char [] = (none, record { rest = []; eof = true; failed = true })
take_char (c ∷ cs) = (some c, over cs)

unfoldable pub read_char : Istream → Option ℕ × Istream
read_char s = if good s then take_char (skip_space s.rest) else (none, failing s)
