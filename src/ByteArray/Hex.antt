-- ===== src/ByteArray/Hex.antt =====
-- On the output of `Byte_Array::to_hex`.
use xerock.Base.{
  ℕ, suc, ◌+◌, ◌-◌, ◌*◌, ◌/◌, ◌%◌, ◌<◌, ◌≡◌, refl, ap, ◌∙◌, Bool, true, false, ◌&&◌, List, [], ◌∷◌,
  ◌++◌, Option, none, some, arith, Text, length, leb, ◌==◌, if◌then◌else◌, All, Bool-cases, inl,
  inr,
}
use xerock.Base.Run.{done, ◌>>=◌, Returns, returns, Returns-bind}
use xerock.ByteArray.{digit, byte_to_hex, separates, hex_from, to_hex}

abbrev pub IsByte : ℕ → Type 0
IsByte b = b < 256

-- The value of a hexadecimal digit in either case.
abbrev pub digit_value : ℕ → Option ℕ
digit_value c =
    if leb b'0' c && leb c b'9'
    then some (c - b'0')
    else if leb b'A' c && leb c b'F'
    then some (c - b'A' + 10)
    else if leb b'a' c && leb c b'f'
    then some (c - b'a' + 10)
    else none

-- A reader that skips what is no digit; the first argument is the high half of a byte read so far.
abbrev pub from_hex : Option ℕ → Text → List ℕ
from_hex high [] = []
from_hex high (c ∷ cs) = elim (digit_value c) [
  | none ↦ from_hex high cs
  | some d ↦ elim high [ none ↦ from_hex (some d) cs | some h ↦ (h * 16 + d) ∷ from_hex none cs ]
]

-- No hexadecimal digit, so a reader tells it from the bytes.
abbrev pub IsSeparator : ℕ → Type 0
IsSeparator c = digit_value c ≡ none

digit_value-digit : (up_case : Bool) (d : ℕ) → d < 16 → digit_value (digit up_case d) ≡ some d
digit_value-digit up_case d h = ground arith

from_hex-byte_to_hex :
    (up_case : Bool) (b : ℕ) (rest : Text)
    → IsByte b
    → from_hex none (byte_to_hex up_case b ++ rest) ≡ b ∷ from_hex none rest
unfolding byte_to_hex
from_hex-byte_to_hex up_case b rest h =
    rw (digit_value-digit up_case (b / 16) (omega arith), from_hex)
      (rw (digit_value-digit up_case (b % 16) (omega arith), from_hex)
        (ap (λ x. x ∷ from_hex none rest) (omega arith)))

from_hex-append :
    (sep rest : Text) → All IsSeparator sep → from_hex none (sep ++ rest) ≡ from_hex none rest
from_hex-append [] rest h = refl
from_hex-append (c ∷ sep) rest h = rw (h.0, from_hex) (from_hex-append sep rest h.1)

-- The test on the separator does not divide by zero.
separates-done : (i size k : ℕ) → 0 < k → (b : Bool) × (separates i size k ≡ done b)
unfolding separates
separates-done i size k h = elim (Bool-cases (i + 1 == size)) [
  | inl e ↦ (false, rw e)
  | inr e ↦ ((i + 1) % k == 0, ground arith)
]

from_hex-between :
    (b : Bool) (sep rest : Text)
    → All IsSeparator sep
    → from_hex none ((if b then sep else []) ++ rest) ≡ from_hex none rest
from_hex-between true sep rest h = from_hex-append sep rest h
from_hex-between false sep rest h = refl

hex_from-Returns :
    (up_case : Bool) (sep : Text) (k size i : ℕ) (bytes : List ℕ)
    → All IsSeparator sep
    → 0 < k
    → All IsByte bytes
    → Returns (λ t. from_hex none t ≡ bytes) (hex_from up_case sep k size i bytes)
unfolding hex_from
hex_from-Returns up_case sep k size i [] hs hk hb = returns [] refl
hex_from-Returns up_case sep k size i (b ∷ bs) hs hk hb =
    let (bit, e) = separates-done i size k hk in
    rw (e, ◌>>=◌)
      (Returns-bind (hex_from-Returns up_case sep k size (suc i) bs hs hk hb.1) λ rest p.
        returns _ (
          from_hex-byte_to_hex up_case b ((if bit then sep else []) ++ rest) hb.0
          ∙ ap (λ x. b ∷ x) (from_hex-between bit sep rest hs ∙ p)))

-- For every list of bytes, either case of the digits, a positive `byte_space` and a separator
-- without hexadecimal digits, `to_hex` ends without a fault in a text from which a reader of
-- pairs of digits gets the bytes back.
pub to_hex-Returns :
    (up_case : Bool) (sep : Text) (k : ℕ) (bytes : List ℕ)
    → All IsSeparator sep
    → 0 < k
    → All IsByte bytes
    → Returns (λ t. from_hex none t ≡ bytes) (to_hex up_case sep k bytes)
unfolding to_hex
to_hex-Returns up_case sep k bytes hs hk hb =
    hex_from-Returns up_case sep k (length bytes) 0 bytes hs hk hb
