-- ===== src/ByteArray/Escape.antt =====
-- On the output of `Byte_Array::to_scape_string`.
use xerock.Base.{
  ℕ, ◌+◌, ◌-◌, ◌*◌, ◌≤◌, ◌≡◌, refl, ap, ◌∙◌, true, false, ◌&&◌, not, List, [], ◌∷◌, ◌++◌, arith,
  Text, ◌==◌, All, All-append, Bool-cases, inl, inr,
}
use xerock.ByteArray.{
  EscapeFormat, printf, hex, octo, byte_to_hex, byte_to_octo, is_print, escape_code,
  to_scape_string,
}
use xerock.ByteArray.Hex.{IsByte}

abbrev pub IsPrintable : ℕ → Type 0
IsPrintable c = (0x20 ≤ c) × (c ≤ 0x7e)

byte_to_hex-All : (b : ℕ) → IsByte b → All IsPrintable (byte_to_hex true b)
unfolding byte_to_hex
byte_to_hex-All b h = ground arith

escape_code-All : (f : EscapeFormat) (b : ℕ) → IsByte b → All IsPrintable (escape_code f b)
unfolding escape_code
escape_code-All printf b h = ground arith
escape_code-All hex b h = ground arith
escape_code-All octo b h = ground arith

-- Whatever the bytes and the format, the text that `to_scape_string` returns is printable if the
-- texts that enclose an escape are.
pub to_scape_string-All :
    (f : EscapeFormat) (enclose_begin enclose_end : Text) (bytes : List ℕ)
    → All IsPrintable enclose_begin
    → All IsPrintable enclose_end
    → All IsByte bytes
    → All IsPrintable (to_scape_string f enclose_begin enclose_end bytes)
unfolding to_scape_string
to_scape_string-All f s t [] hs ht hb = tt
to_scape_string-All f s t (b ∷ bs) hs ht hb =
    All-append IsPrintable _ (to_scape_string f s t bs)
      (elim (Bool-cases (is_print b && not (b == 0x5c))) [
        | inl e ↦ rw e (ground arith)
        | inr e ↦ rw e (
            All-append IsPrintable s (escape_code f b ++ t) hs
              (All-append IsPrintable (escape_code f b) t (escape_code-All f b hb.0) ht))
      ])
      (to_scape_string-All f s t bs hs ht hb.1)

-- How much of an octal escape a reader has seen.
pub data Mode : Type 0 where
  plain first : Mode
  second third : ℕ → Mode

-- A reader of the octal form: a backslash and three digits stand for a byte, and any other
-- character for itself.
abbrev pub unescape_octo : Mode → Text → List ℕ
unescape_octo mode [] = []
unescape_octo plain (c ∷ cs) = elim (c == 0x5c) [
  | true ↦ unescape_octo first cs
  | false ↦ c ∷ unescape_octo plain cs
]
unescape_octo first (c ∷ cs) = unescape_octo (second (c - b'0')) cs
unescape_octo (second high) (c ∷ cs) = unescape_octo (third (high * 8 + (c - b'0'))) cs
unescape_octo (third high) (c ∷ cs) = (high * 8 + (c - b'0')) ∷ unescape_octo plain cs

unescape_octo-byte_to_octo :
    (b : ℕ) (rest : Text)
    → IsByte b
    → unescape_octo first (byte_to_octo b ++ rest) ≡ b ∷ unescape_octo plain rest
unfolding byte_to_octo
unescape_octo-byte_to_octo b rest h = ap (λ x. x ∷ unescape_octo plain rest) (ground arith)

-- For every list of bytes, reading back the octal form with the default enclosing texts (a
-- backslash before an escape, nothing after it) gives the bytes.
pub unescape_octo-to_scape_string :
    (bytes : List ℕ)
    → All IsByte bytes
    → unescape_octo plain (to_scape_string octo (0x5c ∷ []) [] bytes) ≡ bytes
unfolding to_scape_string
unescape_octo-to_scape_string [] h = refl
unescape_octo-to_scape_string (b ∷ bs) h = elim (Bool-cases (is_print b && not (b == 0x5c))) [
  | inl e ↦ rw e (ground (arith, unescape_octo-to_scape_string bs h.1))
  | inr e ↦ rw e (
      unescape_octo-byte_to_octo b (to_scape_string octo (0x5c ∷ []) [] bs) h.0
      ∙ ap (λ x. b ∷ x) (unescape_octo-to_scape_string bs h.1))
]

-- The default form writes a line feed and a carriage return alike, whatever stands around them,
-- so its text does not determine the bytes.
pub to_scape_string-confuses :
    (enclose_begin enclose_end : Text) (xs ys : List ℕ)
    → to_scape_string printf enclose_begin enclose_end (xs ++ 0xa ∷ ys)
      ≡ to_scape_string printf enclose_begin enclose_end (xs ++ 0xd ∷ ys)
unfolding to_scape_string
to_scape_string-confuses s t [] ys = refl
to_scape_string-confuses s t (x ∷ xs) ys = rw (to_scape_string-confuses s t xs ys)
