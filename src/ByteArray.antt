-- ===== src/ByteArray.antt =====
-- src/libs/byte_array: `Byte_Array`, a vector of bytes with its conversions to text.
pub mod Hex
pub mod Escape
mod Examples
use xerock.Base.{
  ℕ, suc, ◌+◌, ◌-◌, ◌/◌, ◌%◌, Bool, true, false, ◌&&◌, not, List, [], ◌∷◌, ◌++◌, Text, length, ltb,
  leb, ◌==◌, if◌then◌else◌,
}
use xerock.Base.Run.{Run, done, abort, ◌>>=◌}

pub data EscapeFormat : Type 0 where
  printf hex octo : EscapeFormat

-- A digit as `std::hex` prints it, with `std::uppercase` or `std::nouppercase`.
abbrev pub digit : Bool → ℕ → ℕ
digit up_case d = if ltb d 10 then b'0' + d else (if up_case then b'A' else b'a') + (d - 10)

-- setw(2) and setfill('0'): a `uint8_t` has two digits.
unfoldable pub byte_to_hex : Bool → ℕ → Text
byte_to_hex up_case byte = digit up_case (byte / 16) ∷ digit up_case (byte % 16) ∷ []

-- setw(3) and setfill('0'): a `uint8_t` has three digits.
unfoldable pub byte_to_octo : ℕ → Text
byte_to_octo byte =
    digit false (byte / 64) ∷ digit false (byte / 8 % 8) ∷ digit false (byte % 8) ∷ []

-- `(i + 1) != size() && ((i + 1) % byte_space) == 0`: a remainder by 0 ends the program.
unfoldable pub separates : ℕ → ℕ → ℕ → Run Bool
separates i size byte_space =
    if i + 1 == size
    then done false
    else if byte_space == 0
    then abort
    else done ((i + 1) % byte_space == 0)

-- The loop of `to_hex` from index i on, whose bytes are the list.
unfoldable pub hex_from : Bool → Text → ℕ → ℕ → ℕ → List ℕ → Run Text
unfolding byte_to_hex separates
hex_from up_case separator byte_space size i [] = done []
hex_from up_case separator byte_space size i (b ∷ bs) = do
  sep ← separates i size byte_space
  rest ← hex_from up_case separator byte_space size (suc i) bs
  done (byte_to_hex up_case b ++ ((if sep then separator else []) ++ rest))

unfoldable pub to_hex : Bool → Text → ℕ → List ℕ → Run Text
unfolding hex_from
to_hex up_case separator byte_space bytes =
    hex_from up_case separator byte_space (length bytes) 0 bytes

-- isprint in the C locale.
abbrev pub is_print : ℕ → Bool
is_print c = leb 0x20 c && leb c 0x7e

-- What `to_scape_string` puts between the enclosing texts.
unfoldable pub escape_code : EscapeFormat → ℕ → Text
unfolding byte_to_hex byte_to_octo
escape_code printf c =
    if c == 0x5c
    then b'\\' ∷ []
    else if c == 0xa
    then b'n' ∷ []
    else if c == 0xd
    then b'n' ∷ []
    else if c == 0x9
    then b't' ∷ []
    else if c == 0xb
    then b'v' ∷ []
    else b'x' ∷ byte_to_hex true c
escape_code hex c = b'x' ∷ byte_to_hex true c
escape_code octo c = byte_to_octo c

unfoldable pub to_scape_string : EscapeFormat → Text → Text → List ℕ → Text
unfolding escape_code
to_scape_string format enclose_begin enclose_end [] = []
to_scape_string format enclose_begin enclose_end (c ∷ cs) =
    (if is_print c && not (c == 0x5c)
      then c ∷ []
      else enclose_begin ++ (escape_code format c ++ enclose_end))
    ++ to_scape_string format enclose_begin enclose_end cs

-- `to_string` reads the bytes as characters, and `copy` pushes each character back as a byte.
unfoldable pub to_string : List ℕ → Text
to_string bytes = bytes

unfoldable pub copy : Text → List ℕ
copy [] = []
copy (c ∷ str) = (c % 256) ∷ copy str
