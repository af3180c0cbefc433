-- ===== src/ByteArray/Examples.antt =====
-- Tests and instances for `Byte_Array`.
use xerock.Base.{◌≡◌, refl, true, [], ◌∷◌, codes, none, arith}
use xerock.Base.Run.{done, Returns}
use xerock.ByteArray.{octo, to_hex, to_scape_string}
use xerock.ByteArray.Hex.{from_hex, to_hex-Returns}

to_hex_separated : to_hex true (codes ":") 2 (0x12 ∷ 0xab ∷ 0xcd ∷ []) ≡ done (codes "12AB:CD")
unfolding to_hex
to_hex_separated = refl

to_scape_string_octo :
    to_scape_string octo (codes "\\") [] (b'a' ∷ 0 ∷ 255 ∷ []) ≡ codes "a\\000\\377"
unfolding to_scape_string
to_scape_string_octo = refl

to_hex-Returns_example :
    Returns (λ t. from_hex none t ≡ 0x12 ∷ 0xab ∷ []) (to_hex true (codes ":") 1 (0x12 ∷ 0xab ∷ []))
to_hex-Returns_example =
    to_hex-Returns true (codes ":") 1 (0x12 ∷ 0xab ∷ []) (refl, tt) (omega arith)
      (omega arith, (omega arith, tt))
