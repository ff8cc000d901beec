-- ===== src/Hex/Tests.antt =====
-- Hexadecimal text of src/hex.rs on concrete inputs.
use unidpp_archive.Prelude.{◌≡◌, refl, [], ◌∷◌}
use unidpp_archive.Result.{ok, IsErr}
use unidpp_archive.Text.{text, trim, strip_prefix}
use unidpp_archive.Hex.{hex_encode, hex_decode}

decodes :
    (hex_decode (text "0xDEADbeef") ≡ ok (222 ∷ 173 ∷ 190 ∷ 239 ∷ []))
    × (hex_decode (text "  00ff ") ≡ ok (0 ∷ 255 ∷ []))
    × IsErr (hex_decode (text "abc"))
    × IsErr (hex_decode (text "zz"))
unfolding hex_decode text trim strip_prefix
decodes = (refl, refl, tt, tt)

encodes : hex_encode (222 ∷ 173 ∷ 0 ∷ []) ≡ text "dead00"
unfolding hex_encode text
encodes = refl
