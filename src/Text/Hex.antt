-- ===== src/Text/Hex.antt =====
-- encoding/hex: `EncodeToString` and `DecodeString`. Of an error only that there is one is kept.
use free5gc_workspace.Prelude.{
  ℕ, ◌+◌, ◌-◌, ◌*◌, ◌/◌, ◌%◌, ◌≡◌, ◌<◌, refl, ◌&&◌, [], ◌∷◌, Option, none, some, All, ltb, leb,
  if◌then◌else◌, arith,
}
use free5gc_workspace.Text.Decimal.{Bytes, is_digit}

abbrev hex_digit : ℕ → ℕ
hex_digit n = if ltb n 10 then b'0' + n else b'a' + (n - 10)

unfoldable pub encode_hex : Bytes → Bytes
encode_hex [] = []
encode_hex (b ∷ s) = hex_digit (b / 16) ∷ hex_digit (b % 16) ∷ encode_hex s

-- The value of a digit, if it is one.
unfoldable hex_value : ℕ → Option ℕ
hex_value c =
    if is_digit c
    then some (c - b'0')
    else if leb b'a' c && leb c b'f'
    then some (c - b'a' + 10)
    else if leb b'A' c && leb c b'F'
    then some (c - b'A' + 10)
    else none

join_byte : Option ℕ → Option ℕ → Option Bytes → Option Bytes
join_byte (some h) (some l) (some s) = some ((h * 16 + l) ∷ s)
join_byte _ _ _ = none

unfoldable pub decode_hex : Bytes → Option Bytes
unfolding hex_value join_byte
decode_hex [] = some []
decode_hex (c ∷ []) = none
decode_hex (c ∷ d ∷ s) = join_byte (hex_value c) (hex_value d) (decode_hex s)

hex_value-hex_digit : (n : ℕ) → n < 16 → hex_value (hex_digit n) ≡ some n
unfolding hex_value
hex_value-hex_digit n h = ground arith

-- Bytes are read back from their print.
pub decode_hex-encode_hex : (s : Bytes) → All (λ b. b < 256) s → decode_hex (encode_hex s) ≡ some s
unfolding decode_hex encode_hex join_byte
decode_hex-encode_hex [] p = refl
decode_hex-encode_hex (b ∷ s) p =
    let whole : b / 16 * 16 + b % 16 ≡ b = omega arith in
    rw
      (
        hex_value-hex_digit (b / 16) (omega (arith, p.0)),
        hex_value-hex_digit (b % 16) (omega arith),
      )
      (rw (decode_hex-encode_hex s p.1, whole) refl)
