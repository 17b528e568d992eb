-- ===== src/Milenage/HexText.antt =====
-- lib/util/milenage/milenage.go: OPc over hexadecimal text, validateHexArg and GenerateOPcFromHex.
use Prim.Native.String.{String}
use free5gc_workspace.Prelude.{ℕ, ◌≡◌, ◌<◌, refl, List, All}
use free5gc_workspace.Prelude.Outcome.{Outcome, returns, fails, panics, ◌>>=◌, ◌>>◌, or_fail}
use free5gc_workspace.Text.Decimal.{Bytes}
use free5gc_workspace.Text.Hex.{encode_hex, decode_hex, decode_hex-encode_hex}
use free5gc_workspace.Milenage.{
  Cipher, MilenageError, decode_failed, validate_arg, opc_unchecked, generate_opc,
}

unfoldable pub validate_hex_arg : Bytes → String → ℕ → Outcome MilenageError (List ℕ)
unfolding decode_hex validate_arg
validate_hex_arg hex_arg name expected = do
  arg ← or_fail (decode_hex hex_arg) (decode_failed name)
  validate_arg arg name expected
  returns arg

unfoldable pub generate_opc_from_hex : Cipher → Bytes → Bytes → Outcome MilenageError Bytes
unfolding validate_hex_arg opc_unchecked encode_hex
generate_opc_from_hex new_cipher k op = do
  key ← validate_hex_arg k "K" 16
  operator ← validate_hex_arg op "OP" 16
  opc ← opc_unchecked new_cipher key operator
  returns (encode_hex opc)

-- On the hexadecimal texts of two byte strings, GenerateOPcFromHex gives the text of what GenerateOPc
-- gives for the byte strings, or its error.
pub generate_opc_from_hex-encode_hex :
    (new_cipher : Cipher) (k op : List ℕ)
    → All (λ b. b < 256) k
    → All (λ b. b < 256) op
    → generate_opc_from_hex new_cipher (encode_hex k) (encode_hex op)
      ≡ (generate_opc new_cipher k op >>= λ opc. returns (encode_hex opc))
unfolding generate_opc_from_hex validate_hex_arg generate_opc
generate_opc_from_hex-encode_hex new_cipher k op hk ho =
    rw (decode_hex-encode_hex k hk, decode_hex-encode_hex op ho)
      (pass (validate_arg k "K" 16) (validate_arg op "OP" 16))
  where
    pass :
        (c d : Outcome MilenageError (Unit {0}))
        → ((c >> returns k) >>= λ key. (d >> returns op) >>= λ operator.
            opc_unchecked new_cipher key operator >>= λ opc. returns (encode_hex opc))
          ≡ ((c >> (d >> opc_unchecked new_cipher k op)) >>= λ opc. returns (encode_hex opc))
    pass (returns _) (returns _) = refl
    pass (returns _) (fails e) = refl
    pass (returns _) panics = refl
    pass (fails e) d = refl
    pass panics d = refl
