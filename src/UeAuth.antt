-- ===== src/UeAuth.antt =====
-- lib/util/ueauth/ueauth.go: the key derivation of TS 33.220, B.2.0. HMAC-SHA-256 is an argument, a
-- function of the key and the message; the writing to it never fails, as package hash promises.
pub mod Input
mod Tests
use free5gc_workspace.Prelude.{ℕ, ◌%◌, ◌^◌, List, [], ◌∷◌, ◌++◌, Option, none, some, length}
use free5gc_workspace.Prelude.Outcome.{Outcome, returns, fails, ◌>>=◌, or_fail}
use free5gc_workspace.Prelude.Bytes.{put_uint16}
use free5gc_workspace.Text.Decimal.{Bytes}
use free5gc_workspace.Text.Hex.{decode_hex}

-- `uint16(len(input))` in two bytes
unfoldable pub kdf_len : Bytes → Bytes
unfolding put_uint16
kdf_len input = put_uint16 (length input % 2 ^ 16)

pub data KdfError : Type 0 where
  fc_decode_failed : KdfError

-- The loop that appends the parameters.
unfoldable pub append_params : Bytes → List Bytes → Bytes
append_params s [] = s
append_params s (p ∷ param) = append_params (s ++ p) param

unfoldable pub get_kdf_value :
    (Bytes → Bytes → Bytes) → Bytes → Bytes → List Bytes → Outcome KdfError Bytes
unfolding decode_hex append_params
get_kdf_value hmac_sha256 key fc param = do
  s ← or_fail (decode_hex fc) fc_decode_failed
  returns (hmac_sha256 key (append_params s param))
