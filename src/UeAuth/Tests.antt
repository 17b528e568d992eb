-- ===== src/UeAuth/Tests.antt =====
-- The code on concrete keys, and the theorem at a concrete input.
use free5gc_workspace.Prelude.{◌≡◌, refl, List, [], ◌∷◌, ◌++◌, some, arith}
use free5gc_workspace.Prelude.Outcome.{returns, fails}
use free5gc_workspace.Text.Decimal.{Bytes, codes}
use free5gc_workspace.Text.Hex.{decode_hex}
use free5gc_workspace.UeAuth.{kdf_len, append_params, fc_decode_failed, get_kdf_value}
use free5gc_workspace.UeAuth.Input.{with_lengths, get_kdf_value_separates}

-- A stand-in for HMAC-SHA-256.
abbrev toy : Bytes → Bytes → Bytes
toy key message = key ++ message

get_kdf_value_wlan :
    get_kdf_value toy [] (codes "20") (with_lengths (codes "WLAN" ∷ []))
    ≡ returns (32 ∷ (codes "WLAN" ++ (0 ∷ 4 ∷ [])))
unfolding get_kdf_value kdf_len
get_kdf_value_wlan = refl

get_kdf_value_odd : get_kdf_value toy [] (codes "6") [] ≡ fails fc_decode_failed
unfolding get_kdf_value
get_kdf_value_odd = refl

abbrev names : List Bytes
names = codes "WLAN" ∷ []

abbrev split_names : List Bytes
split_names = codes "WL" ∷ codes "AN" ∷ []

abbrev fc_20 : Bytes
fc_20 = 32 ∷ []

code_20 : decode_hex (codes "20") ≡ some fc_20
unfolding decode_hex
code_20 = refl

get_kdf_value_separates_example :
    let m = append_params fc_20 (with_lengths names) in
    let m' = append_params fc_20 (with_lengths split_names) in
    (get_kdf_value toy [] (codes "20") (with_lengths names) ≡ returns (toy [] m))
    × (get_kdf_value toy [] (codes "20") (with_lengths split_names) ≡ returns (toy [] m'))
    × (m ≡ m' → (fc_20 ≡ fc_20) × (names ≡ split_names))
get_kdf_value_separates_example =
    get_kdf_value_separates toy [] (codes "20") (codes "20") names split_names code_20 code_20 refl
      (omega arith, tt) (omega arith, (omega arith, tt))
