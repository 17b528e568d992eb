-- ===== src/UeKeys/Agreement.antt =====
-- The keys of the UE and those of the network.
use free5gc_workspace.Prelude.{
  ℕ, ◌/◌, ◌≡◌, refl, ap, [], ◌∷◌, ◌++◌, some, length, take, drop, arith,
}
use free5gc_workspace.Prelude.Outcome.{returns}
use free5gc_workspace.Text.Decimal.{Bytes}
use free5gc_workspace.Text.Hex.{decode_hex}
use free5gc_workspace.Milenage.{Cipher, Aka, generate_aka_parameters, generate_keys_with_autn}
use free5gc_workspace.Milenage.Blocks.{IsAes}
use free5gc_workspace.Milenage.Parts.{IsBytes}
use free5gc_workspace.Milenage.Agreement.{generate_keys_with_autn-generate_aka_parameters}
use free5gc_workspace.UeAuth.{get_kdf_value}
use free5gc_workspace.UeKeys.{
  UeKeys, AuthSubscription, or_fatal, supi_digits, opc_of, hex_bytes, derive_res_star_and_set_key,
}
use free5gc_workspace.UeKeys.Chain.{
  derived, kamf_of, algorithm_key_of, derivate_kamf_lem, derivate_alg_key_lem,
}

-- What the hexadecimal texts of a subscription stand for.
pub record Decodes (s : AuthSubscription) (k opc sqn amf : Bytes) : Type 0 where
  pub sqn_text : Bytes
  pub has_sqn : s.sqn ≡ some sqn_text
  pub of_sqn : decode_hex sqn_text ≡ some sqn
  pub of_amf : decode_hex s.amf ≡ some amf
  pub of_k : decode_hex s.enc_permanent_key ≡ some k
  pub of_opc : decode_hex s.enc_opc_key ≡ some opc
  pub long_k : IsBytes 16 k
  pub long_opc : IsBytes 16 opc
  pub long_sqn : IsBytes 6 sqn
  pub long_amf : IsBytes 2 amf

opc_of_lem : (s opc : Bytes) → decode_hex s ≡ some opc → IsBytes 16 opc → opc_of s ≡ returns opc
unfolding opc_of hex_bytes decode_hex
opc_of_lem [] opc e l = absurd (none_is_16 opc e l)
  where
    none_is_16 : (opc : Bytes) → some [] ≡ some opc → IsBytes 16 opc → ⊥
    none_is_16 [] e l = omega arith
    none_is_16 (c ∷ opc) e l = cc
opc_of_lem (c ∷ s) opc e l = rw e refl

-- With an AES cipher, an HMAC of 32 bytes, and a RAND and a subscription, of which no part is missing,
-- of the right lengths, the UE
-- whose SUPI has the digits derives the keys and RES* of TS 33.501 from the CK, IK, RES and AUTN that
-- GenerateAKAParameters gives, K_AUSF from the first six bytes of that AUTN; and it is an AUTN from which
-- GenerateKeysWithAUTN gets the same CK, IK and RES.
pub derive_res_star_and_set_key_agrees :
    (hmac_sha256 : Bytes → Bytes → Bytes) (nnas_enc_alg nnas_int_alg : ℕ) (new_cipher : Cipher)
    (ue : UeKeys) (auth_subs : AuthSubscription) (rand sn_name k opc sqn amf digits : Bytes)
    → IsAes new_cipher
    → ((key m : Bytes) → length (hmac_sha256 key m) ≡ 32)
    → Decodes auth_subs k opc sqn amf
    → IsBytes 16 rand
    → supi_digits ue.supi ≡ some digits
    → (aka : Aka) × (ak : Bytes) × (generate_aka_parameters new_cipher opc k rand sqn amf
        ≡ returns aka)
      × (generate_keys_with_autn new_cipher opc k rand aka.autn
          ≡ returns (record { sqnhe = sqn; ak = ak; ik = aka.ik; ck = aka.ck; res = aka.xres }))
      × (derive_res_star_and_set_key hmac_sha256 nnas_enc_alg nnas_int_alg new_cipher ue auth_subs
            rand sn_name
          ≡ (let key = aka.ck ++ aka.ik in
              let kamf = kamf_of hmac_sha256 key sn_name (take 6 aka.autn) digits in
              returns (
                record ue {
                  kamf = kamf;
                  knas_enc = algorithm_key_of hmac_sha256 kamf nnas_enc_alg ue.ciphering_alg;
                  knas_int = algorithm_key_of hmac_sha256 kamf nnas_int_alg ue.integrity_alg;
                },
                drop 16 (derived hmac_sha256 key 0x6B (sn_name ∷ rand ∷ aka.xres ∷ [])),
              )))
unfolding derive_res_star_and_set_key hex_bytes get_kdf_value or_fatal
derive_res_star_and_set_key_agrees hmac nenc nint new_cipher ue auth_subs rand sn_name k opc sqn amf
      digits aes long d lr known =
    let (aka, ak, e, la, back) =
      generate_keys_with_autn-generate_aka_parameters new_cipher opc k rand sqn amf aes d.long_opc
        d.long_k lr d.long_sqn d.long_amf in
    let ue' : UeKeys = record ue {
      kamf = kamf_of hmac (aka.ck ++ aka.ik) sn_name (take 6 aka.autn) digits;
    } in
    let with_keys : UeKeys = record ue' {
      knas_enc = algorithm_key_of hmac ue'.kamf nenc ue.ciphering_alg;
      knas_int = algorithm_key_of hmac ue'.kamf nint ue.integrity_alg;
    } in
    let v = derived hmac (aka.ck ++ aka.ik) 0x6B (sn_name ∷ rand ∷ aka.xres ∷ []) in
    let half : length v / 2 ≡ 16 = ap (λ n. n / 2) (long (aka.ck ++ aka.ik) _) in
    (
      aka,
      ak,
      e,
      back,
      rw
          (
            d.has_sqn,
            d.of_sqn,
            d.of_amf,
            d.of_k,
            opc_of_lem auth_subs.enc_opc_key opc d.of_opc d.long_opc,
            e,
            derivate_kamf_lem hmac ue (aka.ck ++ aka.ik) sn_name sqn aka.autn digits d.long_sqn
                (omega arith) known,
            derivate_alg_key_lem hmac nenc nint ue' long,
          )
          (ap (λ n. returns (with_keys, drop n v)) half),
    )
