-- ===== src/UeKeys/Tests.antt =====
-- Identities, and the keys with a toy cipher and a toy HMAC.
use free5gc_workspace.Prelude.{◌≡◌, refl, ◌∙◌, sym, [], ◌∷◌, ◌++◌, none, some, length, take, drop}
use free5gc_workspace.Prelude.Outcome.{returns, panics}
use free5gc_workspace.Text.Decimal.{Bytes, codes}
use free5gc_workspace.Text.Hex.{decode_hex}
use free5gc_workspace.Milenage.{Cipher, xor, Aka, generate_aka_parameters, generate_keys_with_autn}
use free5gc_workspace.Milenage.Blocks.{IsAes, length-xor}
use free5gc_workspace.UeKeys.{
  UeKeys, AuthSubscription, supi_digits, sqn_xor_ak, derive_res_star_and_set_key,
}
use free5gc_workspace.UeKeys.Chain.{derived, kamf_of, algorithm_key_of}
use free5gc_workspace.UeKeys.Agreement.{Decodes, derive_res_star_and_set_key_agrees}

digits_found : supi_digits (codes "imsi-208930000000003") ≡ some (codes "208930000000003")
unfolding supi_digits
digits_found = refl

digits_cut : supi_digits (codes "x supi-12345678901234567") ≡ some (codes "123456789012345")
unfolding supi_digits
digits_cut = refl

digits_few : supi_digits (codes "imsi-1234") ≡ none
unfolding supi_digits
digits_few = refl

sqn_too_long : sqn_xor_ak (1 ∷ 2 ∷ []) (3 ∷ []) ≡ panics
unfolding sqn_xor_ak
sqn_too_long = refl

abbrev toy : Cipher
toy k = some (λ b. xor b k)

toy-IsAes : IsAes toy
toy-IsAes k lk = ((λ b. xor b k), refl, λ b lb. length-xor b k (lb ∙ sym lk) ∙ lb)

-- The lengths of the key and the message, filled up to 32 bytes.
abbrev toy_hmac : Bytes → Bytes → Bytes
toy_hmac key m =
    length key
    ∷ length m
    ∷ 0
    ∷ 0
    ∷ 0
    ∷ 0
    ∷ 0
    ∷ 0
    ∷ 0
    ∷ 0
    ∷ 0
    ∷ 0
    ∷ 0
    ∷ 0
    ∷ 0
    ∷ 0
    ∷ length key
    ∷ length m
    ∷ 1
    ∷ 0
    ∷ 0
    ∷ 0
    ∷ 0
    ∷ 0
    ∷ 0
    ∷ 0
    ∷ 0
    ∷ 0
    ∷ 0
    ∷ 0
    ∷ 0
    ∷ 0
    ∷ []

abbrev ue : UeKeys
ue = record {
  supi = codes "imsi-208930000000003";
  ciphering_alg = 2;
  integrity_alg = 2;
  kamf = [];
  knas_enc = [];
  knas_int = [];
}

abbrev subscription : AuthSubscription
subscription = record {
  sqn = some (codes "000000000021");
  amf = codes "8000";
  enc_permanent_key = codes "000102030405060708090a0b0c0d0e0f";
  enc_opc_key = codes "0f0e0d0c0b0a09080706050403020100";
}

abbrev secret : Bytes
secret = 0 ∷ 1 ∷ 2 ∷ 3 ∷ 4 ∷ 5 ∷ 6 ∷ 7 ∷ 8 ∷ 9 ∷ 10 ∷ 11 ∷ 12 ∷ 13 ∷ 14 ∷ 15 ∷ []

abbrev operator : Bytes
operator = 15 ∷ 14 ∷ 13 ∷ 12 ∷ 11 ∷ 10 ∷ 9 ∷ 8 ∷ 7 ∷ 6 ∷ 5 ∷ 4 ∷ 3 ∷ 2 ∷ 1 ∷ 0 ∷ []

subscription-Decodes :
    Decodes subscription secret operator (0 ∷ 0 ∷ 0 ∷ 0 ∷ 0 ∷ 33 ∷ []) (128 ∷ 0 ∷ [])
unfolding decode_hex
subscription-Decodes = record {
  sqn_text = codes "000000000021";
  has_sqn = refl;
  of_sqn = refl;
  of_amf = refl;
  of_k = refl;
  of_opc = refl;
  long_k = refl;
  long_opc = refl;
  long_sqn = refl;
  long_amf = refl;
}

derive_res_star_and_set_key_agrees_example :
    (aka : Aka) × (ak : Bytes) × (generate_aka_parameters toy operator secret secret
        (0 ∷ 0 ∷ 0 ∷ 0 ∷ 0 ∷ 33 ∷ [])
        (128 ∷ 0 ∷ [])
      ≡ returns aka)
    × (generate_keys_with_autn toy operator secret secret aka.autn
        ≡ returns (record {
          sqnhe = 0 ∷ 0 ∷ 0 ∷ 0 ∷ 0 ∷ 33 ∷ [];
          ak = ak;
          ik = aka.ik;
          ck = aka.ck;
          res = aka.xres;
        }))
    × (derive_res_star_and_set_key toy_hmac 1 2 toy ue subscription secret (codes "5G:x") ≡ (
        let key = aka.ck ++ aka.ik in
        let kamf =
          kamf_of toy_hmac key (codes "5G:x") (take 6 aka.autn) (codes "208930000000003") in
        returns (
          record ue {
            kamf = kamf;
            knas_enc = algorithm_key_of toy_hmac kamf 1 2;
            knas_int = algorithm_key_of toy_hmac kamf 2 2;
          },
          drop 16 (derived toy_hmac key 0x6B (codes "5G:x" ∷ secret ∷ aka.xres ∷ [])),
        )))
derive_res_star_and_set_key_agrees_example =
    derive_res_star_and_set_key_agrees toy_hmac 1 2 toy ue subscription secret (codes "5G:x") secret
      operator (0 ∷ 0 ∷ 0 ∷ 0 ∷ 0 ∷ 33 ∷ []) (128 ∷ 0 ∷ []) (codes "208930000000003") toy-IsAes
      (λ key m. refl) subscription-Decodes refl digits_found
