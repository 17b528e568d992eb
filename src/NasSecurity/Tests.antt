-- ===== src/NasSecurity/Tests.antt =====
-- A small NAS library, messages protected with it, and the theorems there.
use free5gc_workspace.Prelude.{
  ℕ, ◌+◌, ◌*◌, ◌%◌, ◌^◌, ◌≡◌, refl, true, false, List, [], ◌∷◌, some, arith,
}
use free5gc_workspace.Prelude.Outcome.{Outcome, returns}
use free5gc_workspace.NasSecurity.{
  NasLib, NasError, RanUeContext, access_3gpp, get_bearer_type, nas_encode, nas_envelope_encode,
}
use free5gc_workspace.Prelude.Bytes.{put_uint16}
use free5gc_workspace.NasSecurity.Decode.{header_kind, nas_decode}
use free5gc_workspace.NasSecurity.Counts.{IsCount, nas_decode_follows}
use free5gc_workspace.NasSecurity.Mac.{protected, nas_decode_ignores_mac}
use free5gc_workspace.NasSecurity.Fresh.{Counted, nas_encode-Counted}

abbrev type_of : List ℕ → ℕ
type_of (epd ∷ kind ∷ rest) = kind
type_of _ = 0

-- A message is its bytes; a cipher puts a byte before them, and a MAC is the count and three zeros.
abbrev toy : NasLib
toy = record {
  Count = ℕ × ℕ;
  Key = Unit {0};
  Message = List ℕ;
  Err = Unit {0};
  set = λ c o s. (o, s);
  get = λ c. c.0 % 2 ^ 16 * 256 + c.1 % 256;
  sqn = λ c. c.1 % 256;
  set_sqn = λ c s. (c.0, s);
  overflow = λ c. c.0 % 2 ^ 16;
  set_overflow = λ c o. (o, c.1);
  count_up = λ c. (c.0, c.1 + 1);
  nas_encrypt = λ alg key count bearer direction payload. returns (99 ∷ payload);
  left_by_encrypt = λ alg key count bearer direction payload. payload;
  nas_mac_calculate = λ alg key count bearer direction payload. returns (count ∷ 0 ∷ 0 ∷ 0 ∷ []);
  plain_nas_encode = λ msg. returns msg;
  left_by_encode = λ msg. [];
  plain_nas_decode = λ payload. returns payload;
  protocol_discriminator = λ msg. 126;
  security_header_type = λ msg. 2;
  get_security_header_type = type_of;
  direction_uplink = 0;
  direction_downlink = 1;
  bearer_3gpp = 1;
  bearer_non_3gpp = 2;
  only_one_bearer = 0;
  alg_integrity_nia0 = 0;
  plain_nas = 0;
  integrity_protected = 1;
  integrity_protected_and_ciphered = 2;
  integrity_protected_with_new_context = 3;
  integrity_protected_and_ciphered_with_new_context = 4;
}

abbrev ue : RanUeContext toy
ue = record {
  ul_count = (0, 7);
  dl_count = (0, 250);
  ciphering_alg = 2;
  integrity_alg = 2;
  knas_enc = tt;
  knas_int = tt;
  an_type = access_3gpp;
}

encoded :
    nas_encode toy (some ue) (some (5 ∷ [])) true false
    ≡ (some (record ue { ul_count = (0, 8) }), returns (126 ∷ 2 ∷ 7 ∷ 0 ∷ 0 ∷ 0 ∷ 7 ∷ 99 ∷ 5 ∷ []))
unfolding nas_encode get_bearer_type
encoded = refl

enveloped :
    nas_envelope_encode toy (some ue) (some (5 ∷ [])) false true
    ≡ (some ue, returns (0 ∷ 1 ∷ 5 ∷ []))
unfolding nas_envelope_encode put_uint16
enveloped = refl

toy-IsCount : IsCount toy
toy-IsCount = record {
  sqn-lt = λ c. omega arith;
  overflow-lt = λ c. omega arith;
  get_parts = λ c. refl;
  sqn-set_sqn = λ c s h. omega arith;
  overflow-set_sqn = λ c s. refl;
  overflow-set_overflow = λ c o h. omega arith;
}

-- The number 4 after 250 is that of the count 260.
nas_decode_follows_example :
    (ue' : RanUeContext toy) × ((nas_decode toy
        (some ue)
        2
        (some (protected 126 2 (0, 0, 0, 0) 4 (5 ∷ [])))).0
      ≡ some ue')
    × (toy.get ue'.dl_count ≡ 260)
unfolding header_kind
nas_decode_follows_example =
    nas_decode_follows toy ue 2 260 126 2 (0, 0, 0, 0) (5 ∷ []) true toy-IsCount refl refl refl
      (omega arith) (omega arith) (omega arith)

nas_decode_ignores_mac_example :
    nas_decode toy (some ue) 2 (some (protected 126 2 (0, 0, 0, 0) 251 (5 ∷ [])))
    ≡ nas_decode toy (some ue) 2 (some (protected 126 2 (251, 0, 0, 0) 251 (5 ∷ [])))
nas_decode_ignores_mac_example =
    nas_decode_ignores_mac toy ue 2 126 2 251 (5 ∷ []) (0, 0, 0, 0) (251, 0, 0, 0) (λ s t. refl)
      refl refl

nas_encode-Counted_example :
    (result : RanUeContext toy × Outcome (NasError (Unit {0}) × List ℕ) (List ℕ)) × (nas_encode toy
        (some ue)
        (some (5 ∷ []))
        true
        false
      ≡ (some result.0, result.1))
    × Counted toy ue result
nas_encode-Counted_example = nas_encode-Counted toy ue (5 ∷ [])
