-- ===== src/UeKeys/Chain.antt =====
-- The keys as TS 33.501, annex A, derives them from what AUTN and the identity of the subscriber are.
use free5gc_workspace.Prelude.{
  ℕ, suc, ◌≡◌, ◌≤◌, refl, ap, sym, ◌∙◌, List, [], ◌∷◌, ◌++◌, some, length, take, drop, arith,
}
use Prim.Native.Nat.{bit_xor}
use free5gc_workspace.Prelude.Outcome.{returns}
use free5gc_workspace.Prelude.Bits.{xor_cancel, xor_comm}
use free5gc_workspace.Prelude.Bytes.{slice, slice-append}
use free5gc_workspace.Prelude.{length-take, length-drop, take-drop}
use mathlib.Core.List.{append-nil}
use free5gc_workspace.Text.Decimal.{Bytes}
use free5gc_workspace.Text.Hex.{decode_hex}
use free5gc_workspace.Milenage.{xor}
use free5gc_workspace.UeAuth.{append_params, get_kdf_value}
use free5gc_workspace.UeAuth.Input.{with_lengths}
use free5gc_workspace.UeKeys.{
  UeKeys, KeyError, supi_digits, sqn_xor_ak, derivate_kamf, derivate_alg_key,
}

-- The exclusive or with the concealed number gives what conceals it, and again what was concealed.
xor_back : (a b : List ℕ) → length a ≤ length b → xor a (xor a b) ≡ take (length a) b
unfolding xor
xor_back [] b h = refl
xor_back (x ∷ a) [] h = absurd (omega arith)
xor_back (x ∷ a) (y ∷ b) h =
    rw (xor_comm x (bit_xor x y), xor_comm x y, xor_cancel y x, xor_back a b (omega arith)) refl

length-xor_short : (a b : List ℕ) → length a ≤ length b → length (xor a b) ≡ length a
unfolding xor
length-xor_short [] b h = refl
length-xor_short (x ∷ a) [] h = absurd (omega arith)
length-xor_short (x ∷ a) (y ∷ b) h = ap suc (length-xor_short a b (omega arith))

-- The second half of 32 bytes.
slice_half : (k : List ℕ) → length k ≡ 32 → slice {E = KeyError} k 16 16 ≡ returns (drop 16 k)
slice_half k h =
    let front : length (take 16 k) ≡ 16 = length-take 16 k (omega arith) in
    let back : length (drop 16 k) ≡ 16 = omega (arith, length-drop 16 k (omega arith)) in
    ap (λ x. slice x 16 16)
      (sym (take-drop 16 k) ∙ ap (λ x. take 16 k ++ x) (sym (append-nil (drop 16 k))))
    ∙ ap (λ n. slice (take 16 k ++ (drop 16 k ++ [])) n 16) (sym front)
    ∙ ap (λ n. slice (take 16 k ++ (drop 16 k ++ [])) (length (take 16 k)) n) (sym back)
    ∙ slice-append (take 16 k) (drop 16 k) []

concealed :
    (sqn autn : List ℕ)
    → length sqn ≡ 6
    → 6 ≤ length autn
    → sqn_xor_ak sqn (xor sqn autn) ≡ returns (take 6 autn)
unfolding sqn_xor_ak
concealed sqn autn ls la =
    let short : length (xor sqn autn) ≡ 6 = length-xor_short sqn autn (omega arith) ∙ ls in
    let back : xor sqn (xor sqn autn) ≡ take 6 autn =
      xor_back sqn autn (omega arith) ∙ ap (λ n. take n autn) ls in
    rw (ls, short, back) (ap returns (append-nil (take 6 autn)))

module _ (hmac_sha256 : Bytes → Bytes → Bytes) where
  -- The key derivation of TS 33.220 with a function code of one byte.
  abbrev pub derived : Bytes → ℕ → List Bytes → Bytes
  derived key fc ps = hmac_sha256 key (append_params (fc ∷ []) (with_lengths ps))

  -- A.2, A.6 and A.7: the keys of the AUSF, of the SEAF and of the AMF.
  abbrev pub kamf_of : Bytes → Bytes → Bytes → Bytes → Bytes
  kamf_of key sn_name sqn_xor_ak digits =
      derived (derived (derived key 0x6A (sn_name ∷ sqn_xor_ak ∷ [])) 0x6C (sn_name ∷ [])) 0x6D
        (digits ∷ (0 ∷ 0 ∷ []) ∷ [])

  -- A.8: the 128 bits at the end of what is derived for an algorithm.
  abbrev pub algorithm_key_of : Bytes → ℕ → ℕ → Bytes
  algorithm_key_of kamf distinguisher alg =
      drop 16 (derived kamf 0x69 ((distinguisher ∷ []) ∷ (alg ∷ []) ∷ []))

  pub derivate_kamf_lem :
      (ue : UeKeys) (key sn_name sqn autn digits : Bytes)
      → length sqn ≡ 6
      → 6 ≤ length autn
      → supi_digits ue.supi ≡ some digits
      → derivate_kamf hmac_sha256 ue key sn_name sqn (xor sqn autn)
        ≡ returns (record ue { kamf = kamf_of key sn_name (take 6 autn) digits })
  unfolding derivate_kamf get_kdf_value decode_hex
  derivate_kamf_lem ue key sn_name sqn autn digits ls la known =
      rw (concealed sqn autn ls la, known) refl

  pub derivate_alg_key_lem :
      (nnas_enc_alg nnas_int_alg : ℕ) (ue : UeKeys)
      → ((k m : Bytes) → length (hmac_sha256 k m) ≡ 32)
      → derivate_alg_key hmac_sha256 nnas_enc_alg nnas_int_alg ue
        ≡ returns (record ue {
          knas_enc = algorithm_key_of ue.kamf nnas_enc_alg ue.ciphering_alg;
          knas_int = algorithm_key_of ue.kamf nnas_int_alg ue.integrity_alg;
        })
  unfolding derivate_alg_key get_kdf_value decode_hex
  derivate_alg_key_lem nnas_enc_alg nnas_int_alg ue long =
      rw
        (
          slice_half (derived ue.kamf 0x69 ((nnas_enc_alg ∷ []) ∷ (ue.ciphering_alg ∷ []) ∷ []))
              (long ue.kamf _),
          slice_half (derived ue.kamf 0x69 ((nnas_int_alg ∷ []) ∷ (ue.integrity_alg ∷ []) ∷ []))
              (long ue.kamf _),
        )
        refl
