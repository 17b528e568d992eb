-- ===== src/Milenage/Parts.antt =====
-- The checks of the lengths, the parts of an AUTN and of an AUTS, and what the exported functions
-- give where f1 and f2345 have given their values.
use Prim.Native.String.{String}
use free5gc_workspace.Prelude.{
  ℕ, ◌≡◌, refl, ap, sym, ◌∙◌, List, ◌++◌, length, length-append, take, drop, take-drop, length-take,
  length-drop, take-append, drop-append, take_whole, drop-drop, ==_iff, arith,
}
use free5gc_workspace.Prelude.Outcome.{returns, ◌>>◌, guard}
use free5gc_workspace.Milenage.{
  Cipher, mac_failure, xor, f1, Keys, f2345_unchecked, validate_arg, validate_keys, cut_auts,
  cut_autn, deep_equal, aka_unchecked, keys_with_autn_unchecked, resynch_amf,
  validate_auts_unchecked, auts_unchecked,
}

-- `n` bytes.
abbrev pub IsBytes : ℕ → List ℕ → Type 0
IsBytes n l = length l ≡ n

pub validate_arg_passes :
    (arg : List ℕ) (name : String) (n : ℕ) → IsBytes n arg → validate_arg arg name n ≡ returns tt
unfolding validate_arg
validate_arg_passes arg name n e = rw ((==_iff (length arg) n).1 e) refl

pub validate_keys_passes :
    (opc k rand : List ℕ)
    → IsBytes 16 opc
    → IsBytes 16 k
    → IsBytes 16 rand
    → validate_keys opc k rand ≡ returns tt
unfolding validate_keys
validate_keys_passes opc k rand lo lk lr =
    rw
      (
        validate_arg_passes opc "OPc" 16 lo,
        validate_arg_passes k "K" 16 lk,
        validate_arg_passes rand "RAND" 16 lr,
      )
      refl

pub cut_autn-append :
    (a b c : List ℕ)
    → IsBytes 6 a
    → IsBytes 2 b
    → IsBytes 8 c
    → cut_autn (a ++ (b ++ c)) ≡ (a, b, c)
unfolding cut_autn
cut_autn-append a b c la lb lc =
    let l : length (a ++ (b ++ c)) ≡ 16 =
      omega (arith, length-append a (b ++ c), length-append b c) in
    rw
      (
        (==_iff (length (a ++ (b ++ c))) 16).1 l,
        sym (drop-drop 6 2 (a ++ (b ++ c))),
        take-append a (b ++ c) 6 la,
        drop-append a (b ++ c) 6 la,
        take-append b c 2 lb,
        drop-append b c 2 lb,
        take_whole 8 c lc,
      )
      refl

pub cut_auts-append : (a b : List ℕ) → IsBytes 6 a → IsBytes 8 b → cut_auts (a ++ b) ≡ (a, b)
unfolding cut_auts
cut_auts-append a b la lb =
    let l : length (a ++ b) ≡ 14 = omega (arith, length-append a b) in
    rw
      (
        (==_iff (length (a ++ b)) 14).1 l,
        take-append a b 6 la,
        drop-append a b 6 la,
        take_whole 8 b lb,
      )
      refl

-- An AUTN is the three parts that it is cut into.
pub cut_autn_parts :
    (autn : List ℕ)
    → IsBytes 16 autn
    → (a b c : List ℕ) × (cut_autn autn ≡ (a, b, c))
      × IsBytes 6 a
      × IsBytes 2 b
      × IsBytes 8 c
      × (autn ≡ a ++ (b ++ c))
unfolding cut_autn
cut_autn_parts autn l =
    let d6 = length-drop 6 autn (omega arith) in
    let d8 = length-drop 8 autn (omega arith) in
    let c8 = take_whole 8 (drop 8 autn) (omega arith) in
    let tail : drop 6 autn ≡ take 2 (drop 6 autn) ++ take 8 (drop 8 autn) =
      sym (take-drop 2 (drop 6 autn))
      ∙ ap (λ x. take 2 (drop 6 autn) ++ x) (drop-drop 6 2 autn ∙ sym c8) in
    (
      take 6 autn,
      take 2 (drop 6 autn),
      take 8 (drop 8 autn),
      rw ((==_iff (length autn) 16).1 l) refl,
      length-take 6 autn (omega arith),
      length-take 2 (drop 6 autn) (omega arith),
      length-take 8 (drop 8 autn) (omega arith),
      sym (take-drop 6 autn) ∙ ap (λ x. take 6 autn ++ x) tail,
    )

pub cut_auts_parts :
    (auts : List ℕ)
    → IsBytes 14 auts
    → (a b : List ℕ) × (cut_auts auts ≡ (a, b)) × IsBytes 6 a × IsBytes 8 b × (auts ≡ a ++ b)
unfolding cut_auts
cut_auts_parts auts l =
    let d6 = length-drop 6 auts (omega arith) in
    let c8 = take_whole 8 (drop 6 auts) (omega arith) in
    (
      take 6 auts,
      take 8 (drop 6 auts),
      rw ((==_iff (length auts) 14).1 l) refl,
      length-take 6 auts (omega arith),
      length-take 8 (drop 6 auts) (omega arith),
      sym (take-drop 6 auts) ∙ ap (λ x. take 6 auts ++ x) (sym c8),
    )

module _ (new_cipher : Cipher) (opc k rand : List ℕ) where
  -- What the two sides compute once f1 and f2345 have given their values.
  pub aka_unchecked_value :
      (sqn amf : List ℕ) (keys : Keys) (macs : List ℕ × List ℕ)
      → f1 new_cipher opc k rand sqn amf ≡ returns macs
      → f2345_unchecked new_cipher opc k rand ≡ returns keys
      → aka_unchecked new_cipher opc k rand sqn amf
        ≡ returns (record {
          ik = keys.ik;
          ck = keys.ck;
          xres = keys.res;
          autn = xor sqn keys.ak ++ (amf ++ macs.0);
        })
  unfolding aka_unchecked
  aka_unchecked_value sqn amf keys macs e1 e2 = rw (e1, e2) refl

  pub keys_with_autn_value :
      (autn conc amf xmac : List ℕ) (keys : Keys) (macs : List ℕ × List ℕ)
      → cut_autn autn ≡ (conc, amf, xmac)
      → f2345_unchecked new_cipher opc k rand ≡ returns keys
      → f1 new_cipher opc k rand (xor conc keys.ak) amf ≡ returns macs
      → keys_with_autn_unchecked new_cipher opc k rand autn ≡ (
          guard (deep_equal xmac macs.0) (mac_failure "MAC-A" xmac macs.0)
          >> returns (record {
            sqnhe = xor conc keys.ak;
            ak = keys.ak;
            ik = keys.ik;
            ck = keys.ck;
            res = keys.res;
          }))
  unfolding keys_with_autn_unchecked
  keys_with_autn_value autn conc amf xmac keys macs c e2 e1 = rw (e2, c, e1) refl

  pub auts_unchecked_value :
      (sqnms : List ℕ) (keys : Keys) (macs : List ℕ × List ℕ)
      → f2345_unchecked new_cipher opc k rand ≡ returns keys
      → f1 new_cipher opc k rand sqnms resynch_amf ≡ returns macs
      → auts_unchecked new_cipher opc k rand sqnms ≡ returns (xor sqnms keys.akstar ++ macs.1)
  unfolding auts_unchecked
  auts_unchecked_value sqnms keys macs e2 e1 = rw (e2, e1) refl

  pub validate_auts_value :
      (auts conc macs' : List ℕ) (keys : Keys) (macs : List ℕ × List ℕ)
      → cut_auts auts ≡ (conc, macs')
      → f2345_unchecked new_cipher opc k rand ≡ returns keys
      → f1 new_cipher opc k rand (xor conc keys.akstar) resynch_amf ≡ returns macs
      → validate_auts_unchecked new_cipher opc k rand auts ≡ (
          guard (deep_equal macs.1 macs') (mac_failure "MAC-S" macs.1 macs')
          >> returns (xor conc keys.akstar, keys.akstar))
  unfolding validate_auts_unchecked
  validate_auts_value auts conc macs' keys macs c e2 e1 = rw (c, e2, e1) refl
