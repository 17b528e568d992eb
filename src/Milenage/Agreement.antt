-- ===== src/Milenage/Agreement.antt =====
-- That the two sides of an exchange agree: the network makes an AUTN that the subscriber accepts,
-- and the subscriber an AUTS that the network accepts, and nothing else is accepted.
use free5gc_workspace.Prelude.{
  ℕ, ◌≡◌, ◌≢◌, ◌⊎◌, inl, inr, refl, ap, sym, ◌∙◌, Bool, true, false, List, ◌++◌, length,
  length-append, Bool-cases, arith,
}
use free5gc_workspace.Prelude.Outcome.{Outcome, returns, fails, ◌>>◌, guard}
use free5gc_workspace.Milenage.{
  Cipher, MilenageError, mac_failure, xor, f1, cut_auts, cut_autn, deep_equal, Aka,
  generate_aka_parameters, Answered, generate_keys_with_autn, resynch_amf, validate_auts,
  generate_auts,
}
use free5gc_workspace.Milenage.Blocks.{
  IsAes, length-xor, xor-xor, f1-Gives, f2345_unchecked-Gives, deep_equal_iff,
}
use free5gc_workspace.Milenage.Parts.{
  IsBytes, validate_arg_passes, validate_keys_passes, cut_autn-append, cut_auts-append,
  cut_autn_parts, cut_auts_parts, aka_unchecked_value, keys_with_autn_value, auts_unchecked_value,
  validate_auts_value,
}

differ : {b : Bool} → b ≡ false → b ≡ true → ⊥
differ e t = cc

guard_fails :
    {A : Type 0} {b : Bool} {e : MilenageError} (next : Outcome MilenageError A)
    → b ≡ false
    → (guard b e >> next) ≡ fails e
guard_fails next h = rw h refl

-- With an AES cipher and arguments of the right lengths, `GenerateAKAParameters` gives keys and an
-- AUTN of 16 bytes, from which `GenerateKeysWithAUTN` gets the sequence number, the same keys and
-- the same response.
pub generate_keys_with_autn-generate_aka_parameters :
    (new_cipher : Cipher) (opc k rand sqn amf : List ℕ)
    → IsAes new_cipher
    → IsBytes 16 opc
    → IsBytes 16 k
    → IsBytes 16 rand
    → IsBytes 6 sqn
    → IsBytes 2 amf
    → (aka : Aka) × (ak : List ℕ) × (generate_aka_parameters new_cipher opc k rand sqn amf
        ≡ returns aka)
      × IsBytes 16 aka.autn
      × (generate_keys_with_autn new_cipher opc k rand aka.autn
          ≡ returns (record { sqnhe = sqn; ak = ak; ik = aka.ik; ck = aka.ck; res = aka.xres }))
unfolding generate_aka_parameters generate_keys_with_autn
generate_keys_with_autn-generate_aka_parameters new_cipher opc k rand sqn amf aes lo lk lr ls la =
    let (keys, e2, (lak, _)) = f2345_unchecked-Gives new_cipher aes opc k rand lo lk lr in
    let (macs, e1, (lm, _)) = f1-Gives new_cipher aes opc k rand sqn amf lo lk lr ls la in
    let pass = validate_keys_passes opc k rand lo lk lr in
    let conc = xor sqn keys.ak in
    let lc = length-xor sqn keys.ak (ls ∙ sym lak) ∙ ls in
    let autn = conc ++ (amf ++ macs.0) in
    let l16 : length autn ≡ 16 =
      omega (arith, length-append conc (amf ++ macs.0), length-append amf macs.0) in
    let back : xor conc keys.ak ≡ sqn = xor-xor sqn keys.ak (ls ∙ sym lak) in
    let accepted =
      keys_with_autn_value new_cipher opc k rand autn conc amf macs.0 keys macs
        (cut_autn-append conc amf macs.0 lc la lm) e2
        (ap (λ s. f1 new_cipher opc k rand s amf) back ∙ e1) in
    (
      record { ik = keys.ik; ck = keys.ck; xres = keys.res; autn = autn },
      keys.ak,
      rw (pass, validate_arg_passes sqn "SQN" 6 ls, validate_arg_passes amf "AMF" 2 la)
          (aka_unchecked_value new_cipher opc k rand sqn amf keys macs e1 e2),
      l16,
      rw (pass, validate_arg_passes autn "AUTN" 16 l16)
          (accepted ∙ rw ((deep_equal_iff macs.0 macs.0).1 refl, back) refl),
    )

-- With an AES cipher and arguments of the right lengths, `GenerateKeysWithAUTN` either fails, with
-- the MAC-A of the AUTN and another one that it has computed, or gives keys; then
-- `GenerateAKAParameters` for the sequence number that it gives and the AMF of the AUTN makes that
-- AUTN, with the same keys and the same response.
pub generate_keys_with_autn_cases :
    (new_cipher : Cipher) (opc k rand autn : List ℕ)
    → IsAes new_cipher
    → IsBytes 16 opc
    → IsBytes 16 k
    → IsBytes 16 rand
    → IsBytes 16 autn
    → ((mac : List ℕ) × (generate_keys_with_autn new_cipher opc k rand autn
          ≡ fails (mac_failure "MAC-A" (cut_autn autn).2 mac))
        × ((cut_autn autn).2 ≢ mac))
      ⊎ ((a : Answered) × (generate_keys_with_autn new_cipher opc k rand autn ≡ returns a)
          × (generate_aka_parameters new_cipher opc k rand a.sqnhe (cut_autn autn).1
              ≡ returns (record { ik = a.ik; ck = a.ck; xres = a.res; autn = autn })))
unfolding generate_aka_parameters generate_keys_with_autn
generate_keys_with_autn_cases new_cipher opc k rand autn aes lo lk lr ln =
    let (conc, amf, xmac, cut, lc, la, lx, parts) = cut_autn_parts autn ln in
    let (keys, e2, (lak, _)) = f2345_unchecked-Gives new_cipher aes opc k rand lo lk lr in
    let sqn = xor conc keys.ak in
    let ls = length-xor conc keys.ak (lc ∙ sym lak) ∙ lc in
    let (macs, e1, (lm, _)) = f1-Gives new_cipher aes opc k rand sqn amf lo lk lr ls la in
    let pass = validate_keys_passes opc k rand lo lk lr in
    let value = keys_with_autn_value new_cipher opc k rand autn conc amf xmac keys macs cut e2 e1 in
    let long = validate_arg_passes autn "AUTN" 16 ln in
    elim (Bool-cases (deep_equal xmac macs.0)) [
      | inl e ↦
          let same : xmac ≡ macs.0 = (deep_equal_iff xmac macs.0).0 e in
          let again : xor sqn keys.ak ++ (amf ++ macs.0) ≡ autn =
            ap (λ c. c ++ (amf ++ macs.0)) (xor-xor conc keys.ak (lc ∙ sym lak))
            ∙ ap (λ x. conc ++ (amf ++ x)) (sym same)
            ∙ sym parts in
          inr (
            record { sqnhe = sqn; ak = keys.ak; ik = keys.ik; ck = keys.ck; res = keys.res },
            rw (pass, long) (value ∙ rw e refl),
            rw (cut, pass, validate_arg_passes sqn "SQN" 6 ls, validate_arg_passes amf "AMF" 2 la)
                (aka_unchecked_value new_cipher opc k rand sqn amf keys macs e1 e2
                  ∙ ap
                      (λ n.
                        returns (record { ik = keys.ik; ck = keys.ck; xres = keys.res; autn = n }))
                      again),
          )
      | inr e ↦ inl (
        macs.0,
        rw (pass, long)
            (value
              ∙ guard_fails _ e
              ∙ ap (λ (p : List ℕ × List ℕ × List ℕ). fails (mac_failure "MAC-A" p.2 macs.0))
                  (sym cut)),
        rw cut (λ same. differ e ((deep_equal_iff xmac macs.0).1 same)),
      )
    ]

-- With an AES cipher and arguments of the right lengths, `GenerateAUTS` gives an AUTS of 14 bytes,
-- from which `ValidateAUTS` gets the sequence number back.
pub validate_auts-generate_auts :
    (new_cipher : Cipher) (opc k rand sqnms : List ℕ)
    → IsAes new_cipher
    → IsBytes 16 opc
    → IsBytes 16 k
    → IsBytes 16 rand
    → IsBytes 6 sqnms
    → (auts akstar : List ℕ) × (generate_auts new_cipher opc k rand sqnms ≡ returns auts)
      × IsBytes 14 auts
      × (validate_auts new_cipher opc k rand auts ≡ returns (sqnms, akstar))
unfolding generate_auts validate_auts
validate_auts-generate_auts new_cipher opc k rand sqn aes lo lk lr ls =
    let (keys, e2, (_, lak)) = f2345_unchecked-Gives new_cipher aes opc k rand lo lk lr in
    let (macs, e1, (_, lm)) = f1-Gives new_cipher aes opc k rand sqn resynch_amf lo lk lr ls refl in
    let pass = validate_keys_passes opc k rand lo lk lr in
    let conc = xor sqn keys.akstar in
    let lc = length-xor sqn keys.akstar (ls ∙ sym lak) ∙ ls in
    let auts = conc ++ macs.1 in
    let l14 : length auts ≡ 14 = omega (arith, length-append conc macs.1) in
    let back : xor conc keys.akstar ≡ sqn = xor-xor sqn keys.akstar (ls ∙ sym lak) in
    let accepted =
      validate_auts_value new_cipher opc k rand auts conc macs.1 keys macs
        (cut_auts-append conc macs.1 lc lm) e2
        (ap (λ s. f1 new_cipher opc k rand s resynch_amf) back ∙ e1) in
    (
      auts,
      keys.akstar,
      rw (pass, validate_arg_passes sqn "SQNms" 6 ls)
          (auts_unchecked_value new_cipher opc k rand sqn keys macs e2 e1),
      l14,
      rw (pass, validate_arg_passes auts "AUTS" 14 l14)
          (accepted ∙ rw ((deep_equal_iff macs.1 macs.1).1 refl, back) refl),
    )

-- With an AES cipher and arguments of the right lengths, `ValidateAUTS` either fails, with a MAC-S
-- that it has computed and another one from the AUTS, or gives a sequence number; then
-- `GenerateAUTS` for that number makes that AUTS.
pub validate_auts_cases :
    (new_cipher : Cipher) (opc k rand auts : List ℕ)
    → IsAes new_cipher
    → IsBytes 16 opc
    → IsBytes 16 k
    → IsBytes 16 rand
    → IsBytes 14 auts
    → ((mac : List ℕ) × (validate_auts new_cipher opc k rand auts
          ≡ fails (mac_failure "MAC-S" mac (cut_auts auts).1))
        × (mac ≢ (cut_auts auts).1))
      ⊎ ((sqnms akstar : List ℕ) × (validate_auts new_cipher opc k rand auts
            ≡ returns (sqnms, akstar))
          × (generate_auts new_cipher opc k rand sqnms ≡ returns auts))
unfolding generate_auts validate_auts
validate_auts_cases new_cipher opc k rand auts aes lo lk lr ln =
    let (conc, macs', cut, lc, lx, parts) = cut_auts_parts auts ln in
    let (keys, e2, (_, lak)) = f2345_unchecked-Gives new_cipher aes opc k rand lo lk lr in
    let sqn = xor conc keys.akstar in
    let ls = length-xor conc keys.akstar (lc ∙ sym lak) ∙ lc in
    let (macs, e1, (_, lm)) = f1-Gives new_cipher aes opc k rand sqn resynch_amf lo lk lr ls refl in
    let pass = validate_keys_passes opc k rand lo lk lr in
    let value = validate_auts_value new_cipher opc k rand auts conc macs' keys macs cut e2 e1 in
    let long = validate_arg_passes auts "AUTS" 14 ln in
    elim (Bool-cases (deep_equal macs.1 macs')) [
      | inl e ↦
          let same : macs.1 ≡ macs' = (deep_equal_iff macs.1 macs').0 e in
          let again : xor sqn keys.akstar ++ macs.1 ≡ auts =
            ap (λ c. c ++ macs.1) (xor-xor conc keys.akstar (lc ∙ sym lak))
            ∙ ap (λ x. conc ++ x) same
            ∙ sym parts in
          inr (
            sqn,
            keys.akstar,
            rw (pass, long) (value ∙ rw e refl),
            rw (pass, validate_arg_passes sqn "SQNms" 6 ls)
                (auts_unchecked_value new_cipher opc k rand sqn keys macs e2 e1
                  ∙ ap (λ n. returns n) again),
          )
      | inr e ↦ inl (
        macs.1,
        rw (pass, long)
            (value
              ∙ guard_fails _ e
              ∙ ap (λ (p : List ℕ × List ℕ). fails (mac_failure "MAC-S" macs.1 p.1)) (sym cut)),
        rw cut (λ same. differ e ((deep_equal_iff macs.1 macs').1 same)),
      )
    ]
