-- ===== src/Milenage/Blocks.antt =====
-- The blocks of Milenage: their lengths, and what the functions f1 to f5* give under a cipher on
-- blocks of 16 bytes.
use free5gc_workspace.Prelude.{
  ℕ, zero, suc, ◌≡◌, ◌≤◌, ◌↔◌, refl, ap, sym, ◌∙◌, true, List, [], ◌∷◌, ◌++◌, some, length,
  length-append, take, drop, length-take, length-drop, ==_iff, arith,
}
use free5gc_workspace.Prelude.Bits.{xor_cancel}
use free5gc_workspace.Prelude.Outcome.{or_fail, Gives, >>=-Gives}
use free5gc_workspace.Prelude.Bytes.{slice-Gives}
use free5gc_workspace.Milenage.{
  Cipher, cipher_failed, xor, xor_block, rotate, xor_at, f1, output, f2345_unchecked, deep_equal,
}

-- AES: every key of 16 bytes has a function that takes a block of 16 bytes to one of 16 bytes.
abbrev pub IsAes : Cipher → Type 0
IsAes new_cipher =
    (k : List ℕ)
    → length k ≡ 16
    → (encrypt : List ℕ → List ℕ) × (new_cipher k ≡ some encrypt)
      × ((b : List ℕ) → length b ≡ 16 → length (encrypt b) ≡ 16)

pub length-xor : (a b : List ℕ) → length a ≡ length b → length (xor a b) ≡ length a
unfolding xor
length-xor [] b e = refl
length-xor (x ∷ a) [] e = absurd (omega arith)
length-xor (x ∷ a) (y ∷ b) e = omega (arith, length-xor a b (omega arith))

pub xor-xor : (a b : List ℕ) → length a ≡ length b → xor (xor a b) b ≡ a
unfolding xor
xor-xor [] b e = refl
xor-xor (x ∷ a) [] e = absurd (omega arith)
xor-xor (x ∷ a) (y ∷ b) e = rw (xor_cancel x y, xor-xor a b (omega arith)) refl

length-rotate : (r : ℕ) (b : List ℕ) → r ≤ length b → length (rotate r b) ≡ length b
unfolding rotate
length-rotate r b h =
    omega (arith, length-append (drop r b) (take r b), length-take r b h, length-drop r b h)

length-xor_at : (i c : ℕ) (b : List ℕ) → length (xor_at i c b) ≡ length b
unfolding xor_at
length-xor_at i c [] = refl
length-xor_at zero c (b ∷ l) = refl
length-xor_at (suc i) c (b ∷ l) = ap suc (length-xor_at i c l)

-- Two slices of at least 16 bytes combine to a block.
pub xor_block-Gives :
    (a b : List ℕ) → 16 ≤ length a → 16 ≤ length b → Gives (xor_block a b) (λ o. length o ≡ 16)
unfolding xor_block
xor_block-Gives a b ha hb = >>=-Gives (slice-Gives a 0 16 ha) (λ x lx.
    >>=-Gives (slice-Gives b 0 16 hb) (λ y ly. (xor x y, refl, length-xor x y (lx ∙ sym ly) ∙ lx)))

module _ (new_cipher : Cipher) (aes : IsAes new_cipher) where
  cipher-Gives :
      (k : List ℕ)
      → length k ≡ 16
      → Gives
          (or_fail (new_cipher k) cipher_failed)
          (λ encrypt. (b : List ℕ) → length b ≡ 16 → length (encrypt b) ≡ 16)
  cipher-Gives k lk =
      let (encrypt, e, len) = aes k lk in (encrypt, ap (λ o. or_fail o cipher_failed) e, len)

  pub f1-Gives :
      (opc k rand sqn amf : List ℕ)
      → length opc ≡ 16
      → length k ≡ 16
      → length rand ≡ 16
      → length sqn ≡ 6
      → length amf ≡ 2
      → Gives (f1 new_cipher opc k rand sqn amf) (λ macs. (length macs.0 ≡ 8) × (length macs.1 ≡ 8))
  unfolding f1
  f1-Gives opc k rand sqn amf lo lk lr ls la =
      >>=-Gives (xor_block-Gives rand opc (omega arith) (omega arith)) (λ input l1.
        >>=-Gives (cipher-Gives k lk) (λ encrypt len.
          >>=-Gives (slice-Gives sqn 0 6 (omega arith)) (λ sqn6 l3.
            >>=-Gives (slice-Gives amf 0 2 (omega arith)) (λ amf2 l4.
              >>=-Gives
                (xor_block-Gives ((sqn6 ++ amf2) ++ (sqn6 ++ amf2)) opc (in1 sqn6 amf2 l3 l4)
                  (omega arith))
                (λ tmp2 l6.
                  >>=-Gives
                    (xor_block-Gives (rotate 8 tmp2) (encrypt input)
                      (omega (arith, length-rotate 8 tmp2 (omega arith)))
                      (omega (arith, len input l1)))
                    (λ tmp3 l9.
                      >>=-Gives
                        (xor_block-Gives (encrypt tmp3) opc (omega (arith, len tmp3 l9))
                          (omega arith))
                        (λ out l11. >>=-Gives (slice-Gives out 0 8 (omega arith)) (λ mac_a l12.
                          >>=-Gives (slice-Gives out 8 8 (omega arith))
                            (λ mac_s l13. ((mac_a, mac_s), refl, (l12, l13)))))))))))
    where
      in1 : (s a : List ℕ) → length s ≡ 6 → length a ≡ 2 → 16 ≤ length ((s ++ a) ++ (s ++ a))
      in1 s a ls la = omega (arith, length-append (s ++ a) (s ++ a), length-append s a)

  output-Gives :
      (encrypt : List ℕ → List ℕ) (temp opc : List ℕ) (r c : ℕ)
      → ((b : List ℕ) → length b ≡ 16 → length (encrypt b) ≡ 16)
      → length temp ≡ 16
      → length opc ≡ 16
      → r ≤ 16
      → Gives (output encrypt temp opc r c) (λ o. length o ≡ 16)
  unfolding output
  output-Gives encrypt temp opc r c len lt lo h =
      let l1 = length-xor_at 15 c (rotate r temp) in
      let l2 = length-rotate r temp (omega arith) in
      let l3 = len (xor_at 15 c (rotate r temp)) (omega arith) in
      xor_block-Gives (encrypt (xor_at 15 c (rotate r temp))) opc (omega arith) (omega arith)

  pub f2345_unchecked-Gives :
      (opc k rand : List ℕ)
      → length opc ≡ 16
      → length k ≡ 16
      → length rand ≡ 16
      → Gives
          (f2345_unchecked new_cipher opc k rand)
          (λ keys. (length keys.ak ≡ 6) × (length keys.akstar ≡ 6))
  unfolding f2345_unchecked
  f2345_unchecked-Gives opc k rand lo lk lr =
      >>=-Gives (xor_block-Gives rand opc (omega arith) (omega arith)) (λ tmp1 l1.
        >>=-Gives (cipher-Gives k lk) (λ encrypt len.
          >>=-Gives (xor_block-Gives (encrypt tmp1) opc (omega (arith, len tmp1 l1)) (omega arith))
            (λ temp l4.
              >>=-Gives
                (xor_block-Gives (encrypt (xor_at 15 1 temp)) opc
                  (omega (arith, len (xor_at 15 1 temp) (length-xor_at 15 1 temp ∙ l4)))
                  (omega arith))
                (λ tmp3 l6. >>=-Gives (slice-Gives tmp3 8 8 (omega arith)) (λ res l7.
                  >>=-Gives (slice-Gives tmp3 0 6 (omega arith)) (λ ak l8.
                    >>=-Gives (output-Gives encrypt temp opc 4 2 len l4 lo (omega arith)) (λ ck l9.
                      >>=-Gives (output-Gives encrypt temp opc 8 4 len l4 lo (omega arith))
                        (λ ik l10.
                          >>=-Gives (output-Gives encrypt temp opc 12 8 len l4 lo (omega arith))
                            (λ out5 l11.
                              >>=-Gives (slice-Gives out5 0 6 (omega arith)) (λ akstar l12. (
                                record { res = res; ck = ck; ik = ik; ak = ak; akstar = akstar },
                                refl,
                                (l8, l12),
                              )))))))))))

-- `reflect.DeepEqual` decides equality.
pub deep_equal_iff : (a b : List ℕ) → (deep_equal a b ≡ true) ↔ (a ≡ b)
unfolding deep_equal
deep_equal_iff a b = (sound a b, λ e. ap (deep_equal a) (sym e) ∙ same a)
  where
    sound : (a b : List ℕ) → deep_equal a b ≡ true → a ≡ b
    sound [] [] h = refl
    sound [] (y ∷ b) h = cc
    sound (x ∷ a) [] h = cc
    sound (x ∷ a) (y ∷ b) h = ground (arith, sound a b, ==_iff x y)

    same : (a : List ℕ) → deep_equal a a ≡ true
    same [] = refl
    same (x ∷ a) = ground (arith, same a, ==_iff x x)
