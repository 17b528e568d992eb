-- ===== src/Milenage/Opc.antt =====
-- OPc, and where the rotation of a block puts its bytes.
use free5gc_workspace.Prelude.{
  ℕ, zero, suc, ◌+◌, ◌-◌, ◌%◌, ◌≡◌, ◌<◌, ◌≤◌, refl, ap, sym, ◌∙◌, List, [], ◌∷◌, ◌++◌, some, length,
  take, drop, length-drop, ltb, Bool-cases, arith, inl, inr,
}
use free5gc_workspace.Prelude.Outcome.{returns}
use free5gc_workspace.Prelude.Bytes.{index, index-append, slice_whole}
use native.Mathlib.Nat.{zero-add, suc-add}
use free5gc_workspace.Milenage.{Cipher, MilenageError, xor, xor_block, rotate, generate_opc}
use free5gc_workspace.Milenage.Blocks.{IsAes, length-xor, xor-xor}
use free5gc_workspace.Milenage.Parts.{IsBytes, validate_arg_passes}

index-take : {E : Type 0} (r i : ℕ) (x : List ℕ) → i < r → index {E = E} (take r x) i ≡ index x i
unfolding index
index-take zero i x h = absurd (omega arith)
index-take (suc r) i [] h = refl
index-take (suc r) zero (b ∷ x) h = refl
index-take (suc r) (suc i) (b ∷ x) h = index-take r i x (omega arith)

-- Before the end of a first part of the bytes.
index_front :
    {E : Type 0} (i : ℕ) (x y : List ℕ) → i < length x → index {E = E} (x ++ y) i ≡ index x i
unfolding index
index_front i [] y h = absurd (omega arith)
index_front zero (b ∷ x) y h = refl
index_front (suc i) (b ∷ x) y h = index_front i x y (omega arith)

index-drop :
    {E : Type 0} (r i : ℕ) (x : List ℕ)
    → r ≤ length x
    → index {E = E} (drop r x) i ≡ index x (r + i)
unfolding index
index-drop zero i x h = rw zero-add refl
index-drop (suc r) i [] h = absurd (omega arith)
index-drop (suc r) i (b ∷ x) h = rw suc-add (index-drop r i x (omega arith))

-- In the rotation of a block of 16 bytes, the byte i is the one at (i + (16 - r)) % 16, as the
-- loops of the source put it there.
pub index-rotate :
    (r i : ℕ) (x : List ℕ)
    → r ≤ 16
    → IsBytes 16 x
    → i < 16
    → index {E = MilenageError} (rotate r x) ((i + (16 - r)) % 16) ≡ index x i
unfolding rotate
index-rotate r i x h l g =
    let ld = length-drop r x (omega arith) in
    elim (Bool-cases (ltb i r)) [
      | inl e ↦
          let low : i < r = ground arith in
          let place : (i + (16 - r)) % 16 ≡ length (drop r x) + i = omega arith in
          rw place (index-append (drop r x) (take r x) i ∙ index-take r i x low)
      | inr e ↦
          let high : r ≤ i = ground arith in
          let place : (i + (16 - r)) % 16 ≡ i - r = omega arith in
          let back : r + (i - r) ≡ i = omega arith in
          rw place (
            index_front (i - r) (drop r x) (take r x) (omega arith)
            ∙ index-drop r (i - r) x (omega arith)
            ∙ ap (index x) back)
    ]

-- With an AES cipher and arguments of 16 bytes, `GenerateOPc` gives 16 bytes, which combined with OP
-- are the encryption of OP under K.
pub generate_opc_total :
    (new_cipher : Cipher) (k op : List ℕ)
    → IsAes new_cipher
    → IsBytes 16 k
    → IsBytes 16 op
    → (encrypt : List ℕ → List ℕ) × (opc : List ℕ) × (new_cipher k ≡ some encrypt)
      × (generate_opc new_cipher k op ≡ returns opc)
      × IsBytes 16 opc
      × (xor opc op ≡ encrypt op)
unfolding generate_opc xor_block
generate_opc_total new_cipher k op aes lk lo =
    let (encrypt, e, len) = aes k lk in
    let le = len op lo in
    (
      encrypt,
      xor (encrypt op) op,
      e,
      rw (validate_arg_passes k "K" 16 lk, validate_arg_passes op "OP" 16 lo, e)
          (rw
            (
              slice_whole {E = MilenageError} (encrypt op) 16 le,
              slice_whole {E = MilenageError} op 16 lo,
            )
            refl),
      length-xor (encrypt op) op (le ∙ sym lo) ∙ le,
      xor-xor (encrypt op) op (le ∙ sym lo),
    )
