-- ===== src/Milenage.antt =====
-- lib/util/milenage/milenage.go. `aes.NewCipher` is an argument: for a key it gives an error (`none`)
-- or the function that encrypts a block. A nil slice is the empty list. Reading past the end of a
-- slice panics. The constants are written as their values, under the source's names in comments.
pub mod Blocks
pub mod Parts
pub mod Agreement
pub mod Opc
pub mod HexText
mod Tests
use Prim.Native.Nat.{bit_xor}
use Prim.Native.String.{String}
use free5gc_workspace.Prelude.{
  ℕ, zero, suc, Bool, true, false, ◌&&◌, List, [], ◌∷◌, ◌++◌, Option, none, some, length, take,
  drop, ◌==◌, if◌then◌else◌,
}
use free5gc_workspace.Prelude.Outcome.{Outcome, returns, fails, panics, ◌>>=◌, ◌>>◌, guard, or_fail}
use free5gc_workspace.Prelude.Bytes.{slice}

abbrev pub Cipher : Type 0
Cipher = List ℕ → Option (List ℕ → List ℕ)

-- `wrapped` is `errors.Wrap`, with its text.
pub data MilenageError : Type 0 where
  cipher_failed : MilenageError
  decode_failed : String → MilenageError
  parameter_length : String → ℕ → ℕ → MilenageError
  mac_failure : String → List ℕ → List ℕ → MilenageError
  wrapped : String → MilenageError → MilenageError

wrap : {A : Type 0} → String → Outcome MilenageError A → Outcome MilenageError A
wrap text (returns a) = returns a
wrap text (fails e) = fails (wrapped text e)
wrap text panics = panics

-- As long as the shorter of the two.
unfoldable pub xor : List ℕ → List ℕ → List ℕ
xor [] b = []
xor (x ∷ a) [] = []
xor (x ∷ a) (y ∷ b) = bit_xor x y ∷ xor a b

-- The loops that combine CIPHER_BLOCK_LEN = 16 bytes of two slices.
unfoldable pub xor_block : List ℕ → List ℕ → Outcome MilenageError (List ℕ)
unfolding xor
xor_block a b = do x ← slice a 0 16; y ← slice b 0 16; returns (xor x y)

-- The loops that put the byte i of a block at (i + (16 - r)) % 16 (`index-rotate`).
unfoldable pub rotate : ℕ → List ℕ → List ℕ
rotate r block = drop r block ++ take r block

-- `block[i] ^= c`
unfoldable pub xor_at : ℕ → ℕ → List ℕ → List ℕ
xor_at i c [] = []
xor_at zero c (b ∷ l) = bit_xor b c ∷ l
xor_at (suc i) c (b ∷ l) = b ∷ xor_at i c l

-- MAC-A and MAC-S. r1 = 8.
unfoldable pub f1 :
    Cipher → List ℕ → List ℕ → List ℕ → List ℕ → List ℕ → Outcome MilenageError (List ℕ × List ℕ)
unfolding xor_block rotate xor
f1 new_cipher opc k rand sqn amf = do
  rijndael_input ← xor_block rand opc
  encrypt ← or_fail (new_cipher k) cipher_failed
  let tmp1 = encrypt rijndael_input
  sqn6 ← slice sqn 0 6
  amf2 ← slice amf 0 2
  tmp2 ← xor_block ((sqn6 ++ amf2) ++ (sqn6 ++ amf2)) opc
  tmp3 ← xor_block (rotate 8 tmp2) tmp1
  out ← xor_block (encrypt tmp3) opc
  mac_a ← slice out 0 8
  mac_s ← slice out 8 8
  returns (mac_a, mac_s)

pub record Keys : Type 0 where
  pub res : List ℕ
  pub ck : List ℕ
  pub ik : List ℕ
  pub ak : List ℕ
  pub akstar : List ℕ

-- One of the outputs 3 and 4: the rotation, the constant, the cipher and OPc.
unfoldable pub output : (List ℕ → List ℕ) → List ℕ → List ℕ → ℕ → ℕ → Outcome MilenageError (List ℕ)
unfolding xor_block rotate xor_at
output encrypt temp opc r c = xor_block (encrypt (xor_at 15 c (rotate r temp))) opc

-- r3 = 4, r4 = 8, r5 = 12. `temp` is tmp2 ^ opc, which the source computes in each loop anew.
unfoldable pub f2345_unchecked : Cipher → List ℕ → List ℕ → List ℕ → Outcome MilenageError Keys
unfolding output xor_block
f2345_unchecked new_cipher opc k rand = do
  tmp1 ← xor_block rand opc
  encrypt ← or_fail (new_cipher k) cipher_failed
  let tmp2 = encrypt tmp1
  temp ← xor_block tmp2 opc
  tmp3 ← xor_block (encrypt (xor_at 15 1 temp)) opc
  res ← slice tmp3 8 8
  ak ← slice tmp3 0 6
  ck ← output encrypt temp opc 4 2
  ik ← output encrypt temp opc 8 4
  out5 ← output encrypt temp opc 12 8
  akstar ← slice out5 0 6
  returns (record { res = res; ck = ck; ik = ik; ak = ak; akstar = akstar })

unfoldable pub validate_arg : List ℕ → String → ℕ → Outcome MilenageError (Unit {0})
validate_arg arg name expected =
    guard (length arg == expected) (parameter_length name (length arg) expected)

-- The three checks with which every exported function but `GenerateOPc` begins.
unfoldable pub validate_keys : List ℕ → List ℕ → List ℕ → Outcome MilenageError (Unit {0})
unfolding validate_arg
validate_keys opc k rand = do
  validate_arg opc "OPc" 16
  validate_arg k "K" 16
  validate_arg rand "RAND" 16

unfoldable pub f2345 : Cipher → List ℕ → List ℕ → List ℕ → Outcome MilenageError Keys
unfolding validate_keys f2345_unchecked
f2345 new_cipher opc k rand = do validate_keys opc k rand; f2345_unchecked new_cipher opc k rand

unfoldable pub cut_auts : List ℕ → List ℕ × List ℕ
cut_auts auts = if length auts == 14 then (take 6 auts, take 8 (drop 6 auts)) else ([], [])

unfoldable pub cut_autn : List ℕ → List ℕ × List ℕ × List ℕ
cut_autn autn =
    if length autn == 16
    then (take 6 autn, take 2 (drop 6 autn), take 8 (drop 8 autn))
    else ([], [], [])

-- `reflect.DeepEqual` of two byte slices.
unfoldable pub deep_equal : List ℕ → List ℕ → Bool
deep_equal [] [] = true
deep_equal [] (y ∷ b) = false
deep_equal (x ∷ a) [] = false
deep_equal (x ∷ a) (y ∷ b) = x == y && deep_equal a b

pub record Aka : Type 0 where
  pub ik : List ℕ
  pub ck : List ℕ
  pub xres : List ℕ
  pub autn : List ℕ

unfoldable pub aka_unchecked :
    Cipher → List ℕ → List ℕ → List ℕ → List ℕ → List ℕ → Outcome MilenageError Aka
unfolding wrap f1 f2345_unchecked xor
aka_unchecked new_cipher opc k rand sqn amf = do
  macs ← wrap "calculate F1 failed" (f1 new_cipher opc k rand sqn amf)
  keys ← wrap "calculate F2345 failed" (f2345_unchecked new_cipher opc k rand)
  returns (record {
    ik = keys.ik;
    ck = keys.ck;
    xres = keys.res;
    autn = xor sqn keys.ak ++ (amf ++ macs.0);
  })

unfoldable pub generate_aka_parameters :
    Cipher → List ℕ → List ℕ → List ℕ → List ℕ → List ℕ → Outcome MilenageError Aka
unfolding validate_keys validate_arg aka_unchecked
generate_aka_parameters new_cipher opc k rand sqn amf = do
  validate_keys opc k rand
  validate_arg sqn "SQN" 6
  validate_arg amf "AMF" 2
  aka_unchecked new_cipher opc k rand sqn amf

pub record Answered : Type 0 where
  pub sqnhe : List ℕ
  pub ak : List ℕ
  pub ik : List ℕ
  pub ck : List ℕ
  pub res : List ℕ

unfoldable pub keys_with_autn_unchecked :
    Cipher → List ℕ → List ℕ → List ℕ → List ℕ → Outcome MilenageError Answered
unfolding wrap f1 f2345_unchecked xor cut_autn deep_equal
keys_with_autn_unchecked new_cipher opc k rand autn = do
  keys ← wrap "calculate F2345 failed" (f2345_unchecked new_cipher opc k rand)
  let (conc_sqnhe, amf, xmac) = cut_autn autn
  let sqnhe = xor conc_sqnhe keys.ak
  macs ← wrap "calculate F1 failed" (f1 new_cipher opc k rand sqnhe amf)
  guard (deep_equal xmac macs.0) (mac_failure "MAC-A" xmac macs.0)
  returns (record { sqnhe = sqnhe; ak = keys.ak; ik = keys.ik; ck = keys.ck; res = keys.res })

unfoldable pub generate_keys_with_autn :
    Cipher → List ℕ → List ℕ → List ℕ → List ℕ → Outcome MilenageError Answered
unfolding validate_keys validate_arg keys_with_autn_unchecked
generate_keys_with_autn new_cipher opc k rand autn = do
  validate_keys opc k rand
  validate_arg autn "AUTN" 16
  keys_with_autn_unchecked new_cipher opc k rand autn

-- `resynchAMF`
abbrev pub resynch_amf : List ℕ
resynch_amf = 0 ∷ (0 ∷ [])

unfoldable pub validate_auts_unchecked :
    Cipher → List ℕ → List ℕ → List ℕ → List ℕ → Outcome MilenageError (List ℕ × List ℕ)
unfolding wrap f1 f2345_unchecked xor cut_auts deep_equal
validate_auts_unchecked new_cipher opc k rand auts = do
  let (conc_sqnms, macs) = cut_auts auts
  keys ← wrap "calculate F2345 Fail" (f2345_unchecked new_cipher opc k rand)
  let sqnms = xor conc_sqnms keys.akstar
  xmacs ← wrap "calculate F1 Fail" (f1 new_cipher opc k rand sqnms resynch_amf)
  guard (deep_equal xmacs.1 macs) (mac_failure "MAC-S" xmacs.1 macs)
  returns (sqnms, keys.akstar)

unfoldable pub validate_auts :
    Cipher → List ℕ → List ℕ → List ℕ → List ℕ → Outcome MilenageError (List ℕ × List ℕ)
unfolding validate_keys validate_arg validate_auts_unchecked
validate_auts new_cipher opc k rand auts = do
  validate_keys opc k rand
  validate_arg auts "AUTS" 14
  validate_auts_unchecked new_cipher opc k rand auts

unfoldable pub auts_unchecked :
    Cipher → List ℕ → List ℕ → List ℕ → List ℕ → Outcome MilenageError (List ℕ)
unfolding wrap f1 f2345_unchecked xor
auts_unchecked new_cipher opc k rand sqnms = do
  keys ← wrap "calculate f2345 Fail" (f2345_unchecked new_cipher opc k rand)
  macs ← wrap "calculate F1 Fail" (f1 new_cipher opc k rand sqnms resynch_amf)
  returns (xor sqnms keys.akstar ++ macs.1)

unfoldable pub generate_auts :
    Cipher → List ℕ → List ℕ → List ℕ → List ℕ → Outcome MilenageError (List ℕ)
unfolding validate_keys validate_arg auts_unchecked
generate_auts new_cipher opc k rand sqnms = do
  validate_keys opc k rand
  validate_arg sqnms "SQNms" 6
  auts_unchecked new_cipher opc k rand sqnms

unfoldable pub opc_unchecked : Cipher → List ℕ → List ℕ → Outcome MilenageError (List ℕ)
unfolding xor_block
opc_unchecked new_cipher k op = do
  encrypt ← or_fail (new_cipher k) cipher_failed
  xor_block (encrypt op) op

unfoldable pub generate_opc : Cipher → List ℕ → List ℕ → Outcome MilenageError (List ℕ)
unfolding validate_arg opc_unchecked
generate_opc new_cipher k op = do
  validate_arg k "K" 16
  validate_arg op "OP" 16
  opc_unchecked new_cipher k op
