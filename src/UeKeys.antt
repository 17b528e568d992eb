-- ===== src/UeKeys.antt =====
-- test/ranUe.go: the keys that a UE of the test harness derives in 5G AKA. HMAC-SHA-256, AES and the
-- numbers of the algorithms of the NAS library are arguments. `Fatalf` ends the program: it is an error.
pub mod Chain
pub mod Agreement
mod Tests
use free5gc_workspace.Prelude.{
  ℕ, zero, suc, ◌-◌, ◌/◌, Bool, true, false, ◌&&◌, ◌||◌, leb, List, [], ◌∷◌, ◌++◌, Option, none,
  some, length, take, drop, if◌then◌else◌,
}
use free5gc_workspace.Prelude.Outcome.{Outcome, returns, fails, panics, ◌>>=◌, ◌>>◌, guard, or_fail}
use free5gc_workspace.Prelude.Bytes.{slice}
use free5gc_workspace.Text.Decimal.{Bytes, codes, is_digit}
use free5gc_workspace.Text.Words.{has_prefix}
use free5gc_workspace.Text.Hex.{decode_hex}
use free5gc_workspace.Milenage.{Cipher, MilenageError, xor, generate_aka_parameters}
use free5gc_workspace.UeAuth.{KdfError, kdf_len, get_kdf_value}

-- `RanUeContext`, as far as keys are derived in it.
pub record UeKeys : Type 0 where
  pub supi : Bytes
  pub ciphering_alg : ℕ
  pub integrity_alg : ℕ
  pub kamf : Bytes
  pub knas_enc : Bytes
  pub knas_int : Bytes

-- `models.AuthenticationSubscription`, as far as it is read. The text of the sequence number is behind
-- a pointer: `none` where that is nil.
pub record AuthSubscription : Type 0 where
  pub sqn : Option Bytes
  pub amf : Bytes
  pub enc_permanent_key : Bytes
  pub enc_opc_key : Bytes

pub data KeyError : Type 0 where
  hex_failed opc_empty : KeyError
  aka_failed : MilenageError → KeyError
  kdf_failed : KdfError → KeyError

-- `Fatalf` with the error of a call.
unfoldable pub or_fatal {ℓ} :
    {E : Type 0} {A : Type ℓ} → (E → KeyError) → Outcome E A → Outcome KeyError A
or_fatal f (returns a) = returns a
or_fatal f (fails e) = fails (f e)
or_fatal f panics = panics

-- Up to `n` digits that a text begins with.
unfoldable pub leading_digits : ℕ → Bytes → Bytes
leading_digits zero s = []
leading_digits (suc n) [] = []
leading_digits (suc n) (c ∷ s) =
    let rest = leading_digits n s in if is_digit c then c ∷ rest else []

-- The digits of `(?:imsi|supi)-([0-9]{5,15})` where a match begins at the text's start.
unfoldable pub match_here : Bytes → Option Bytes
unfolding has_prefix leading_digits
match_here s =
    let ds = leading_digits 15 (drop 5 s) in
    if (has_prefix s (codes "imsi-") || has_prefix s (codes "supi-")) && leb 5 (length ds)
    then some ds
    else none

first_of : Option Bytes → Option Bytes → Option Bytes
first_of none o = o
first_of (some ds) o = some ds

-- The group of the leftmost match.
unfoldable pub supi_digits : Bytes → Option Bytes
unfolding match_here first_of
supi_digits [] = none
supi_digits (c ∷ s) = first_of (match_here (c ∷ s)) (supi_digits s)

-- What is read through a slice or a pointer that may be nil.
abbrev pub group_of {ℓ} : {A : Type ℓ} → Option A → Outcome KeyError A
group_of none = panics
group_of (some a) = returns a

-- The loop over the bytes of SQN, into six bytes: a panic where an index is out of range.
unfoldable pub sqn_xor_ak : Bytes → Bytes → Outcome KeyError Bytes
unfolding xor
sqn_xor_ak sqn ak =
    if leb (length sqn) 6 && leb (length sqn) (length ak)
    then returns (xor sqn ak ++ drop (length sqn) (0 ∷ 0 ∷ 0 ∷ 0 ∷ 0 ∷ 0 ∷ []))
    else panics

unfoldable pub hex_bytes : Bytes → Outcome KeyError Bytes
hex_bytes s = or_fail (decode_hex s) hex_failed

unfoldable pub opc_of : Bytes → Outcome KeyError Bytes
unfolding hex_bytes
opc_of [] = fails opc_empty
opc_of (c ∷ s) = hex_bytes (c ∷ s)

module _ (hmac_sha256 : Bytes → Bytes → Bytes) where
  kdf : Bytes → Bytes → List Bytes → Outcome KeyError Bytes
  unfolding or_fatal get_kdf_value
  kdf key fc param = or_fatal kdf_failed (get_kdf_value hmac_sha256 key fc param)

  unfoldable pub derivate_kamf : UeKeys → Bytes → Bytes → Bytes → Bytes → Outcome KeyError UeKeys
  unfolding kdf kdf_len supi_digits sqn_xor_ak
  derivate_kamf ue key sn_name sqn ak = do
    p1 ← sqn_xor_ak sqn ak
    kausf ← kdf key (codes "6A") (sn_name ∷ kdf_len sn_name ∷ p1 ∷ kdf_len p1 ∷ [])
    kseaf ← kdf kausf (codes "6C") (sn_name ∷ kdf_len sn_name ∷ [])
    p0 ← group_of (supi_digits ue.supi)
    let abba : Bytes = 0 ∷ 0 ∷ []
    kamf ← kdf kseaf (codes "6D") (p0 ∷ kdf_len p0 ∷ abba ∷ kdf_len abba ∷ [])
    returns (record ue { kamf = kamf })

  -- The key of an algorithm: the bytes 16 to 31 of what is derived.
  algorithm_key : Bytes → ℕ → ℕ → Outcome KeyError Bytes
  unfolding kdf kdf_len slice
  algorithm_key kamf distinguisher alg = do
    let p0 : Bytes = distinguisher ∷ []
    let p1 : Bytes = alg ∷ []
    k ← kdf kamf (codes "69") (p0 ∷ kdf_len p0 ∷ p1 ∷ kdf_len p1 ∷ [])
    slice k 16 16

module _ (hmac_sha256 : Bytes → Bytes → Bytes) (nnas_enc_alg nnas_int_alg : ℕ) where
  unfoldable pub derivate_alg_key : UeKeys → Outcome KeyError UeKeys
  unfolding algorithm_key
  derivate_alg_key ue = do
    kenc ← algorithm_key hmac_sha256 ue.kamf nnas_enc_alg ue.ciphering_alg
    kint ← algorithm_key hmac_sha256 ue.kamf nnas_int_alg ue.integrity_alg
    returns (record ue { knas_enc = kenc; knas_int = kint })

  -- `DeriveRESstarAndSetKey`: the UE, and RES*.
  unfoldable pub derive_res_star_and_set_key :
      Cipher → UeKeys → AuthSubscription → Bytes → Bytes → Outcome KeyError (UeKeys × Bytes)
  unfolding hex_bytes opc_of or_fatal kdf kdf_len
  derive_res_star_and_set_key new_cipher ue auth_subs rand sn_name = do
    sqn_text ← group_of auth_subs.sqn
    sqn ← hex_bytes sqn_text
    amf ← hex_bytes auth_subs.amf
    k ← hex_bytes auth_subs.enc_permanent_key
    opc ← opc_of auth_subs.enc_opc_key
    aka ← or_fatal aka_failed (generate_aka_parameters new_cipher opc k rand sqn amf)
    let ak = xor sqn aka.autn
    let key = aka.ck ++ aka.ik
    with_kamf ← derivate_kamf hmac_sha256 ue key sn_name sqn ak
    with_keys ← derivate_alg_key with_kamf
    v ←
        kdf hmac_sha256 key (codes "6B")
          (sn_name ∷ kdf_len sn_name ∷ rand ∷ kdf_len rand ∷ aka.xres ∷ kdf_len aka.xres ∷ [])
    returns (with_keys, drop (length v / 2) v)
