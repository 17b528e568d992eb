-- ===== src/NasSecurity.antt =====
-- test/security.go: the protection of NAS messages by a UE of the test harness, with GetBearerType of
-- test/ranUe.go. The NAS library is a record: its messages, counts, ciphers and constants. What is
-- printed is left out.
pub mod Decode
pub mod Counts
pub mod Keeps
pub mod Mac
pub mod Fresh
mod Tests
use free5gc_workspace.Prelude.{
  ℕ, ◌+◌, ◌%◌, ◌^◌, Bool, true, false, not, ◌&&◌, ◌||◌, ltb, ◌==◌, List, [], ◌∷◌, ◌++◌, Option,
  none, some, if◌then◌else◌,
}
use free5gc_workspace.Prelude.Outcome.{Outcome, returns, fails, panics}
use free5gc_workspace.Prelude.Run.{Run, ◌>>=◌, ◌>>◌, gives}
use free5gc_workspace.Packets.Envelope.{encap_nas_msg_to_envelope}

-- The package security and the messages of the NAS library. `nas_encrypt` gives what the payload is
-- after it has been ciphered in place, and `left_by_encrypt` what it is where the call fails;
-- `left_by_encode` is what PlainNasEncode returns beside an error.
pub record NasLib : Type 1 where
  pub Count : Type 0
  pub Key : Type 0
  pub Message : Type 0
  pub Err : Type 0
  pub set : Count → ℕ → ℕ → Count
  pub get : Count → ℕ
  pub sqn : Count → ℕ
  pub set_sqn : Count → ℕ → Count
  pub overflow : Count → ℕ
  pub set_overflow : Count → ℕ → Count
  pub count_up : Count → Count
  pub nas_encrypt : ℕ → Key → ℕ → ℕ → ℕ → List ℕ → Outcome Err (List ℕ)
  pub left_by_encrypt : ℕ → Key → ℕ → ℕ → ℕ → List ℕ → List ℕ
  pub nas_mac_calculate : ℕ → Key → ℕ → ℕ → ℕ → List ℕ → Outcome Err (List ℕ)
  pub plain_nas_encode : Message → Outcome Err (List ℕ)
  pub left_by_encode : Message → List ℕ
  pub plain_nas_decode : List ℕ → Outcome Err Message
  pub protocol_discriminator : Message → ℕ
  pub security_header_type : Message → ℕ
  pub get_security_header_type : List ℕ → ℕ
  pub direction_uplink : ℕ
  pub direction_downlink : ℕ
  pub bearer_3gpp : ℕ
  pub bearer_non_3gpp : ℕ
  pub only_one_bearer : ℕ
  pub alg_integrity_nia0 : ℕ
  pub plain_nas : ℕ
  pub integrity_protected : ℕ
  pub integrity_protected_and_ciphered : ℕ
  pub integrity_protected_with_new_context : ℕ
  pub integrity_protected_and_ciphered_with_new_context : ℕ

pub data AccessType : Type 0 where
  access_3gpp access_non_3gpp other_access : AccessType

pub data NasError (E : Type 0) : Type 0 where
  no_ue no_message no_payload : NasError E
  wrong_header_type : NasError E
  nas_failed : E → NasError E

module _ (lib : NasLib) where
  -- `RanUeContext`, as far as messages are protected with it.
  pub record RanUeContext : Type 0 where
    pub ul_count : lib.Count
    pub dl_count : lib.Count
    pub ciphering_alg : ℕ
    pub integrity_alg : ℕ
    pub knas_enc : lib.Key
    pub knas_int : lib.Key
    pub an_type : AccessType

  abbrev pub Step : Type 0 → Type 0
  Step A = Run RanUeContext (NasError lib.Err) A

  unfoldable pub get_bearer_type : RanUeContext → ℕ
  get_bearer_type ue = elim ue.an_type [
    | access_3gpp ↦ lib.bearer_3gpp
    | access_non_3gpp ↦ lib.bearer_non_3gpp
    | other_access ↦ lib.only_one_bearer
  ]

  -- A call of the library.
  unfoldable pub calls : {A : Type 0} → Outcome lib.Err A → Step A
  calls (returns a) ue = (ue, returns a)
  calls (fails e) ue = (ue, fails (nas_failed e))
  calls panics ue = (ue, panics)

  -- A call for what the UE is.
  unfoldable pub asks : {A : Type 0} → (RanUeContext → Outcome lib.Err A) → Step A
  unfolding calls
  asks f ue = calls (f ue) ue

  unfoldable pub changes :
      {E : Type 0} → (RanUeContext → RanUeContext) → Run RanUeContext E (Unit {0})
  changes f ue = (f ue, returns tt)

  unfoldable pub new_context : RanUeContext → RanUeContext
  new_context ue = record ue {
    ul_count = lib.set ue.ul_count 0 0;
    dl_count = lib.set ue.dl_count 0 0;
  }

  unfoldable pub encrypted : List ℕ → RanUeContext → Outcome lib.Err (List ℕ)
  unfolding get_bearer_type
  encrypted payload ue =
      lib.nas_encrypt ue.ciphering_alg ue.knas_enc (lib.get ue.ul_count) (get_bearer_type ue)
        lib.direction_uplink payload

  unfoldable pub mac_of : List ℕ → RanUeContext → Outcome lib.Err (List ℕ)
  unfolding get_bearer_type
  mac_of payload ue =
      lib.nas_mac_calculate ue.integrity_alg ue.knas_int (lib.get ue.ul_count) (get_bearer_type ue)
        lib.direction_uplink payload

  unfoldable pub left_encrypted : List ℕ → RanUeContext → List ℕ
  unfolding get_bearer_type
  left_encrypted payload ue =
      lib.left_by_encrypt ue.ciphering_alg ue.knas_enc (lib.get ue.ul_count) (get_bearer_type ue)
        lib.direction_uplink payload

  -- A function that encodes returns the payload as it is so far beside its error.
  abbrev pub EncodeStep : Type 0 → Type 0
  EncodeStep A = Run RanUeContext (NasError lib.Err × List ℕ) A

  beside_error :
      {A : Type 0}
      → (RanUeContext → List ℕ)
      → RanUeContext × Outcome (NasError lib.Err) A
      → RanUeContext × Outcome (NasError lib.Err × List ℕ) A
  beside_error payload (ue, returns a) = (ue, returns a)
  beside_error payload (ue, fails e) = (ue, fails (e, payload ue))
  beside_error payload (ue, panics) = (ue, panics)

  unfoldable pub leaving : {A : Type 0} → (RanUeContext → List ℕ) → Step A → EncodeStep A
  unfolding beside_error
  leaving payload step ue = beside_error payload (step ue)

  -- The protected branch of `NASEncode` and `NASEnvelopeEncode`; whether the message is ciphered.
  unfoldable pub protect : lib.Message → Bool → Bool → EncodeStep (List ℕ)
  unfolding leaving new_context left_encrypted encrypted mac_of asks calls changes ◌>>=◌ ◌>>◌ gives
  protect msg ciphers new_security_context = do
    changes (λ ue. if new_security_context then new_context ue else ue)
    sequence_number ← leaving (λ ue. []) (asks (λ ue. returns (lib.sqn ue.ul_count)))
    plain ← leaving (λ ue. lib.left_by_encode msg) (calls (lib.plain_nas_encode msg))
    ciphered ←
        (if ciphers then leaving (left_encrypted plain) (asks (encrypted plain)) else gives plain)
    mac32 ← leaving (λ ue. sequence_number ∷ ciphered) (asks (mac_of (sequence_number ∷ ciphered)))
    changes (λ ue. record ue { ul_count = lib.count_up ue.ul_count })
    gives (
        lib.protocol_discriminator msg ∷ lib.security_header_type msg ∷ mac32
        ++ sequence_number ∷ ciphered)

  -- On a UE that may be a nil pointer, which is an error.
  unfoldable pub on_ue :
      {E A : Type 0}
      → E
      → Run RanUeContext E A
      → Option RanUeContext
      → Option RanUeContext × Outcome E A
  on_ue e step none = (none, fails e)
  on_ue e step (some ue) = let (ue', result) = step ue in (some ue', result)

  unfoldable pub is_ciphered : lib.Message → Bool
  is_ciphered msg =
      not (lib.security_header_type msg == lib.integrity_protected)
      && not (lib.security_header_type msg == lib.plain_nas)

  encode_step : Option lib.Message → Bool → Bool → EncodeStep (List ℕ)
  unfolding leaving protect calls is_ciphered
  encode_step none security_context_available new_security_context =
      λ ue. (ue, fails (no_message, []))
  encode_step (some msg) false new_security_context =
      leaving (λ ue. lib.left_by_encode msg) (calls (lib.plain_nas_encode msg))
  encode_step (some msg) true new_security_context =
      protect msg (is_ciphered msg) new_security_context

  unfoldable pub nas_encode :
      Option RanUeContext
      → Option lib.Message
      → Bool
      → Bool
      → Option RanUeContext × Outcome (NasError lib.Err × List ℕ) (List ℕ)
  unfolding on_ue encode_step
  nas_encode ue msg security_context_available new_security_context =
      on_ue (no_ue, []) (encode_step msg security_context_available new_security_context) ue

  envelope_step : Option lib.Message → Bool → Bool → EncodeStep (List ℕ)
  unfolding leaving protect calls encap_nas_msg_to_envelope ◌>>=◌ gives
  envelope_step none security_context_available new_security_context =
      λ ue. (ue, fails (no_message, []))
  envelope_step (some msg) false new_security_context = do
    payload ←
        leaving (λ ue. encap_nas_msg_to_envelope (lib.left_by_encode msg))
          (calls (lib.plain_nas_encode msg))
    gives (encap_nas_msg_to_envelope payload)
  envelope_step (some msg) true new_security_context = do
    payload ← protect msg true new_security_context
    gives (encap_nas_msg_to_envelope payload)

  unfoldable pub nas_envelope_encode :
      Option RanUeContext
      → Option lib.Message
      → Bool
      → Bool
      → Option RanUeContext × Outcome (NasError lib.Err × List ℕ) (List ℕ)
  unfolding on_ue envelope_step
  nas_envelope_encode ue msg security_context_available new_security_context =
      on_ue (no_ue, []) (envelope_step msg security_context_available new_security_context) ue
