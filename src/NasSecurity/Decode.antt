-- ===== src/NasSecurity/Decode.antt =====
-- test/security.go: NASDecode.
use free5gc_workspace.Prelude.{
  ℕ, ◌+◌, ◌%◌, ◌^◌, Bool, true, false, ltb, ◌==◌, List, ◌∷◌, Option, none, some, if◌then◌else◌,
}
use free5gc_workspace.Prelude.Outcome.{Outcome, fails, panics}
use free5gc_workspace.Prelude.Run.{◌>>=◌, ◌>>◌, gives}
use free5gc_workspace.NasSecurity.{
  NasLib, NasError, no_ue, no_payload, wrong_header_type, RanUeContext, Step, get_bearer_type,
  calls, asks, changes, on_ue,
}

module _ (lib : NasLib) where
  unfoldable pub decrypted : List ℕ → RanUeContext lib → Outcome lib.Err (List ℕ)
  unfolding get_bearer_type
  decrypted payload ue =
      lib.nas_encrypt ue.ciphering_alg ue.knas_enc (lib.get ue.dl_count) (get_bearer_type lib ue)
        lib.direction_downlink payload

  unfoldable pub received_mac_of : List ℕ → RanUeContext lib → Outcome lib.Err (List ℕ)
  unfolding get_bearer_type
  received_mac_of payload ue =
      lib.nas_mac_calculate ue.integrity_alg ue.knas_int (lib.get ue.dl_count)
        (get_bearer_type lib ue) lib.direction_downlink payload

  -- Whether a header type is of a message that is ciphered, and whether it begins a new context.
  unfoldable pub header_kind : ℕ → Option (Bool × Bool)
  header_kind t =
      if t == lib.integrity_protected
      then some (false, false)
      else if t == lib.integrity_protected_and_ciphered
      then some (true, false)
      else if t == lib.integrity_protected_with_new_context
      then some (false, true)
      else if t == lib.integrity_protected_and_ciphered_with_new_context
      then some (true, true)
      else none

  -- The count of the messages that were sent, from the number of this one.
  unfoldable pub receive_count : ℕ → lib.Count → lib.Count
  receive_count sequence_number count =
      let later =
        if ltb sequence_number (lib.sqn count)
        then lib.set_overflow count ((lib.overflow count + 1) % 2 ^ 16)
        else count in
      lib.set_sqn later sequence_number

  unfoldable pub received : Bool → ℕ → RanUeContext lib → RanUeContext lib
  unfolding receive_count
  received is_new sequence_number ue =
      let count = if is_new then lib.set ue.dl_count 0 0 else ue.dl_count in
      record ue { dl_count = receive_count sequence_number count }

  -- The protected branch, with the header's six bytes taken off. The result of the comparison with the
  -- received MAC is printed only.
  unfoldable pub decode_protected :
      ℕ → Option (Bool × Bool) → ℕ → List ℕ → Step lib (ℕ × lib.Message)
  unfolding received received_mac_of decrypted asks calls changes ◌>>=◌ ◌>>◌ gives
  decode_protected t none sequence_number body = λ ue. (ue, fails wrong_header_type)
  decode_protected t (some (ciphered, is_new)) sequence_number body = do
    changes lib (received is_new sequence_number)
    mac32 ← asks lib (received_mac_of (sequence_number ∷ body))
    plain ← (if ciphered then asks lib (decrypted body) else gives body)
    msg ← calls lib (lib.plain_nas_decode plain)
    gives (t, msg)

  taken_apart : ℕ → List ℕ → Step lib (ℕ × lib.Message)
  unfolding decode_protected header_kind
  taken_apart t (epd ∷ kind ∷ m0 ∷ m1 ∷ m2 ∷ m3 ∷ sequence_number ∷ body) =
      decode_protected t (header_kind t) sequence_number body
  taken_apart t _ = λ ue. (ue, panics)

  -- With the null integrity algorithm three bytes are taken off.
  without_integrity : ℕ → List ℕ → Step lib (ℕ × lib.Message)
  unfolding decrypted asks calls ◌>>=◌ gives
  without_integrity t (b0 ∷ b1 ∷ b2 ∷ rest) = do
    plain ← asks lib (decrypted rest)
    msg ← calls lib (lib.plain_nas_decode plain)
    gives (t, msg)
  without_integrity t _ = λ ue. (ue, panics)

  decode_step : ℕ → Option (List ℕ) → Step lib (ℕ × lib.Message)
  unfolding taken_apart without_integrity calls ◌>>=◌ gives
  decode_step security_header_type none = λ ue. (ue, fails no_payload)
  decode_step security_header_type (some payload) = λ ue.
      let t = lib.get_security_header_type payload % 16 in
      let plain = (calls lib (lib.plain_nas_decode payload) >>= λ msg. gives (t, msg)) ue in
      if security_header_type == lib.plain_nas
      then plain
      else if ue.integrity_alg == lib.alg_integrity_nia0
      then without_integrity t payload ue
      else taken_apart t payload ue

  unfoldable pub nas_decode :
      Option (RanUeContext lib)
      → ℕ
      → Option (List ℕ)
      → Option (RanUeContext lib) × Outcome (NasError lib.Err) (ℕ × lib.Message)
  unfolding on_ue decode_step
  nas_decode ue security_header_type payload =
      on_ue lib no_ue (decode_step security_header_type payload) ue
