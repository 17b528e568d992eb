-- ===== src/Packets/Envelope.antt =====
-- The NAS message envelope: `encapNasMsgToEnvelope` of test/security.go and
-- `DecapNasPduFromEnvelope` of test/packet.go. A length is a `uint16`: what does not fit is cut off.
-- Where the source returns an error it returns the envelope beside it, which is left out.
use mathlib.Core.List.{append-nil}
use free5gc_workspace.Prelude.{
  ℕ, suc, ◌+◌, ◌-◌, ◌*◌, ◌%◌, ◌^◌, ◌≡◌, ◌<◌, ◌≤◌, refl, ap, sym, ◌∙◌, List, [], ◌∷◌, ◌++◌, leb,
  length, if◌then◌else◌, arith,
}
use free5gc_workspace.Prelude.Outcome.{Outcome, returns, panics, ◌>>=◌, ◌>>◌, guard}
use free5gc_workspace.Prelude.Bytes.{
  be_uint16, put_uint16, be_uint16-put_uint16, slice, slice-append,
}

pub data EnvelopeError : Type 0 where
  no_length shorter_than_length : EnvelopeError

unfoldable pub encap_nas_msg_to_envelope : List ℕ → List ℕ
encap_nas_msg_to_envelope nas_pdu = put_uint16 (length nas_pdu % 2 ^ 16) ++ nas_pdu

-- `b[lo:hi]`, for `hi` not past the end: a panic unless `lo <= hi`.
unfoldable pub span : List ℕ → ℕ → ℕ → Outcome EnvelopeError (List ℕ)
span l lo hi = if leb lo hi then slice l lo (hi - lo) else panics

-- The copy has as many bytes as the part of the envelope that is copied, when that is no panic.
unfoldable pub decap_nas_pdu_from_envelope : List ℕ → Outcome EnvelopeError (List ℕ × ℕ)
unfolding span
decap_nas_pdu_from_envelope envelop = do
  guard (leb 2 (length envelop % 2 ^ 16)) no_length
  nas_len ← be_uint16 envelop
  let stop = (2 + nas_len) % 2 ^ 16
  guard (leb stop (length envelop % 2 ^ 16)) shorter_than_length
  nas_msg ← span envelop 2 stop
  returns (nas_msg, nas_len)

-- The bytes behind a first part.
slice_end :
    (pre s : List ℕ) (n : ℕ)
    → length pre ≡ n
    → slice {E = EnvelopeError} (pre ++ s) n (length s) ≡ returns s
slice_end pre s n e =
    ap (λ x. slice (pre ++ x) n (length s)) (sym (append-nil s))
    ∙ ap (λ i. slice (pre ++ (s ++ [])) i (length s)) (sym e)
    ∙ slice-append pre s []

length-encap : (m : List ℕ) → length (encap_nas_msg_to_envelope m) ≡ suc (suc (length m))
unfolding encap_nas_msg_to_envelope put_uint16
length-encap m = refl

-- A NAS message of fewer than 65534 bytes comes back out of its envelope.
pub decap_nas_pdu_from_envelope-encap_nas_msg_to_envelope :
    (m : List ℕ)
    → length m + 2 < 2 ^ 16
    → decap_nas_pdu_from_envelope (encap_nas_msg_to_envelope m) ≡ returns (m, length m)
unfolding decap_nas_pdu_from_envelope encap_nas_msg_to_envelope put_uint16
decap_nas_pdu_from_envelope-encap_nas_msg_to_envelope m h =
    let small : length m % 2 ^ 16 ≡ length m = omega arith in
    let total = length-encap m in
    let body = slice_end (put_uint16 (length m)) m 2 refl in
    let there : (2 + length m) % 2 ^ 16 ≡ 2 + length m = omega arith in
    rw (small, be_uint16-put_uint16 {E = EnvelopeError} (length m) m (omega arith))
      (ground (arith, there, body))

-- An envelope whose length field is 65534 or more makes `DecapNasPduFromEnvelope` panic, if its own
-- length does not wrap around to less than two.
pub decap_panics :
    (a b : ℕ) (rest : List ℕ)
    → a < 256
    → b < 256
    → 65534 ≤ a * 256 + b
    → 2 ≤ (length rest + 2) % 2 ^ 16
    → decap_nas_pdu_from_envelope (a ∷ (b ∷ rest)) ≡ panics
unfolding decap_nas_pdu_from_envelope be_uint16
decap_panics a b rest ha hb h l = ground arith
