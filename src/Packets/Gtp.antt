-- ===== src/Packets/Gtp.antt =====
-- test/gtp.go: the header of GTPv1. `binary.Write` of the two structures puts their fields one after
-- the other, highest byte first, and has no error.
use Prim.Native.Nat.{bit_or, bit_and}
use free5gc_workspace.Prelude.{
  ℕ, ◌^◌, ◌≡◌, ◌<◌, refl, Bool, true, false, not, ◌||◌, List, [], ◌∷◌, ◌++◌, length, drop, inl, inr,
  Bool-cases, ◌==◌, if◌then◌else◌,
}
use free5gc_workspace.Prelude.Outcome.{returns, panics}
use free5gc_workspace.Prelude.Bytes.{
  be_uint16, be_uint32, put_uint16, put_uint32, be_uint16-put_uint16, be_uint32-put_uint32,
}

pub record GtpHdr : Type 0 where
  pub flags : ℕ
  pub mtype : ℕ
  pub len : ℕ
  pub teid : ℕ

pub record GtpHdrOpt : Type 0 where
  pub sn : ℕ
  pub npdunum : ℕ
  pub nexthdrtype : ℕ

unfoldable pub write_hdr : GtpHdr → List ℕ
write_hdr h = h.flags ∷ (h.mtype ∷ (put_uint16 h.len ++ put_uint32 h.teid))

unfoldable pub write_opt : GtpHdrOpt → List ℕ
write_opt o = put_uint16 o.sn ++ (o.npdunum ∷ (o.nexthdrtype ∷ []))

-- Version 1 and protocol type GTP, with a bit for each of the three flags.
unfoldable pub flags_of : Bool → Bool → Bool → ℕ
flags_of sn_flag n_pdu_flag ext_hdr_flag =
    let with_ext : ℕ = if ext_hdr_flag then bit_or 48 4 else 48 in
    let with_sn : ℕ = if sn_flag then bit_or with_ext 2 else with_ext in
    if n_pdu_flag then bit_or with_sn 1 else with_sn

unfoldable pub build_gtpv1_header : Bool → ℕ → Bool → ℕ → Bool → ℕ → ℕ → ℕ → List ℕ
unfolding write_hdr write_opt flags_of
build_gtpv1_header sn_flag sn n_pdu_flag n_pdu_num ext_hdr_flag n_ext_hdr_type payload_len te_id =
    let ghdr : GtpHdr = record {
      flags = flags_of sn_flag n_pdu_flag ext_hdr_flag;
      mtype = 0xFF;
      len = payload_len;
      teid = te_id;
    } in
    let ghdropt : GtpHdrOpt = record {
      sn = sn;
      npdunum = n_pdu_num;
      nexthdrtype = n_ext_hdr_type;
    } in
    if sn_flag || (n_pdu_flag || ext_hdr_flag)
    then write_hdr ghdr ++ write_opt ghdropt
    else write_hdr ghdr

-- What a receiver reads in a header, after TS 29.281: the version, the flags, the length, the
-- tunnel, and the four optional bytes when any flag is set.
pub record Reads (sn_flag n_pdu_flag ext_hdr_flag : Bool) (sn n_pdu_num n_ext_hdr_type len teid : ℕ)
    (h : List ℕ) : Type 0 where
  pub first : ℕ
  pub rest : List ℕ
  pub starts : h ≡ first ∷ rest
  pub version : bit_and first 0xF0 ≡ 48
  pub ext_bit : not (bit_and first 4 == 0) ≡ ext_hdr_flag
  pub sn_bit : not (bit_and first 2 == 0) ≡ sn_flag
  pub n_pdu_bit : not (bit_and first 1 == 0) ≡ n_pdu_flag
  pub size : length h ≡ (if sn_flag || (n_pdu_flag || ext_hdr_flag) then 12 else 8)
  pub payload : be_uint16 {E = Unit} (drop 2 h) ≡ returns len
  pub tunnel : be_uint32 {E = Unit} (drop 4 h) ≡ returns teid
  pub sequence :
      be_uint16 {E = Unit} (drop 8 h)
      ≡ (if sn_flag || (n_pdu_flag || ext_hdr_flag) then returns sn else panics)
  pub optional :
      drop 10 h
      ≡ (if sn_flag || (n_pdu_flag || ext_hdr_flag) then n_pdu_num ∷ (n_ext_hdr_type ∷ []) else [])

flags_of_bits :
    (sn_flag n_pdu_flag ext_hdr_flag : Bool)
    → let first = flags_of sn_flag n_pdu_flag ext_hdr_flag in
      (bit_and first 0xF0 ≡ 48)
      × (not (bit_and first 4 == 0) ≡ ext_hdr_flag)
      × (not (bit_and first 2 == 0) ≡ sn_flag)
      × (not (bit_and first 1 == 0) ≡ n_pdu_flag)
unfolding flags_of
flags_of_bits true true true = (refl, refl, refl, refl)
flags_of_bits true true false = (refl, refl, refl, refl)
flags_of_bits true false true = (refl, refl, refl, refl)
flags_of_bits true false false = (refl, refl, refl, refl)
flags_of_bits false true true = (refl, refl, refl, refl)
flags_of_bits false true false = (refl, refl, refl, refl)
flags_of_bits false false true = (refl, refl, refl, refl)
flags_of_bits false false false = (refl, refl, refl, refl)

-- The bytes behind the first, with the optional ones or without.
abbrev tail : Bool → ℕ → ℕ → ℕ → ℕ → ℕ → List ℕ
tail any sn npdu next len teid =
    let fixed : List ℕ = put_uint16 len ++ put_uint32 teid in
    255 ∷ (if any then fixed ++ (put_uint16 sn ++ (npdu ∷ (next ∷ []))) else fixed)

tail_reads :
    (any : Bool) (first sn npdu next len teid : ℕ)
    → sn < 2 ^ 16
    → len < 2 ^ 16
    → teid < 2 ^ 32
    → let h = first ∷ tail any sn npdu next len teid in
      (length h ≡ (if any then 12 else 8))
      × (be_uint16 {E = Unit} (drop 2 h) ≡ returns len)
      × (be_uint32 {E = Unit} (drop 4 h) ≡ returns teid)
      × (be_uint16 {E = Unit} (drop 8 h) ≡ (if any then returns sn else panics))
      × (drop 10 h ≡ (if any then npdu ∷ (next ∷ []) else []))
unfolding be_uint16 put_uint16 be_uint32 put_uint32
tail_reads true first sn npdu next len teid f h g = (
  refl,
  be_uint16-put_uint16 len [] h,
  be_uint32-put_uint32 teid g,
  be_uint16-put_uint16 sn [] f,
  refl,
)
tail_reads false first sn npdu next len teid f h g =
    (refl, be_uint16-put_uint16 len [] h, be_uint32-put_uint32 teid g, refl, refl)

build_gtpv1_header_lem :
    (s n e : Bool) (sn npdu next len teid : ℕ)
    → build_gtpv1_header s sn n npdu e next len teid
      ≡ flags_of s n e ∷ tail (s || (n || e)) sn npdu next len teid
unfolding build_gtpv1_header put_uint16 put_uint32
build_gtpv1_header_lem s n e sn npdu next len teid = elim (Bool-cases (s || (n || e))) [
  | inl any ↦ rw any refl
  | inr nothing ↦ rw nothing refl
]

-- A receiver reads in the header the flags, the length of the payload and the identifier of the
-- tunnel that it was made of; when any flag is set, also the sequence number, the number of the
-- N-PDU and the type of the next extension, in a header of 12 bytes, and else one of 8 bytes.
pub build_gtpv1_header-Reads :
    (sn_flag n_pdu_flag ext_hdr_flag : Bool) (sn n_pdu_num n_ext_hdr_type payload_len te_id : ℕ)
    → sn < 2 ^ 16
    → payload_len < 2 ^ 16
    → te_id < 2 ^ 32
    → Reads sn_flag n_pdu_flag ext_hdr_flag sn n_pdu_num n_ext_hdr_type payload_len te_id (
        build_gtpv1_header sn_flag sn n_pdu_flag n_pdu_num ext_hdr_flag n_ext_hdr_type payload_len
          te_id)
build_gtpv1_header-Reads s n e sn npdu next len teid f h g =
    let any = s || (n || e) in
    let bits = flags_of_bits s n e in
    let fields = tail_reads any (flags_of s n e) sn npdu next len teid f h g in
    rw (build_gtpv1_header_lem s n e sn npdu next len teid) (record {
      first = flags_of s n e;
      rest = tail any sn npdu next len teid;
      starts = refl;
      version = bits.0;
      ext_bit = bits.1;
      sn_bit = bits.2;
      n_pdu_bit = bits.3;
      size = fields.0;
      payload = fields.1;
      tunnel = fields.2;
      sequence = fields.3;
      optional = fields.4;
    })
