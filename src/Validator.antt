-- ===== src/Validator.antt =====
-- lib/util/validator. A text is the list of its bytes; `len(s) == 0` is the empty list. An expression
-- with `^` and `$` is matched as a whole.
pub mod Identity
mod Tests
use free5gc_workspace.Prelude.{
  ℕ, ◌≡◌, Bool, true, false, not, ◌&&◌, ◌||◌, List, [], ◌∷◌, ◌++◌, Option, none, some, ltb, leb,
  ◌==◌, if◌then◌else◌,
}
use free5gc_workspace.Prelude.Int.{ℤ, pos, negsuc}
use free5gc_workspace.Prelude.Outcome.{Outcome, returns, fails, guard}
use free5gc_workspace.Text.Decimal.{Bytes, codes, is_digit, atoi}
use free5gc_workspace.Text.Words.{has_prefix, contains_byte}
use free5gc_workspace.Text.Regex.{Regex, empty, one_of, seq, alt, matches}
use free5gc_workspace.Text.Regex.Forms.{lit, times, plus, between, optional, dot}

abbrev pub digit : Regex
digit = one_of is_digit

abbrev pub in_range : ℕ → ℕ → ℕ → Bool
in_range lo hi c = leb lo c && leb c hi

abbrev pub is_hex : ℕ → Bool
is_hex c = in_range b'a' b'f' c || (in_range b'A' b'F' c || is_digit c)

abbrev pub hex : Regex
hex = one_of is_hex

-- `^imsi-[0-9]{5,15}$`
abbrev pub supi_imsi_regex : Regex
supi_imsi_regex = seq (lit (codes "imsi-")) (between 5 15 digit)

-- `.+@.+$` behind a prefix
abbrev pub name_at_realm : Bytes → Regex
name_at_realm prefix = seq (lit prefix) (seq (plus dot) (seq (lit (codes "@")) (plus dot)))

-- `^nai-.+@.+$`
abbrev pub supi_nai_regex : Regex
supi_nai_regex = name_at_realm (codes "nai-")

-- `^(gci|gli)-.+$`
abbrev pub supi_gci_gli_regex : Regex
supi_gci_gli_regex =
    seq (alt (lit (codes "gci")) (lit (codes "gli"))) (seq (lit (codes "-")) (plus dot))

unfoldable pub is_valid_supi : Bytes → Bool
unfolding matches has_prefix contains_byte
is_valid_supi [] = false
is_valid_supi (c ∷ s) =
    let supi = c ∷ s in
    if has_prefix supi (codes "imsi-")
    then matches supi_imsi_regex supi
    else if has_prefix supi (codes "nai-")
    then (if contains_byte 0 supi then false else matches supi_nai_regex supi)
    else if has_prefix supi (codes "gci-") || has_prefix supi (codes "gli-")
    then matches supi_gci_gli_regex supi
    else false

-- `^msisdn-[0-9]{5,15}$`
abbrev pub gpsi_msisdn_regex : Regex
gpsi_msisdn_regex = seq (lit (codes "msisdn-")) (between 5 15 digit)

-- `^extid-.+@.+$`
abbrev pub gpsi_ext_id_regex : Regex
gpsi_ext_id_regex = name_at_realm (codes "extid-")

unfoldable pub is_valid_gpsi : Bytes → Bool
unfolding matches has_prefix contains_byte
is_valid_gpsi [] = false
is_valid_gpsi (c ∷ s) =
    let gpsi = c ∷ s in
    if has_prefix gpsi (codes "msisdn-")
    then matches gpsi_msisdn_regex gpsi
    else if has_prefix gpsi (codes "extid-")
    then (if contains_byte 0 gpsi then false else matches gpsi_ext_id_regex gpsi)
    else false

-- `^imei-[0-9]{15}$`
abbrev pub pei_imei_regex : Regex
pei_imei_regex = seq (lit (codes "imei-")) (between 15 15 digit)

-- `^imeisv-[0-9]{16}$`
abbrev pub pei_imeisv_regex : Regex
pei_imeisv_regex = seq (lit (codes "imeisv-")) (between 16 16 digit)

unfoldable pub is_valid_pei : Bytes → Bool
unfolding matches has_prefix
is_valid_pei pei =
    if has_prefix pei (codes "imei-")
    then matches pei_imei_regex pei
    else if has_prefix pei (codes "imeisv-")
    then matches pei_imeisv_regex pei
    else false

-- `^suci-[0-7]-[0-9]{3}-[0-9]{2,3}-[a-fA-F0-9]{1,4}-[a-fA-F0-9]{1,2}-[a-fA-F0-9]{1,2}-[a-fA-F0-9]+$`
abbrev pub suci_regex : Regex
suci_regex =
    let dash = lit (codes "-") in
    seq (lit (codes "suci-")) (
      seq (one_of (in_range b'0' b'7')) (
        seq dash (
          seq (between 3 3 digit) (
            seq dash (
              seq (between 2 3 digit) (
                seq dash (
                  seq (between 1 4 hex) (
                    seq dash (
                      seq (between 1 2 hex)
                        (seq dash (seq (between 1 2 hex) (seq dash (plus hex)))))))))))))

-- `^nai-.+@.+$`
abbrev pub suci_nai_regex : Regex
suci_nai_regex = name_at_realm (codes "nai-")

unfoldable pub is_valid_suci : Bytes → Bool
unfolding matches has_prefix
is_valid_suci suci =
    if has_prefix suci (codes "suci-")
    then matches suci_regex suci
    else if has_prefix suci (codes "nai-")
    then matches suci_nai_regex suci
    else false

-- `^[0-9]{5,6}$`
abbrev pub plmn_id_regex : Regex
plmn_id_regex = between 5 6 digit

unfoldable pub is_valid_plmn_id : Bytes → Bool
unfolding matches
is_valid_plmn_id plmn_id = matches plmn_id_regex plmn_id

-- `[0-9]|[1-9][0-9]|1[0-9][0-9]|2[0-4][0-9]|25[0-5]`
abbrev pub sst_regex : Regex
sst_regex = alt digit (
    alt (seq (one_of (in_range b'1' b'9')) digit) (
      alt (seq (lit (codes "1")) (seq digit digit)) (
        alt (seq (lit (codes "2")) (seq (one_of (in_range b'0' b'4')) digit))
          (seq (lit (codes "25")) (one_of (in_range b'0' b'5'))))))

-- `^(…)(-[0-9a-fA-F]{6})?$`
abbrev pub snssai_regex : Regex
snssai_regex = seq sst_regex (optional (seq (lit (codes "-")) (between 6 6 hex)))

unfoldable pub is_valid_snssai : Bytes → Bool
unfolding matches
is_valid_snssai snssai = matches snssai_regex snssai

unfoldable pub below_256 : Option ℤ → Bool
below_256 none = false
below_256 (some (pos n)) = ltb n 256
below_256 (some (negsuc n)) = false

unfoldable pub is_valid_pdu_session_id : Bytes → Bool
unfolding below_256 atoi
is_valid_pdu_session_id pdu_session_id = below_256 (atoi pdu_session_id)

-- An `int32` as an integer.
unfoldable pub is_pdu_session_id_in_psi_range : ℤ → Bool
is_pdu_session_id_in_psi_range (pos n) = ltb n 16
is_pdu_session_id_in_psi_range (negsuc n) = false

-- `^[^-]+-[0-9]{3}-[0-9]{2,3}-.+$`
abbrev pub group_id_regex : Regex
group_id_regex =
    let dash = lit (codes "-") in
    seq (plus (one_of (λ c. not (c == b'-')))) (
      seq dash (seq (between 3 3 digit) (seq dash (seq (between 2 3 digit) (seq dash (plus dot))))))

pub data GroupIdError : Type 0 where
  invalid_group_id : Bytes → GroupIdError

unfoldable pub validate_group_id_format : Bytes → Outcome GroupIdError (Unit {0})
unfolding matches
validate_group_id_format group_id =
    guard (matches group_id_regex group_id) (invalid_group_id group_id)
