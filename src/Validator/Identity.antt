-- ===== src/Validator/Identity.antt =====
-- Which identities the validators accept.
use free5gc_workspace.Prelude.{
  ℕ, ◌^◌, ◌≡◌, ◌⊎◌, ◌≤◌, ◌<◌, ◌↔◌, refl, ap, sym, ◌∙◌, true, false, [], ◌∷◌, ◌++◌, length, ltb,
  Bool-cases, inl, inr, arith,
}
use free5gc_workspace.Text.Decimal.{Bytes, codes, is_digit, format, atoi-format}
use free5gc_workspace.Text.Words.{has_prefix}
use free5gc_workspace.Text.Regex.{Regex, seq, In, matches, matches_iff}
use free5gc_workspace.Text.Regex.Forms.{lit, lit_iff, between, between_iff, Each}
use free5gc_workspace.Validator.{
  digit, is_valid_supi, is_valid_pei, pei_imei_regex, pei_imeisv_regex, plmn_id_regex,
  is_valid_plmn_id, is_valid_pdu_session_id, below_256,
}

append_cancel : (w x y : Bytes) → w ++ x ≡ w ++ y → x ≡ y
append_cancel [] x y e = e
append_cancel (c ∷ w) x y e = append_cancel w x y (tail e)
  where
    tail : c ∷ (w ++ x) ≡ c ∷ (w ++ y) → w ++ x ≡ w ++ y
    tail h = cc

-- Behind a literal an expression goes on with the rest of the text.
pub lit_then : (w : Bytes) (r : Regex) (d : Bytes) → In (seq (lit w) r) (w ++ d) ↔ In r d
lit_then w r d = (
  λ (x, y, e, a, b).
      let same : w ++ d ≡ w ++ y = e ∙ ap (λ l. l ++ y) ((lit_iff w x).0 a) in
      rw (append_cancel w d y same) b,
  λ b. (w, d, refl, (lit_iff w w).1 refl, b),
)

matches_lit_then :
    (w : Bytes) (r : Regex) (d : Bytes) → (matches (seq (lit w) r) (w ++ d) ≡ true) ↔ In r d
matches_lit_then w r d =
    let (sound, complete) = matches_iff (seq (lit w) r) (w ++ d) in
    let (there, back) = lit_then w r d in (λ h. there (sound h), λ h. complete (back h))

-- `n` to `m` digits.
abbrev pub IsDigits : ℕ → ℕ → Bytes → Type 0
IsDigits n m d = (n ≤ length d) × (length d ≤ m) × Each is_digit d

lit_then-IsDigits :
    (w d : Bytes) (n m : ℕ)
    → n ≤ m
    → (matches (seq (lit w) (between n m digit)) (w ++ d) ≡ true) ↔ IsDigits n m d
lit_then-IsDigits w d n m h =
    let (sound, complete) = matches_lit_then w (between n m digit) d in
    let (there, back) = between_iff is_digit n m d h in
    (λ e. there (sound e), λ e. complete (back e))

-- A SUPI that begins with "imsi-" is valid just when 5 to 15 digits follow.
pub is_valid_supi_imsi : (d : Bytes) → (is_valid_supi (codes "imsi-" ++ d) ≡ true) ↔ IsDigits 5 15 d
unfolding is_valid_supi
is_valid_supi_imsi d = lit_then-IsDigits (codes "imsi-") d 5 15 (omega arith)

has_prefix-append : (w d : Bytes) → has_prefix (w ++ d) w ≡ true
unfolding has_prefix
has_prefix-append [] d = refl
has_prefix-append (c ∷ w) d = ground (arith, has_prefix-append w d)

has_prefix_iff : (s w : Bytes) → has_prefix s w ≡ true → (d : Bytes) × (s ≡ w ++ d)
unfolding has_prefix
has_prefix_iff s [] h = (s, refl)
has_prefix_iff [] (c ∷ w) h = cc
has_prefix_iff (e ∷ s) (c ∷ w) h =
    let (d, f) = has_prefix_iff s w (ground arith) in (d, ground arith)

-- A valid PEI is "imei-" and 15 digits or "imeisv-" and 16 digits, and nothing else.
pub is_valid_pei_iff :
    (pei : Bytes)
    → (is_valid_pei pei ≡ true) ↔ (
        ((d : Bytes) × (pei ≡ codes "imei-" ++ d) × IsDigits 15 15 d)
        ⊎ ((d : Bytes) × (pei ≡ codes "imeisv-" ++ d) × IsDigits 16 16 d))
unfolding is_valid_pei
is_valid_pei_iff pei = (
  λ h. elim (Bool-cases (has_prefix pei (codes "imei-"))) [
    | inl e ↦
        let (d, f) = has_prefix_iff pei (codes "imei-") e in
        inl (
          d,
          f,
          (lit_then-IsDigits (codes "imei-") d 15 15 (omega arith)).0
              (sym (ap (matches pei_imei_regex) f) ∙ rw e at h),
        )
    | inr e ↦ elim (Bool-cases (has_prefix pei (codes "imeisv-"))) [
      | inl e' ↦
          let (d, f) = has_prefix_iff pei (codes "imeisv-") e' in
          inr (
            d,
            f,
            (lit_then-IsDigits (codes "imeisv-") d 16 16 (omega arith)).0
                (sym (ap (matches pei_imeisv_regex) f) ∙ rw (e, e') at h),
          )
      | inr e' ↦ absurd (never (rw (e, e') at h))
    ]
  ],
  λ h. elim h [
    | inl (d, f, a) ↦
        ap is_valid_pei f ∙ (lit_then-IsDigits (codes "imei-") d 15 15 (omega arith)).1 a
    | inr (d, f, a) ↦
        ap is_valid_pei f ∙ (lit_then-IsDigits (codes "imeisv-") d 16 16 (omega arith)).1 a
  ],
)
  where
    never : false ≡ true → ⊥
    never h = cc

-- A PLMN id is valid just when it is 5 or 6 digits.
pub is_valid_plmn_id_iff : (s : Bytes) → (is_valid_plmn_id s ≡ true) ↔ IsDigits 5 6 s
unfolding is_valid_plmn_id
is_valid_plmn_id_iff s =
    let (sound, complete) = matches_iff plmn_id_regex s in
    let (there, back) = between_iff is_digit 5 6 s (omega arith) in
    (λ e. there (sound e), λ e. complete (back e))

-- Of the numbers of 63 bits in decimal, those below 256 are valid ids of a session.
pub is_valid_pdu_session_id-format :
    (n : ℕ) → n < 2 ^ 63 → is_valid_pdu_session_id (format n) ≡ ltb n 256
unfolding is_valid_pdu_session_id
is_valid_pdu_session_id-format n h = ap below_256 (atoi-format n h)
