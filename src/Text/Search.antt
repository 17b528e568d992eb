-- ===== src/Text/Search.antt =====
-- What is used of package strings to look for a text in another: HasSuffix, Contains and the Split at
-- a carriage return and a line feed.
use free5gc_workspace.Prelude.{
  ℕ, ◌≡◌, refl, ap, sym, ◌∙◌, Bool, true, false, ◌&&◌, ◌||◌, List, [], ◌∷◌, ◌++◌, All, ◌==◌,
  if◌then◌else◌, arith, Bool-cases, inl, inr,
}
use mathlib.Core.List.{append-nil, append_assoc}
use free5gc_workspace.Text.Decimal.{Bytes}
use free5gc_workspace.Text.Words.{has_prefix, text_eq, text_eq_iff, contains_byte, join, Lacks}

unfoldable pub has_suffix : Bytes → Bytes → Bool
unfolding text_eq
has_suffix [] p = text_eq [] p
has_suffix (c ∷ s) p = text_eq (c ∷ s) p || has_suffix s p

-- `strings.Contains`
unfoldable pub contains_text : Bytes → Bytes → Bool
unfolding has_prefix
contains_text [] p = has_prefix [] p
contains_text (c ∷ s) p = has_prefix (c ∷ s) p || contains_text s p

abbrev pub crlf : Bytes
crlf = 13 ∷ 10 ∷ []

-- `strings.Split` at the two bytes; `part` is what stands before the text.
unfoldable pub split_crlf_from : Bytes → Bytes → List Bytes
split_crlf_from part [] = part ∷ []
split_crlf_from part (c ∷ []) = (part ++ c ∷ []) ∷ []
split_crlf_from part (c ∷ d ∷ s) =
    let ends = part ∷ split_crlf_from [] s in
    let goes_on = split_crlf_from (part ++ c ∷ []) (d ∷ s) in
    if c == 13 && d == 10 then ends else goes_on

unfoldable pub split_crlf : Bytes → List Bytes
unfolding split_crlf_from
split_crlf s = split_crlf_from [] s

split_crlf_from-line :
    (part line s : Bytes)
    → Lacks 13 line
    → split_crlf_from part (line ++ (crlf ++ s)) ≡ (part ++ line) ∷ split_crlf_from [] s
unfolding split_crlf_from
split_crlf_from-line part [] s h = ap (λ x. x ∷ split_crlf_from [] s) (sym (append-nil part))
split_crlf_from-line part (c ∷ []) s h = rw (h.0) refl
split_crlf_from-line part (c ∷ d ∷ line) s h =
    rw
      (
        h.0,
        split_crlf_from-line (part ++ c ∷ []) (d ∷ line) s h.1,
        append_assoc part (c ∷ []) (d ∷ line),
      )
      refl

split_crlf_from-last :
    (part line : Bytes) → Lacks 13 line → split_crlf_from part line ≡ (part ++ line) ∷ []
unfolding split_crlf_from
split_crlf_from-last part [] h = ap (λ x. x ∷ []) (sym (append-nil part))
split_crlf_from-last part (c ∷ []) h = refl
split_crlf_from-last part (c ∷ d ∷ line) h =
    rw
      (
        h.0,
        split_crlf_from-last (part ++ c ∷ []) (d ∷ line) h.1,
        append_assoc part (c ∷ []) (d ∷ line),
      )
      refl

pub split_crlf-join :
    (line : Bytes) (lines : List Bytes)
    → All (Lacks 13) (line ∷ lines)
    → split_crlf (join crlf (line ∷ lines)) ≡ line ∷ lines
unfolding split_crlf join
split_crlf-join line [] h = split_crlf_from-last [] line h.0
split_crlf-join line (next ∷ lines) h =
    split_crlf_from-line [] line (join crlf (next ∷ lines)) h.0
    ∙ ap (λ l. line ∷ l) (split_crlf-join next lines h.1)

pub has_prefix-append : (p s : Bytes) → has_prefix (p ++ s) p ≡ true
unfolding has_prefix
has_prefix-append [] s = refl
has_prefix-append (c ∷ p) s = rw (has_prefix-append p s) (ground arith)

pub contains_text-append : (p s : Bytes) → contains_text (p ++ s) p ≡ true
unfolding contains_text has_prefix
contains_text-append [] [] = refl
contains_text-append [] (c ∷ s) = refl
contains_text-append (c ∷ p) s = rw (has_prefix-append (c ∷ p) s) refl

pub has_suffix-append : (s p : Bytes) → has_suffix (s ++ p) p ≡ true
unfolding has_suffix
has_suffix-append [] [] = (text_eq_iff [] []).1 refl
has_suffix-append [] (c ∷ p) = rw ((text_eq_iff (c ∷ p) (c ∷ p)).1 refl) refl
has_suffix-append (c ∷ s) p = rw (has_suffix-append s p) (ground arith)

pub contains_byte-Lacks : (b : ℕ) (s : Bytes) → contains_byte b s ≡ false → Lacks b s
unfolding contains_byte
contains_byte-Lacks b [] h = tt
contains_byte-Lacks b (c ∷ s) h = elim (Bool-cases (c == b)) [
  | inl e ↦ let clash : true ≡ false = rw e at h in cc
  | inr e ↦ (e, contains_byte-Lacks b s (rw e at h))
]

pub Lacks-append : (b : ℕ) (s t : Bytes) → Lacks b s → Lacks b t → Lacks b (s ++ t)
Lacks-append b [] t hs ht = ht
Lacks-append b (c ∷ s) t hs ht = (hs.0, Lacks-append b s t hs.1 ht)
