-- ===== src/Text/Words.antt =====
-- What is used of package strings, on ASCII texts: ToLower, Fields, Join, Split, HasPrefix, Contains.
use free5gc_workspace.Prelude.{
  ℕ, ◌+◌, ◌≡◌, ◌≢◌, refl, ap, sym, ◌∙◌, Bool, true, false, ◌&&◌, ◌||◌, List, [], ◌∷◌, ◌++◌, All,
  leb, ◌==◌, ==_iff, ◌↔◌, if◌then◌else◌, arith,
}
use mathlib.Core.List.{append-nil, append_assoc}
use free5gc_workspace.Text.Decimal.{Bytes}

unfoldable pub lower : ℕ → ℕ
lower c = if leb b'A' c && leb c b'Z' then c + 32 else c

unfoldable pub to_lower : Bytes → Bytes
unfolding lower
to_lower [] = []
to_lower (c ∷ s) = lower c ∷ to_lower s

-- `unicode.IsSpace` on ASCII
abbrev pub is_space : ℕ → Bool
is_space c = c == b' ' || (leb 9 c && leb c 13)

abbrev pub add_word : Bytes → List Bytes → List Bytes
add_word [] ws = ws
add_word (c ∷ w) ws = (c ∷ w) ∷ ws

-- The words of a text; `word` is what stands before it without a space between.
unfoldable pub fields_from : Bytes → Bytes → List Bytes
fields_from word [] = add_word word []
fields_from word (c ∷ s) =
    let ends = add_word word (fields_from [] s) in
    let goes_on = fields_from (word ++ c ∷ []) s in if is_space c then ends else goes_on

unfoldable pub fields : Bytes → List Bytes
unfolding fields_from
fields s = fields_from [] s

unfoldable pub join : Bytes → List Bytes → Bytes
join sep [] = []
join sep (w ∷ []) = w
join sep (w ∷ v ∷ ws) = w ++ (sep ++ join sep (v ∷ ws))

-- `strings.Split` at a single byte.
unfoldable pub split_from : ℕ → Bytes → Bytes → List Bytes
split_from sep part [] = part ∷ []
split_from sep part (c ∷ s) =
    let ends = part ∷ split_from sep [] s in
    let goes_on = split_from sep (part ++ c ∷ []) s in if c == sep then ends else goes_on

unfoldable pub split_at : ℕ → Bytes → List Bytes
unfolding split_from
split_at sep s = split_from sep [] s

unfoldable pub has_prefix : Bytes → Bytes → Bool
has_prefix s [] = true
has_prefix [] (c ∷ p) = false
has_prefix (d ∷ s) (c ∷ p) = d == c && has_prefix s p

-- Whether the text has the byte.
unfoldable pub contains_byte : ℕ → Bytes → Bool
contains_byte b [] = false
contains_byte b (c ∷ s) = c == b || contains_byte b s

unfoldable pub text_eq : Bytes → Bytes → Bool
text_eq [] [] = true
text_eq [] (c ∷ t) = false
text_eq (c ∷ s) [] = false
text_eq (c ∷ s) (d ∷ t) = c == d && text_eq s t

-- No space and no capital letter.
abbrev pub IsPlain : Bytes → Type 0
IsPlain = All (λ c. (is_space c ≡ false) × (lower c ≡ c))

pub IsPlain-append : (s t : Bytes) → IsPlain s → IsPlain t → IsPlain (s ++ t)
IsPlain-append [] t p q = q
IsPlain-append (c ∷ s) t p q = (p.0, IsPlain-append s t p.1 q)

fields_from-word :
    (word w s : Bytes) → IsPlain w → fields_from word (w ++ s) ≡ fields_from (word ++ w) s
unfolding fields_from
fields_from-word word [] s p = ap (λ x. fields_from x s) (sym (append-nil word))
fields_from-word word (c ∷ w) s p = rw p.0.0 (
    fields_from-word (word ++ c ∷ []) w s p.1
    ∙ ap (λ x. fields_from x s) (append_assoc word (c ∷ []) w))

-- Words without spaces that are joined by spaces are found again.
pub fields-join :
    (ws : List Bytes) → All (λ w. IsPlain w × (w ≢ [])) ws → fields (join (b' ' ∷ []) ws) ≡ ws
unfolding fields join
fields-join [] p = refl
fields-join (w ∷ []) p =
    ap (fields_from []) (sym (append-nil w)) ∙ fields_from-word [] w [] p.0.0 ∙ last_word w p.0.1
  where
    last_word : (w : Bytes) → w ≢ [] → fields_from w [] ≡ w ∷ []
    last_word [] h = absurd (h refl)
    last_word (c ∷ w) h = refl
fields-join (w ∷ v ∷ ws) p =
    fields_from-word [] w (b' ' ∷ join (b' ' ∷ []) (v ∷ ws)) p.0.0
    ∙ first_word w p.0.1 (join (b' ' ∷ []) (v ∷ ws))
    ∙ ap (λ l. w ∷ l) (fields-join (v ∷ ws) p.1)
  where
    first_word :
        (w : Bytes) → w ≢ [] → (s : Bytes) → fields_from w (b' ' ∷ s) ≡ w ∷ fields_from [] s
    first_word [] h s = absurd (h refl)
    first_word (c ∷ w) h s = refl

-- No capital letter.
abbrev IsLower : Bytes → Type 0
IsLower = All (λ c. lower c ≡ c)

IsLower-append : (s t : Bytes) → IsLower s → IsLower t → IsLower (s ++ t)
IsLower-append [] t p q = q
IsLower-append (c ∷ s) t p q = (p.0, IsLower-append s t p.1 q)

IsPlain→IsLower : (s : Bytes) → IsPlain s → IsLower s
IsPlain→IsLower [] p = tt
IsPlain→IsLower (c ∷ s) p = (p.0.1, IsPlain→IsLower s p.1)

join-IsLower :
    (ws : List Bytes) → All (λ w. IsPlain w × (w ≢ [])) ws → IsLower (join (b' ' ∷ []) ws)
unfolding join lower
join-IsLower [] p = tt
join-IsLower (w ∷ []) p = IsPlain→IsLower w p.0.0
join-IsLower (w ∷ v ∷ ws) p =
    IsLower-append w (b' ' ∷ join (b' ' ∷ []) (v ∷ ws)) (IsPlain→IsLower w p.0.0)
      (refl, join-IsLower (v ∷ ws) p.1)

to_lower_id : (s : Bytes) → IsLower s → to_lower s ≡ s
unfolding to_lower
to_lower_id [] p = refl
to_lower_id (c ∷ s) p = rw (p.0, to_lower_id s p.1) refl

-- Words without spaces and capitals that are joined by spaces are found again, in small letters.
pub fields-to_lower-join :
    (ws : List Bytes)
    → All (λ w. IsPlain w × (w ≢ [])) ws
    → fields (to_lower (join (b' ' ∷ []) ws)) ≡ ws
fields-to_lower-join ws p =
    ap fields (to_lower_id (join (b' ' ∷ []) ws) (join-IsLower ws p)) ∙ fields-join ws p

-- The text has no byte `sep`.
abbrev pub Lacks : ℕ → Bytes → Type 0
Lacks sep = All (λ c. (c == sep) ≡ false)

split_from-part :
    (sep : ℕ) (part w s : Bytes)
    → Lacks sep w
    → split_from sep part (w ++ s) ≡ split_from sep (part ++ w) s
unfolding split_from
split_from-part sep part [] s p = ap (λ x. split_from sep x s) (sym (append-nil part))
split_from-part sep part (c ∷ w) s p = rw p.0 (
    split_from-part sep (part ++ c ∷ []) w s p.1
    ∙ ap (λ x. split_from sep x s) (append_assoc part (c ∷ []) w))

split_from-end : (sep : ℕ) (part w : Bytes) → Lacks sep w → split_from sep part w ≡ (part ++ w) ∷ []
unfolding split_from
split_from-end sep part [] p = ap (λ x. x ∷ []) (sym (append-nil part))
split_from-end sep part (c ∷ w) p =
    rw p.0
      (split_from-end sep (part ++ c ∷ []) w p.1 ∙ ap (λ x. x ∷ []) (append_assoc part (c ∷ []) w))

-- Parts without the separator that are joined by it are found again.
pub split_at-join :
    (sep : ℕ) (w : Bytes) (ws : List Bytes)
    → Lacks sep w
    → All (Lacks sep) ws
    → split_at sep (join (sep ∷ []) (w ∷ ws)) ≡ w ∷ ws
unfolding split_at join split_from
split_at-join sep w [] p q = split_from-end sep [] w p
split_at-join sep w (v ∷ ws) p q =
    split_from-part sep [] w (sep ∷ join (sep ∷ []) (v ∷ ws)) p
    ∙ rw ((==_iff sep sep).1 refl) (ap (λ l. w ∷ l) (split_at-join sep v ws q.0 q.1))

pub text_eq_iff : (s t : Bytes) → (text_eq s t ≡ true) ↔ (s ≡ t)
unfolding text_eq
text_eq_iff s t = (sound s t, λ e. ap (text_eq s) (sym e) ∙ same s)
  where
    sound : (s t : Bytes) → text_eq s t ≡ true → s ≡ t
    sound [] [] h = refl
    sound [] (c ∷ t) h = cc
    sound (c ∷ s) [] h = cc
    sound (c ∷ s) (d ∷ t) h = ground (arith, sound s t, ==_iff c d)

    same : (s : Bytes) → text_eq s s ≡ true
    same [] = refl
    same (c ∷ s) = ground (arith, same s, ==_iff c c)
