-- ===== src/Text/Regex/Forms.antt =====
-- The forms of expressions that the source writes, and what they stand for.
use free5gc_workspace.Prelude.{
  ℕ, zero, suc, ◌+◌, ◌-◌, ◌≡◌, ◌≤◌, ◌↔◌, refl, ap, sym, ◌∙◌, Bool, true, not, [], ◌∷◌, ◌++◌, length,
  length-append, take, drop, take-drop, length-take, length-drop, All, ◌==◌, ==_iff, inl, inr,
  arith,
}
use free5gc_workspace.Text.Decimal.{Bytes}
use free5gc_workspace.Text.Regex.{
  Regex, empty, one_of, seq, alt, star, nullable, nullable_iff, matches, matches_iff, Star, stop,
  more, In,
}

-- The forms of expressions that the source writes.
abbrev pub lit : Bytes → Regex
lit [] = empty
lit (c ∷ w) = seq (one_of (λ d. d == c)) (lit w)

abbrev pub times : ℕ → Regex → Regex
times zero r = empty
times (suc n) r = seq r (times n r)

abbrev pub up_to : ℕ → Regex → Regex
up_to zero r = empty
up_to (suc n) r = alt empty (seq r (up_to n r))

abbrev pub plus : Regex → Regex
plus r = seq r (star r)

-- `r{m,n}`
abbrev pub between : ℕ → ℕ → Regex → Regex
between m n r = seq (times m r) (up_to (n - m) r)

abbrev pub optional : Regex → Regex
optional r = alt empty r

-- The dot: any byte but a line feed.
abbrev pub dot : Regex
dot = one_of (λ c. not (c == 10))

-- `MatchString` of an expression without `^` and `$`
abbrev pub anywhere : Regex → Regex
anywhere r = seq (star (one_of (λ c. true))) (seq r (star (one_of (λ c. true))))

abbrev pub Each : (ℕ → Bool) → Bytes → Type 0
Each p = All (λ c. p c ≡ true)

Each-append : (p : ℕ → Bool) (s t : Bytes) → Each p s → Each p t → Each p (s ++ t)
Each-append p [] t a b = b
Each-append p (c ∷ s) t a b = (a.0, Each-append p s t a.1 b)

pub lit_iff : (w s : Bytes) → In (lit w) s ↔ (s ≡ w)
lit_iff [] s = (λ h. h, λ h. h)
lit_iff (c ∷ w) s = (
  λ (x, y, e, (d, f, g), b).
      e
      ∙ ap (λ l. l ++ y) (f ∙ ap (λ n. n ∷ []) ((==_iff d c).0 g))
      ∙ ap (λ l. c ∷ l) ((lit_iff w y).0 b),
  λ e. (c ∷ [], w, e, (c, refl, (==_iff c c).1 refl), (lit_iff w w).1 refl),
)

module _ (p : ℕ → Bool) where
  one_none : (r : Regex) → In (seq (one_of p) r) [] → ⊥
  one_none r (x, y, e, (c, f, g), b) = no_cons (e ∙ ap (λ l. l ++ y) f)
    where
      no_cons : [] ≡ c ∷ y → ⊥
      no_cons h = cc

  one_first :
      (r : Regex) (c : ℕ) (s : Bytes) → In (seq (one_of p) r) (c ∷ s) → (p c ≡ true) × In r s
  one_first r c s (x, y, e, (d, f, g), b) = split (e ∙ ap (λ l. l ++ y) f)
    where
      split : c ∷ s ≡ d ∷ y → (p c ≡ true) × In r s
      split h = let hd : c ≡ d = cc in let tl : s ≡ y = cc in (ap p hd ∙ g, rw tl b)

  one_then : (r : Regex) (c : ℕ) (y : Bytes) → p c ≡ true → In r y → In (seq (one_of p) r) (c ∷ y)
  one_then r c y g b = (c ∷ [], y, refl, (c, refl, g), b)

  times_iff : (n : ℕ) (s : Bytes) → In (times n (one_of p)) s ↔ ((length s ≡ n) × Each p s)
  times_iff zero [] = (λ h. (refl, tt), λ h. refl)
  times_iff zero (c ∷ s) = (λ h. cc, λ h. absurd (omega (arith, h.0)))
  times_iff (suc n) [] =
      (λ h. absurd (one_none (times n (one_of p)) h), λ h. absurd (omega (arith, h.0)))
  times_iff (suc n) (c ∷ s) = (
    λ h.
        let (g, b) = one_first (times n (one_of p)) c s h in
        let (l, a) = (times_iff n s).0 b in (omega (arith, l), (g, a)),
    λ h. one_then (times n (one_of p)) c s h.1.0 ((times_iff n s).1 (omega (arith, h.0), h.1.1)),
  )

  up_to_iff : (n : ℕ) (s : Bytes) → In (up_to n (one_of p)) s ↔ ((length s ≤ n) × Each p s)
  up_to_iff zero [] = (λ h. (omega arith, tt), λ h. refl)
  up_to_iff zero (c ∷ s) = (λ h. cc, λ h. absurd (omega (arith, h.0)))
  up_to_iff (suc n) [] = (λ h. (omega arith, tt), λ h. inl refl)
  up_to_iff (suc n) (c ∷ s) = (
    λ h. elim h [
      | inl e ↦ cc
      | inr b ↦
          let (g, b') = one_first (up_to n (one_of p)) c s b in
          let (l, a) = (up_to_iff n s).0 b' in (omega (arith, l), (g, a))
    ],
    λ h.
        inr
          (one_then (up_to n (one_of p)) c s h.1.0 ((up_to_iff n s).1 (omega (arith, h.0), h.1.1))),
  )

  Each-left : (s t : Bytes) → Each p (s ++ t) → Each p s
  Each-left [] t a = tt
  Each-left (c ∷ s) t a = (a.0, Each-left s t a.1)

  Each-right : (s t : Bytes) → Each p (s ++ t) → Each p t
  Each-right [] t a = a
  Each-right (c ∷ s) t a = Each-right s t a.1

  -- `[…]{m,n}` stands for the texts of m to n such bytes.
  pub between_iff :
      (m n : ℕ) (s : Bytes)
      → m ≤ n
      → In (between m n (one_of p)) s ↔ ((m ≤ length s) × (length s ≤ n) × Each p s)
  between_iff m n s h = (
    λ (x, y, e, a, b).
        let (lx, ax) = (times_iff m x).0 a in
        let (ly, ay) = (up_to_iff (n - m) y).0 b in
        let l : length s ≡ length x + length y = ap length e ∙ length-append x y in
        (omega arith, omega arith, rw e (Each-append p x y ax ay)),
    λ (low, high, a).
        let whole = take-drop m s in
        let a' : Each p (take m s ++ drop m s) = rw whole a in
        let ld = length-drop m s low in
        (
          take m s,
          drop m s,
          sym whole,
          (times_iff m (take m s)).1 (length-take m s low, Each-left (take m s) (drop m s) a'),
          (up_to_iff (n - m) (drop m s)).1 (omega arith, Each-right (take m s) (drop m s) a'),
        ),
  )

  repetition_iff : (s : Bytes) → Star (In (one_of p)) s ↔ Each p s
  repetition_iff s = (sound s, complete s)
    where
      sound : (s : Bytes) → Star (In (one_of p)) s → Each p s
      sound _ stop = tt
      sound _ (more s x y e (c, f, g) b) = rw (e, f) (g, sound y b)

      complete : (s : Bytes) → Each p s → Star (In (one_of p)) s
      complete [] a = stop
      complete (c ∷ s) a = more (c ∷ s) (c ∷ []) s refl (c, refl, a.0) (complete s a.1)

  pub plus_iff : (s : Bytes) → In (plus (one_of p)) s ↔ ((1 ≤ length s) × Each p s)
  plus_iff [] = (λ h. absurd (one_none (star (one_of p)) h), λ h. absurd (omega (arith, h.0)))
  plus_iff (c ∷ s) = (
    λ h.
        let (g, b) = one_first (star (one_of p)) c s h in
        (omega arith, (g, (repetition_iff s).0 b)),
    λ h. one_then (star (one_of p)) c s h.1.0 ((repetition_iff s).1 h.1.1),
  )

-- An expression that stands for the empty text is found in every text.
pub anywhere-nullable :
    (r : Regex) → nullable r ≡ true → (s : Bytes) → matches (anywhere r) s ≡ true
anywhere-nullable r h s = (matches_iff (anywhere r) s).1 (
  [],
  s,
  refl,
  stop,
  ([], s, refl, (nullable_iff r).0 h, (repetition_iff (λ c. true) s).1 (each s)),
)
  where
    each : (s : Bytes) → Each (λ c. true) s
    each [] = tt
    each (c ∷ s) = (refl, each s)
