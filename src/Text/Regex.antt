-- ===== src/Text/Regex.antt =====
-- What is used of package regexp: the expressions of the source, matched by derivatives, and what a
-- match means.
pub mod Forms
use free5gc_workspace.Prelude.{
  ℕ, zero, suc, ◌+◌, ◌-◌, ◌≡◌, ◌⊎◌, ◌≤◌, ◌<◌, ◌↔◌, refl, ap, sym, ◌∙◌, Bool, true, false, not, ◌&&◌,
  ◌||◌, List, [], ◌∷◌, ◌++◌, length, length-append, take, drop, take-drop, length-take, length-drop,
  All, ltb, leb, ◌==◌, ==_iff, if◌then◌else◌, Bool-cases, inl, inr, arith,
}
use mathlib.Core.List.{append-nil, append_assoc}
use free5gc_workspace.Text.Decimal.{Bytes}

pub data Regex : Type 0 where
  fail empty : Regex
  one_of : (ℕ → Bool) → Regex
  seq alt : Regex → Regex → Regex
  star : Regex → Regex

abbrev pub nullable : Regex → Bool
nullable fail = false
nullable empty = true
nullable (one_of p) = false
nullable (seq r t) = nullable r && nullable t
nullable (alt r t) = nullable r || nullable t
nullable (star r) = true

-- What is left to match after the byte `c`.
unfoldable pub derivative : ℕ → Regex → Regex
derivative c fail = fail
derivative c empty = fail
derivative c (one_of p) = if p c then empty else fail
derivative c (seq r t) =
    let first = seq (derivative c r) t in
    let second = derivative c t in if nullable r then alt first second else first
derivative c (alt r t) = alt (derivative c r) (derivative c t)
derivative c (star r) = seq (derivative c r) (star r)

-- `MatchString` of an expression between `^` and `$`
unfoldable pub matches : Regex → Bytes → Bool
unfolding derivative
matches r [] = nullable r
matches r (c ∷ s) = matches (derivative c r) s

-- One or more pieces.
pub data Star (P : Bytes → Type 0) : Bytes → Type 0 where
  stop : Star P []
  more : (s x y : Bytes) → s ≡ x ++ y → P x → Star P y → Star P s

-- The texts that an expression stands for.
abbrev pub In : Regex → Bytes → Type 0
In fail s = ⊥
In empty s = s ≡ []
In (one_of p) s = (c : ℕ) × (s ≡ c ∷ []) × (p c ≡ true)
In (seq r t) s = (x y : Bytes) × (s ≡ x ++ y) × In r x × In t y
In (alt r t) s = In r s ⊎ In t s
In (star r) s = Star (In r) s

nil_append : (x y : Bytes) → [] ≡ x ++ y → (x ≡ []) × (y ≡ [])
nil_append [] y h = (refl, sym h)
nil_append (c ∷ x) y h = cc

pub nullable_iff : (r : Regex) → (nullable r ≡ true) ↔ In r []
nullable_iff fail = (λ h. cc, λ h. absurd h)
nullable_iff empty = (λ h. refl, λ h. refl)
nullable_iff (one_of p) = (λ h. cc, λ (c, e, h). cc)
nullable_iff (seq r t) = (
  λ h. (
    [],
    [],
    refl,
    (nullable_iff r).0 (ground (arith, h)),
    (nullable_iff t).0 (ground (arith, h)),
  ),
  λ (x, y, e, a, b).
      (let (ex, ey) = nil_append x y e in
        let nr = (nullable_iff r).1 (rw ex at a) in
        let nt = (nullable_iff t).1 (rw ey at b) in rw (nr, nt) refl),
)
nullable_iff (alt r t) = ground (arith, nullable_iff r, nullable_iff t)
nullable_iff (star r) = (λ h. stop, λ h. refl)

-- A text with a first byte, cut in two: the first part is empty, or has the first byte.
cons_append :
    (c : ℕ) (s x y : Bytes)
    → c ∷ s ≡ x ++ y
    → ((x ≡ []) × (y ≡ c ∷ s)) ⊎ ((z : Bytes) × (x ≡ c ∷ z) × (s ≡ z ++ y))
cons_append c s [] y e = inl (refl, sym e)
cons_append c s (d ∷ x) y e = inr (x, cc, cc)

-- The first piece that is not empty.
repetition_head :
    {P : Bytes → Type 0} (t : Bytes)
    → Star P t
    → (c : ℕ) (s : Bytes) → t ≡ c ∷ s
    → (x y : Bytes) × (s ≡ x ++ y) × P (c ∷ x) × Star P y
repetition_head _ stop c s e = cc
repetition_head _ (more t x y e px rest) c s f = elim (cons_append c s x y (sym f ∙ e)) [
  | inl (ex, ey) ↦ repetition_head y rest c s ey
  | inr (z, ex, es) ↦ (z, y, es, rw ex at px, rest)
]

pub derivative_iff : (r : Regex) (c : ℕ) (s : Bytes) → In (derivative c r) s ↔ In r (c ∷ s)
unfolding derivative
derivative_iff fail c s = (λ h. h, λ h. h)
derivative_iff empty c s = (λ h. absurd h, λ h. cc)
derivative_iff (one_of p) c s = elim (Bool-cases (p c)) [
  | inl e ↦ rw e (λ h. (c, ap (λ l. c ∷ l) h, e), λ (d, f, h). cc)
  | inr e ↦ rw e (λ h. absurd h, λ (d, f, h). differ d f h e)
]
  where
    differ : (d : ℕ) → c ∷ s ≡ d ∷ [] → p d ≡ true → p c ≡ false → ⊥
    differ d f h e = cc
derivative_iff (alt r t) c s = (
  λ h. elim h [
    | inl a ↦ inl ((derivative_iff r c s).0 a)
    | inr b ↦ inr ((derivative_iff t c s).0 b)
  ],
  λ h. elim h [
    | inl a ↦ inl ((derivative_iff r c s).1 a)
    | inr b ↦ inr ((derivative_iff t c s).1 b)
  ],
)
derivative_iff (star r) c s = (
  λ (x, y, e, a, b). more (c ∷ s) (c ∷ x) y (ap (λ l. c ∷ l) e) ((derivative_iff r c x).0 a) b,
  λ h.
      let (x, y, e, a, b) = repetition_head (c ∷ s) h c s refl in
      (x, y, e, (derivative_iff r c x).1 a, b),
)
derivative_iff (seq r t) c s = elim (Bool-cases (nullable r)) [
  | inl e ↦ rw e (
    λ h. elim h [
      | inl (x, y, f, a, b) ↦ (c ∷ x, y, ap (λ l. c ∷ l) f, (derivative_iff r c x).0 a, b)
      | inr b ↦ ([], c ∷ s, refl, (nullable_iff r).0 e, (derivative_iff t c s).0 b)
    ],
    λ (x, y, f, a, b). elim (cons_append c s x y f) [
      | inl (ex, ey) ↦ inr ((derivative_iff t c s).1 (rw ey at b))
      | inr (z, ex, es) ↦ inl (z, y, es, (derivative_iff r c z).1 (rw ex at a), b)
    ],
  )
  | inr e ↦ rw e (
    λ (x, y, f, a, b). (c ∷ x, y, ap (λ l. c ∷ l) f, (derivative_iff r c x).0 a, b),
    λ (x, y, f, a, b). elim (cons_append c s x y f) [
      | inl (ex, ey) ↦ absurd (never e ((nullable_iff r).1 (rw ex at a)))
      | inr (z, ex, es) ↦ (z, y, es, (derivative_iff r c z).1 (rw ex at a), b)
    ],
  )
]
  where
    never : nullable r ≡ false → nullable r ≡ true → ⊥
    never e h = cc

-- The matcher accepts just the texts that the expression stands for.
pub matches_iff : (r : Regex) (s : Bytes) → (matches r s ≡ true) ↔ In r s
unfolding matches
matches_iff r [] = nullable_iff r
matches_iff r (c ∷ s) =
    let (sound, complete) = matches_iff (derivative c r) s in
    let (back, forth) = derivative_iff r c s in (λ h. back (sound h), λ h. complete (forth h))
