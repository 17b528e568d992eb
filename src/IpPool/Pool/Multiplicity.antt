-- ===== src/IpPool/Pool/Multiplicity.antt =====
-- How often a number stands in the free segments: the view in which the methods are specified.
use free5gc_workspace.Prelude.{
  All, ℕ, ◌+◌, ◌-◌, ◌≤◌, ◌≡◌, ◌&&◌, List, [], ◌∷◌, ◌++◌, arith, leb, ◌==◌, if◌then◌else◌,
}
use free5gc_workspace.IpPool.Segment.{Segment}

-- 1 for a number in the segment, 0 for another.
abbrev pub holds : Segment → ℕ → ℕ
holds s v = if leb s.first v && leb v s.last then 1 else 0

abbrev pub mult : List Segment → ℕ → ℕ
mult [] v = 0
mult (s ∷ l) v = holds s v + mult l v

-- 1 at the number itself.
abbrev pub unit_at : ℕ → ℕ → ℕ
unit_at x v = if v == x then 1 else 0

-- A segment is not empty, and lies between two bounds.
abbrev pub Fits : ℕ → ℕ → Segment → Type 0
Fits a b s = (a ≤ s.first) × (s.first ≤ s.last) × (s.last ≤ b)

abbrev pub count_free : List Segment → ℕ
count_free [] = 0
count_free (s ∷ l) = (s.last - s.first + 1) + count_free l

pub mult-append : (l m : List Segment) (v : ℕ) → mult (l ++ m) v ≡ mult l v + mult m v
mult-append [] m v = omega arith
mult-append (s ∷ l) m v = omega (arith, mult-append l m v)

pub count_free-append : (l m : List Segment) → count_free (l ++ m) ≡ count_free l + count_free m
count_free-append [] m = omega arith
count_free-append (s ∷ l) m = omega (arith, count_free-append l m)

pub All-append {ℓ κ} :
    {A : Type ℓ} (P : A → Type κ) (l m : List A) → All P l → All P m → All P (l ++ m)
All-append P [] m f g = g
All-append P (s ∷ l) m f g = (f.0, All-append P l m f.1 g)

-- A number in the segments lies between their bounds.
pub mult_range :
    (a b x : ℕ) (l : List Segment) → All (Fits a b) l → 1 ≤ mult l x → (a ≤ x) × (x ≤ b)
mult_range a b x [] f h = absurd (omega arith)
mult_range a b x (s ∷ l) f h = ground (arith, mult_range a b x l f.1)
