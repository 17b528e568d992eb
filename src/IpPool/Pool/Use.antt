-- ===== src/IpPool/Pool/Use.antt =====
-- The segments under `Use`.
use free5gc_workspace.Prelude.{
  ℕ, ◌+◌, ◌≡◌, refl, List, [], ◌∷◌, none, some, arith, All, Option-cases, inl, inr,
}
use free5gc_workspace.IpPool.Segment.{Segment}
use free5gc_workspace.IpPool.Pool.{use_segment, use_loop}
use free5gc_workspace.IpPool.Pool.Multiplicity.{mult, holds, unit_at, Fits, count_free}

-- Taking a value out of a segment that holds it.
mult-use_segment :
    (x v a b : ℕ) (s : Segment) (l : List Segment)
    → Fits a b s
    → holds s x ≡ 1
    → mult (s ∷ l) v ≡ mult (use_segment x s l) v + unit_at x v
unfolding use_segment
mult-use_segment x v a b s l f h = ground arith

use_segment-Fits :
    (x a b : ℕ) (s : Segment) (l : List Segment)
    → Fits a b s
    → holds s x ≡ 1
    → All (Fits a b) l
    → All (Fits a b) (use_segment x s l)
unfolding use_segment
use_segment-Fits x a b s l f h g = ground arith

count_free-use_segment :
    (x a b : ℕ) (s : Segment) (l : List Segment)
    → Fits a b s
    → holds s x ≡ 1
    → count_free (s ∷ l) ≡ count_free (use_segment x s l) + 1
unfolding use_segment
count_free-use_segment x a b s l f h = ground arith

-- The loop finds a value exactly when it is free.
pub use_loop-none : (x : ℕ) (l : List Segment) → mult l x ≡ 0 → use_loop x l ≡ none
unfolding use_loop
use_loop-none x [] h = refl
use_loop-none x (s ∷ l) h = ground (arith, use_loop-none x l)

pub mult-zero_of_none : (x : ℕ) (l : List Segment) → use_loop x l ≡ none → mult l x ≡ 0
unfolding use_loop
mult-zero_of_none x [] h = refl
mult-zero_of_none x (s ∷ l) h = ground (arith, mult-zero_of_none x l)

pub mult-use_loop :
    (x v a b : ℕ) (l m : List Segment)
    → All (Fits a b) l
    → use_loop x l ≡ some m
    → mult l v ≡ mult m v + unit_at x v
unfolding use_loop
mult-use_loop x v a b [] m f h = ground arith
mult-use_loop x v a b (s ∷ l) m f h = elim (Option-cases (use_loop x l)) [
  | inl e ↦ ground (arith, mult-use_segment x v a b s l f.0)
  | inr (m', e) ↦ ground (arith, mult-use_loop x v a b l m' f.1 e, mult-use_segment x v a b s l f.0)
]

pub use_loop-Fits :
    (x a b : ℕ) (l m : List Segment) → All (Fits a b) l → use_loop x l ≡ some m → All (Fits a b) m
unfolding use_loop
use_loop-Fits x a b [] m f h = ground arith
use_loop-Fits x a b (s ∷ l) m f h = elim (Option-cases (use_loop x l)) [
  | inl e ↦ ground (arith, use_segment-Fits x a b s l f.0)
  | inr (m', e) ↦ ground (arith, use_loop-Fits x a b l m' f.1 e, use_segment-Fits x a b s l f.0)
]

pub count_free-use_loop :
    (x a b : ℕ) (l m : List Segment)
    → All (Fits a b) l
    → use_loop x l ≡ some m
    → count_free l ≡ count_free m + 1
unfolding use_loop
count_free-use_loop x a b [] m f h = ground arith
count_free-use_loop x a b (s ∷ l) m f h = elim (Option-cases (use_loop x l)) [
  | inl e ↦ ground (arith, count_free-use_segment x a b s l f.0)
  | inr (m', e) ↦
      ground (arith, count_free-use_loop x a b l m' f.1 e, count_free-use_segment x a b s l f.0)
]
