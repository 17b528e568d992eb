-- ===== src/IpPool/Pool/Free.antt =====
-- The segments under `Free`.
use mathlib.Core.Option
use free5gc_workspace.Prelude.{ℕ, ◌+◌, ◌≤◌, ◌≡◌, List, [], ◌∷◌, Option, none, some, arith, All}
use free5gc_workspace.IpPool.Segment.{
  Segment, relative_posision_of, extend_last, new_single_segment,
}
use free5gc_workspace.IpPool.Pool.{free_at, free_loop, free_segments}
use free5gc_workspace.IpPool.Pool.Multiplicity.{mult, unit_at, Fits, count_free}

-- What a list of segments with one value more satisfies.
abbrev pub Gains : ℕ → ℕ → ℕ → List Segment → List Segment → Type 0
Gains x a b l m =
    ((v : ℕ) → mult m v ≡ mult l v + unit_at x v)
    × All (Fits a b) m
    × (count_free m ≡ count_free l + 1)

-- A step of `Free` either refuses a value that is free, or adds it.
abbrev pub Frees : ℕ → ℕ → ℕ → List Segment → Option (List Segment) → Type 0
Frees x a b l none = 1 ≤ mult l x
Frees x a b l (some m) = Gains x a b l m

module _ (x a b : ℕ) (lo : a ≤ x) (hi : x ≤ b) where
  extend_last-Gains :
      (s : Segment) (l : List Segment)
      → All (Fits a b) (s ∷ l)
      → x ≡ s.last + 1
      → Gains x a b (s ∷ l) (extend_last s l)
  unfolding extend_last
  extend_last-Gains s [] f e = (λ v. ground arith, ground arith, ground arith)
  extend_last-Gains s (n ∷ l) f e = (λ v. ground arith, ground arith, ground arith)

  single-Gains : (l : List Segment) → All (Fits a b) l → Gains x a b l (new_single_segment x ∷ l)
  unfolding new_single_segment
  single-Gains l f = (λ v. ground arith, ground arith, ground arith)

  single_after-Gains :
      (s : Segment) (l : List Segment)
      → All (Fits a b) (s ∷ l)
      → Gains x a b (s ∷ l) (s ∷ (new_single_segment x ∷ l))
  unfolding new_single_segment
  single_after-Gains s l f = (λ v. ground arith, ground arith, ground arith)

  extend_first-Gains :
      (s : Segment) (l : List Segment)
      → All (Fits a b) (s ∷ l)
      → x + 1 ≡ s.first
      → Gains x a b (s ∷ l) (record s { first = x } ∷ l)
  extend_first-Gains s l f e = (λ v. ground arith, ground arith, ground arith)

  cons-Gains :
      (s : Segment) (l m : List Segment)
      → Fits a b s
      → Gains x a b l m
      → Gains x a b (s ∷ l) (s ∷ m)
  cons-Gains s l m f g = (λ v. omega (arith, g.0 v), (f, g.1), omega arith)

  free_at-Frees :
      (s : Segment) (l : List Segment) (rest : Option (List Segment))
      → All (Fits a b) (s ∷ l)
      → Frees x a b (s ∷ l) rest
      → Frees x a b (s ∷ l) (free_at (relative_posision_of s x) x s l rest)
  unfolding free_at relative_posision_of
  free_at-Frees s l rest f r =
      ground (arith, extend_last-Gains s l f, single-Gains (s ∷ l) f, extend_first-Gains s l f)

  cons-Frees :
      (s : Segment) (l : List Segment) (r : Option (List Segment))
      → Fits a b s
      → Frees x a b l r
      → Frees x a b (s ∷ l) (Option.map (λ m. s ∷ m) r)
  cons-Frees s l none f g = omega arith
  cons-Frees s l (some m) f g = cons-Gains s l m f g

  free_loop-Frees :
      (cur : Segment) (next : List Segment)
      → All (Fits a b) (cur ∷ next)
      → Frees x a b (cur ∷ next) (free_loop x cur next)
  unfolding free_loop
  free_loop-Frees cur [] f = free_at-Frees cur [] _ f (single_after-Gains cur [] f)
  free_loop-Frees cur (n ∷ next) f =
      free_at-Frees cur (n ∷ next) _ f
        (cons-Frees cur (n ∷ next) (free_loop x n next) f.0 (free_loop-Frees n next f.1))

  pub free_segments-Frees :
      (l : List Segment) → All (Fits a b) l → Frees x a b l (free_segments x l)
  unfolding free_segments
  free_segments-Frees [] f = single-Gains [] f
  free_segments-Frees (h ∷ []) f =
      ground (arith, extend_last-Gains h [] f, single_after-Gains h [] f)
  free_segments-Frees (h ∷ cur ∷ next) f = ground (
    arith,
    extend_last-Gains h (cur ∷ next) f,
    cons-Frees h (cur ∷ next) (free_loop x cur next) f.0 (free_loop-Frees cur next f.1),
  )
