-- ===== src/IpPool/Pool/Reserve.antt =====
-- The segments under `Reserve`.
use free5gc_workspace.Prelude.{
  ℕ, ◌+◌, ◌-◌, ◌≤◌, ◌<◌, ◌&&◌, ◌≡◌, List, [], ◌∷◌, arith, All, leb, if◌then◌else◌,
}
use free5gc_workspace.IpPool.Segment.{Segment}
use free5gc_workspace.IpPool.Pool.{reserve_segment, reserve_loop}
use free5gc_workspace.IpPool.Pool.Multiplicity.{
  mult, holds, Fits, count_free, mult-append, count_free-append, All-append,
}

-- The round over a segment above the range changes nothing.
pub reserve_segment-above :
    (lo hi : ℕ) (s : Segment)
    → lo ≤ hi
    → hi < s.first
    → s.first ≤ s.last
    → reserve_segment lo hi s ≡ (s ∷ [], 0)
unfolding reserve_segment
reserve_segment-above lo hi s h g f = ground arith

mult-reserve_segment :
    (lo hi v a b : ℕ) (s : Segment)
    → lo ≤ hi
    → Fits a b s
    → mult (reserve_segment lo hi s).0 v ≡ (if leb lo v && leb v hi then 0 else holds s v)
unfolding reserve_segment
mult-reserve_segment lo hi v a b s h f = ground arith

reserve_segment-Fits :
    (lo hi a b : ℕ) (s : Segment)
    → lo ≤ hi
    → Fits a b s
    → All (Fits a b) (reserve_segment lo hi s).0
unfolding reserve_segment
reserve_segment-Fits lo hi a b s h f = ground arith

count_free-reserve_segment :
    (lo hi a b : ℕ) (s : Segment)
    → lo ≤ hi
    → Fits a b s
    → s.last - s.first + 1 ≡ count_free (reserve_segment lo hi s).0 + (reserve_segment lo hi s).1
unfolding reserve_segment
count_free-reserve_segment lo hi a b s h f = ground arith

pub mult-reserve_loop :
    (lo hi v a b : ℕ) (l : List Segment)
    → lo ≤ hi
    → All (Fits a b) l
    → mult (reserve_loop lo hi l).0 v ≡ (if leb lo v && leb v hi then 0 else mult l v)
unfolding reserve_loop
mult-reserve_loop lo hi v a b [] h f = ground arith
mult-reserve_loop lo hi v a b (s ∷ l) h f = ground (
  arith,
  mult-append (reserve_segment lo hi s).0 (reserve_loop lo hi l).0 v,
  mult-reserve_segment lo hi v a b s h f.0,
  mult-reserve_loop lo hi v a b l h f.1,
)

pub reserve_loop-Fits :
    (lo hi a b : ℕ) (l : List Segment)
    → lo ≤ hi
    → All (Fits a b) l
    → All (Fits a b) (reserve_loop lo hi l).0
unfolding reserve_loop
reserve_loop-Fits lo hi a b [] h f = tt
reserve_loop-Fits lo hi a b (s ∷ l) h f =
    All-append (Fits a b) (reserve_segment lo hi s).0 (reserve_loop lo hi l).0
      (reserve_segment-Fits lo hi a b s h f.0) (reserve_loop-Fits lo hi a b l h f.1)

pub count_free-reserve_loop :
    (lo hi a b : ℕ) (l : List Segment)
    → lo ≤ hi
    → All (Fits a b) l
    → count_free l ≡ count_free (reserve_loop lo hi l).0 + (reserve_loop lo hi l).1
unfolding reserve_loop
count_free-reserve_loop lo hi a b [] h f = omega arith
count_free-reserve_loop lo hi a b (s ∷ l) h f = omega (
  arith,
  count_free-append (reserve_segment lo hi s).0 (reserve_loop lo hi l).0,
  count_free-reserve_segment lo hi a b s h f.0,
  count_free-reserve_loop lo hi a b l h f.1,
)
