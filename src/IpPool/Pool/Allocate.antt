-- ===== src/IpPool/Pool/Allocate.antt =====
-- The segments under `Allocate`.
use free5gc_workspace.Prelude.{ℕ, ◌+◌, ◌≡◌, [], none, some, arith, All}
use free5gc_workspace.IpPool.Pool.{LazyReusePool, allocate}
use free5gc_workspace.IpPool.Pool.Multiplicity.{mult, unit_at, Fits, count_free}

-- Only a pool with no segment allocates nothing, and it stays as it is.
pub allocate-none :
    (p : LazyReusePool) → (allocate p).1 ≡ none → ((allocate p).0 ≡ p) × (p.head ≡ [])
unfolding allocate
allocate-none p h = ground arith

-- A pool with a segment hands out a number, which is the only one to leave the free ones.
pub mult-allocate :
    (p : LazyReusePool) (r v a b : ℕ)
    → All (Fits a b) p.head
    → (allocate p).1 ≡ some r
    → mult p.head v ≡ mult (allocate p).0.head v + unit_at r v
unfolding allocate
mult-allocate p r v a b f h = ground arith

pub allocate-Fits :
    (p : LazyReusePool) (a b : ℕ) → All (Fits a b) p.head → All (Fits a b) (allocate p).0.head
unfolding allocate
allocate-Fits p a b f = ground arith

pub count_free-allocate :
    (p : LazyReusePool) (r a b : ℕ)
    → All (Fits a b) p.head
    → (allocate p).1 ≡ some r
    → count_free p.head ≡ count_free (allocate p).0.head + 1
unfolding allocate
count_free-allocate p r a b f h = ground arith
