-- ===== src/IpPool/Pool/Invariant.antt =====
-- What holds of a pool between two calls, and that every method keeps it.
use free5gc_workspace.Prelude.{
  ℕ, ◌+◌, ◌<◌, ◌≤◌, ◌≡◌, ◌⊎◌, ◌&&◌, Bool, true, false, refl, List, Option, none, some, inl, inr,
  arith, All, Option-cases, Bool-cases, leb, if◌then◌else◌,
}
use free5gc_workspace.IpPool.Segment.{Segment}
use free5gc_workspace.IpPool.Pool.{
  LazyReusePool, ok, new_lazy_reuse_pool, allocate, use_loop, use_value, free_segments, free_result,
  free, reserve, contains,
}
use free5gc_workspace.IpPool.Pool.Multiplicity.{mult, unit_at, Fits, count_free}
use free5gc_workspace.IpPool.Pool.Allocate.{allocate-Fits}
use free5gc_workspace.IpPool.Pool.Use.{
  mult-zero_of_none, mult-use_loop, use_loop-Fits, count_free-use_loop,
}
use free5gc_workspace.IpPool.Pool.Free.{Frees, free_segments-Frees}
use free5gc_workspace.IpPool.Pool.Reserve.{
  mult-reserve_loop, reserve_loop-Fits, count_free-reserve_loop,
}

-- The free segments are not empty, lie in the range of the pool and have no number in common, and
-- `remain` counts them.
pub record Inv (p : LazyReusePool) : Type 0 where
  pub fits : All (Fits p.first p.last) p.head
  pub disjoint : (v : ℕ) → mult p.head v ≤ 1
  pub counted : p.remain ≡ count_free p.head

pub new_lazy_reuse_pool-Inv : (a b : ℕ) {p : LazyReusePool} → new_lazy_reuse_pool a b ≡ ok p → Inv p
unfolding new_lazy_reuse_pool
new_lazy_reuse_pool-Inv a b h = record {
  fits = ground arith;
  disjoint = λ v. ground arith;
  counted = ground arith;
}

-- The ends of the pool `q` are those of `p`.
abbrev pub SameEnds : LazyReusePool → LazyReusePool → Type 0
SameEnds p q = (q.first ≡ p.first) × (q.last ≡ p.last)

pub allocate-SameEnds : (p : LazyReusePool) → SameEnds p (allocate p).0
unfolding allocate
allocate-SameEnds p = ground arith

pub use_value-SameEnds : (p : LazyReusePool) (x : ℕ) → SameEnds p (use_value p x).0
unfolding use_value
use_value-SameEnds p x = ground arith

pub free-SameEnds : (p : LazyReusePool) (x : ℕ) → SameEnds p (free p x).0
unfolding free
free-SameEnds p x = ground arith

pub reserve-SameEnds : (p : LazyReusePool) (lo hi : ℕ) → SameEnds p (reserve p lo hi).0
unfolding reserve
reserve-SameEnds p lo hi = ground arith

pub allocate-Inv : (p : LazyReusePool) → Inv p → Inv (allocate p).0
unfolding allocate
allocate-Inv p i = record {
  fits = ground (arith, allocate-Fits p p.first p.last i.fits);
  disjoint = λ v. ground (arith, i.disjoint v);
  counted = ground arith;
}

-- `Use` on every branch: a value that is free leaves the free ones, any other changes nothing.
pub use_value_cases :
    (p : LazyReusePool) (x : ℕ)
    → Inv p
    → ((use_value p x ≡ (p, false)) × (mult p.head x ≡ 0))
      ⊎ (((use_value p x).1 ≡ true)
          × (mult p.head x ≡ 1)
          × ((v : ℕ) → mult p.head v ≡ mult (use_value p x).0.head v + unit_at x v)
          × (p.remain ≡ (use_value p x).0.remain + 1)
          × Inv (use_value p x).0)
unfolding use_value
use_value_cases p x i = elim (Option-cases (use_loop x p.head)) [
  | inl e ↦ inl (ground arith, mult-zero_of_none x p.head e)
  | inr (m, e) ↦
      let moved = λ (v : ℕ). mult-use_loop x v p.first p.last p.head m i.fits e in
      let fewer = count_free-use_loop x p.first p.last p.head m i.fits e in
      rw (e, use_value)
        (inr (
          refl,
          ground (arith, moved x, i.disjoint x),
          moved,
          omega (arith, i.counted, fewer),
          record {
            fits = use_loop-Fits x p.first p.last p.head m i.fits e;
            disjoint = λ v. omega (arith, moved v, i.disjoint v);
            counted = omega (arith, i.counted, fewer);
          },
        ))
]

-- The two ways in which `Free` can end.
abbrev pub FreeEnds : LazyReusePool → ℕ → LazyReusePool × Bool → Type 0
FreeEnds p x r =
    ((r ≡ (p, false)) × ((x < p.first) ⊎ ((p.last < x) ⊎ (1 ≤ mult p.head x))))
    ⊎ ((r.1 ≡ true)
        × (p.first ≤ x)
        × (x ≤ p.last)
        × ((v : ℕ) → mult r.0.head v ≡ mult p.head v + unit_at x v)
        × (r.0.remain ≡ p.remain + 1)
        × (mult p.head x ≡ 0 → Inv r.0))

free_result-FreeEnds :
    (p : LazyReusePool) (x : ℕ) (o : Option (List Segment))
    → Inv p
    → p.first ≤ x
    → x ≤ p.last
    → Frees x p.first p.last p.head o
    → FreeEnds p x (free_result p o)
unfolding free_result
free_result-FreeEnds p x none i lo hi f = inl (refl, inr (inr f))
free_result-FreeEnds p x (some m) i lo hi f = inr (
  refl,
  lo,
  hi,
  f.0,
  refl,
  λ z. record {
    fits = f.1;
    disjoint = λ v. ground (arith, f.0 v, i.disjoint v);
    counted = omega (arith, i.counted, f.2);
  },
)

-- `Free` refuses a value out of range, and some that are free; any other joins the free ones.
pub free-FreeEnds : (p : LazyReusePool) (x : ℕ) → Inv p → FreeEnds p x (free p x)
unfolding free
free-FreeEnds p x i = ground (
  arith,
  λ (lo : p.first ≤ x) (hi : x ≤ p.last).
      free_result-FreeEnds p x (free_segments x p.head) i lo hi
        (free_segments-Frees x p.first p.last lo hi p.head i.fits),
)

pub contains-true :
    (p : LazyReusePool) (lo hi : ℕ)
    → contains p lo hi ≡ true
    → (lo ≤ hi) × (p.first ≤ lo) × (hi ≤ p.last)
unfolding contains
contains-true p lo hi h = ground arith

pub contains-false :
    (p : LazyReusePool) (lo hi : ℕ)
    → contains p lo hi ≡ false
    → ¬ ((lo ≤ hi) × (p.first ≤ lo) × (hi ≤ p.last))
unfolding contains
contains-false p lo hi h (a, b, c) = ground arith

pub reserve-Inv : (p : LazyReusePool) (lo hi : ℕ) → Inv p → Inv (reserve p lo hi).0
unfolding reserve
reserve-Inv p lo hi i = elim (Bool-cases (contains p lo hi)) [
  | inl e ↦
      let le = (contains-true p lo hi e).0 in
      rw (e, reserve)
        (record {
          fits = reserve_loop-Fits lo hi p.first p.last p.head le i.fits;
          disjoint = λ v.
              ground
                (arith, mult-reserve_loop lo hi v p.first p.last p.head le i.fits, i.disjoint v);
          counted =
              omega
                (arith, i.counted, count_free-reserve_loop lo hi p.first p.last p.head le i.fits);
        })
  | inr e ↦ rw (e, reserve) i
]

-- A range inside the pool is taken out of the free numbers.
pub reserve_inside :
    (p : LazyReusePool) (lo hi : ℕ)
    → Inv p
    → lo ≤ hi
    → p.first ≤ lo
    → hi ≤ p.last
    → ((reserve p lo hi).1 ≡ none)
      × ((v : ℕ)
          → mult (reserve p lo hi).0.head v ≡ (if leb lo v && leb v hi then 0 else mult p.head v))
unfolding reserve contains
reserve_inside p lo hi i a b c =
    (ground arith, λ v. ground (arith, mult-reserve_loop lo hi v p.first p.last p.head a i.fits))
