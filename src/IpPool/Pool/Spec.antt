-- ===== src/IpPool/Pool/Spec.antt =====
-- What a pool promises, over the set of its free numbers alone, and that the segments keep it.
use free5gc_workspace.Prelude.{
  ℕ, ◌<◌, ◌≤◌, ◌≡◌, ◌⊎◌, ◌&&◌, ◌==◌, Bool, true, false, refl, Option, none, some, inl, inr, arith,
  Option-cases, Bool-cases, leb, ltb, if◌then◌else◌,
}
use free5gc_workspace.IpPool.Pool.{
  LazyReusePool, PoolError, reserve_outside, allocate, use_value, free, reserve, contains,
}
use free5gc_workspace.IpPool.Pool.Multiplicity.{mult}
use free5gc_workspace.IpPool.Pool.Allocate.{allocate-none, mult-allocate}
use free5gc_workspace.IpPool.Pool.Reserve.{mult-reserve_loop}
use free5gc_workspace.IpPool.Pool.Invariant.{
  SameEnds, allocate-SameEnds, use_value-SameEnds, free-SameEnds, reserve-SameEnds, contains-false,
  Inv, allocate-Inv, use_value_cases, free-FreeEnds, contains-true, reserve-Inv,
}

pub data Call : Type 0 where
  allocates : Call
  uses frees : ℕ → Call
  reserves : ℕ → ℕ → Call

pub data Answer : Type 0 where
  number : Option ℕ → Answer
  success : Bool → Answer
  failure : Option PoolError → Answer

-- A call of a method of the pool, by name.
unfoldable pub step : LazyReusePool → Call → LazyReusePool × Answer
step p allocates = ((allocate p).0, number (allocate p).1)
step p (uses x) = ((use_value p x).0, success (use_value p x).1)
step p (frees x) = ((free p x).0, success (free p x).1)
step p (reserves lo hi) = ((reserve p lo hi).0, failure (reserve p lo hi).1)

-- The set of the free numbers.
abbrev pub free_set : LazyReusePool → ℕ → Bool
free_set p v = ltb 0 (mult p.head v)

abbrev pub Same : (ℕ → Bool) → (ℕ → Bool) → Type 0
Same s t = (v : ℕ) → t v ≡ s v

-- `t` is `s` but at the number `x`, where it is `b`.
abbrev pub Changed : ℕ → Bool → (ℕ → Bool) → (ℕ → Bool) → Type 0
Changed x b s t = (v : ℕ) → t v ≡ (if v == x then b else s v)

-- What a pool over the numbers from `a` to `b` may do, from the free numbers `s` to `t`.
pub data Spec (a b : ℕ) (s t : ℕ → Bool) : Call → Answer → Type 0 where
  hand_out : (r : ℕ) → s r ≡ true → Changed r false s t → Spec a b s t allocates (number (some r))
  exhausted : ((v : ℕ) → s v ≡ false) → Same s t → Spec a b s t allocates (number none)
  claim : (x : ℕ) → s x ≡ true → Changed x false s t → Spec a b s t (uses x) (success true)
  taken : (x : ℕ) → s x ≡ false → Same s t → Spec a b s t (uses x) (success false)
  give_back :
      (x : ℕ)
      → a ≤ x
      → x ≤ b
      → s x ≡ false
      → Changed x true s t
      → Spec a b s t (frees x) (success true)
  out_of_range : (x : ℕ) → (x < a) ⊎ (b < x) → Same s t → Spec a b s t (frees x) (success false)
  exclude :
      (lo hi : ℕ)
      → (lo ≤ hi) × (a ≤ lo) × (hi ≤ b)
      → ((v : ℕ) → t v ≡ (if leb lo v && leb v hi then false else s v))
      → Spec a b s t (reserves lo hi) (failure none)
  outside :
      (lo hi : ℕ)
      → ¬ ((lo ≤ hi) × (a ≤ lo) × (hi ≤ b))
      → Same s t
      → Spec a b s t (reserves lo hi) (failure (some (reserve_outside a b)))

-- A caller frees no number that is free.
abbrev pub IsLegal : LazyReusePool → Call → Type 0
IsLegal p (frees x) = free_set p x ≡ false
IsLegal p _ = Unit {0}

allocate-Spec :
    (p : LazyReusePool)
    → Inv p
    → Spec p.first p.last
        (free_set p)
        (free_set (step p allocates).0)
        allocates
        (step p allocates).1
unfolding step
allocate-Spec p i = elim (Option-cases (allocate p).1) [
  | inl e ↦
      let (same, nil) = allocate-none p e in rw (e, same) (exhausted (λ v. rw nil refl) (λ v. refl))
  | inr (r, e) ↦
      let moved = λ (v : ℕ). mult-allocate p r v p.first p.last i.fits e in
      rw e (hand_out r (ground (arith, moved r)) (λ v. ground (arith, moved v, i.disjoint v)))
]

use_value-Spec :
    (p : LazyReusePool) (x : ℕ)
    → Inv p
    → Spec p.first p.last (free_set p) (free_set (step p (uses x)).0) (uses x) (step p (uses x)).1
unfolding step
use_value-Spec p x i = elim (use_value_cases p x i) [
  | inl (e, z) ↦ rw e (taken x (ground arith) (λ v. refl))
  | inr (e, one, moved, _, _) ↦
      rw e (claim x (ground arith) (λ v. ground (arith, moved v, i.disjoint v)))
]

free-Spec :
    (p : LazyReusePool) (x : ℕ)
    → Inv p
    → free_set p x ≡ false
    → Spec p.first p.last
        (free_set p)
        (free_set (step p (frees x)).0)
        (frees x)
        (step p (frees x)).1
unfolding step
free-Spec p x i legal = elim (free-FreeEnds p x i) [
  | inl (e, why) ↦ rw e (out_of_range x (ground arith) (λ v. refl))
  | inr (e, lo, hi, moved, _, _) ↦
      rw e (give_back x lo hi legal (λ v. ground (arith, moved v, i.disjoint v)))
]

reserve-Spec :
    (p : LazyReusePool) (lo hi : ℕ)
    → Inv p
    → Spec p.first p.last
        (free_set p)
        (free_set (step p (reserves lo hi)).0)
        (reserves lo hi)
        (step p (reserves lo hi)).1
unfolding step reserve
reserve-Spec p lo hi i = elim (Bool-cases (contains p lo hi)) [
  | inl e ↦
      rw (e, reserve)
        (exclude lo hi (contains-true p lo hi e) (λ v. ground (
          arith,
          mult-reserve_loop lo hi v p.first p.last p.head (contains-true p lo hi e).0 i.fits,
        )))
  | inr e ↦
      rw (e, reserve) (outside lo hi (λ h. ground (arith, contains-false p lo hi e)) (λ v. refl))
]

-- In a pool in good order, a call of `Allocate`, `Use` or `Reserve`, or of `Free` for a number that
-- is not free, answers, and changes the set of the free numbers, as the specification `Spec` allows.
pub step-Spec :
    (p : LazyReusePool) (c : Call)
    → Inv p
    → IsLegal p c
    → Spec p.first p.last (free_set p) (free_set (step p c).0) c (step p c).1
step-Spec p allocates i legal = allocate-Spec p i
step-Spec p (uses x) i legal = use_value-Spec p x i
step-Spec p (frees x) i legal = free-Spec p x i legal
step-Spec p (reserves lo hi) i legal = reserve-Spec p lo hi i

-- Every call of `Allocate`, `Use` or `Reserve`, or of `Free` for a number that is not free, keeps a
-- pool in good order.
pub step-Inv : (p : LazyReusePool) (c : Call) → Inv p → IsLegal p c → Inv (step p c).0
unfolding step
step-Inv p allocates i legal = allocate-Inv p i
step-Inv p (uses x) i legal = elim (use_value_cases p x i) [
  | inl (e, _) ↦ rw e i
  | inr (_, _, _, _, j) ↦ j
]
step-Inv p (frees x) i legal = elim (free-FreeEnds p x i) [
  | inl (e, _) ↦ rw e i
  | inr (_, _, _, _, _, j) ↦ j (ground arith)
]
step-Inv p (reserves lo hi) i legal = reserve-Inv p lo hi i

-- No call moves the ends of the pool.
pub step-SameEnds : (p : LazyReusePool) (c : Call) → SameEnds p (step p c).0
unfolding step
step-SameEnds p allocates = allocate-SameEnds p
step-SameEnds p (uses x) = use_value-SameEnds p x
step-SameEnds p (frees x) = free-SameEnds p x
step-SameEnds p (reserves lo hi) = reserve-SameEnds p lo hi
