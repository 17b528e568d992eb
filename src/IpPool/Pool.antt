-- ===== src/IpPool/Pool.antt =====
-- lib/util/ippool/lazyReusePool.go: the pool and its methods. The mutex makes each method one step.
-- `head`, a pointer to the first segment or nil, is the list of the segments from it on.
pub mod Multiplicity
pub mod Allocate
pub mod Order
pub mod History
pub mod Spec
pub mod Invariant
pub mod Free
pub mod Reserve
pub mod Use
use mathlib.Core.Option
use free5gc_workspace.Prelude.{
  ℕ, ◌+◌, ◌-◌, Bool, true, false, ◌&&◌, ◌||◌, List, [], ◌∷◌, ◌++◌, Option, none, some, map, ltb,
  leb, ◌==◌, if◌then◌else◌,
}
use free5gc_workspace.IpPool.Segment.{
  Segment, within_this_segment, adjacent_to_the_front, adjacent_to_the_back, before, after,
  RelativePos, new_single_segment, relative_posision_of, split, extend_last,
}

pub record LazyReusePool : Type 0 where
  pub head : List Segment
  pub first : ℕ
  pub last : ℕ
  pub remain : ℕ

-- The two errors of the package, with the numbers that their texts print.
pub data PoolError : Type 0 where
  bad_range : ℕ → ℕ → PoolError
  reserve_outside : ℕ → ℕ → PoolError

pub data Result {ℓ} (A : Type ℓ) : Type ℓ where
  ok : A → Result A
  err : PoolError → Result A

unfoldable pub new_lazy_reuse_pool : ℕ → ℕ → Result LazyReusePool
new_lazy_reuse_pool first last =
    if ltb last first
    then err (bad_range first last)
    else ok (record {
      head = record { first = first; last = last } ∷ [];
      first = first;
      last = last;
      remain = last - first + 1;
    })

allocate_head : LazyReusePool → List Segment → LazyReusePool × Option ℕ
allocate_head p [] = (p, none)
allocate_head p (s ∷ next) = (
  record p {
    head = if ltb s.last (s.first + 1) then next else record s { first = s.first + 1 } ∷ next;
    remain = p.remain - 1;
  },
  some s.first,
)

-- The result `(res, ok)` is an `Option`.
unfoldable pub allocate : LazyReusePool → LazyReusePool × Option ℕ
unfolding allocate_head
allocate p = allocate_head p p.head

-- What the body of the loop in `Use` makes of a segment that holds the value.
unfoldable pub use_segment : ℕ → Segment → List Segment → List Segment
unfolding split
use_segment value cur next = if cur.first == cur.last then next else (split cur value next).1

-- The loop of `Use`: `none` when it runs off the list.
unfoldable pub use_loop : ℕ → List Segment → Option (List Segment)
unfolding relative_posision_of use_segment
use_loop value [] = none
use_loop value (cur ∷ next) =
    let rest = Option.map (λ l. cur ∷ l) (use_loop value next) in
    elim (relative_posision_of cur value) [
      | within_this_segment ↦ some (use_segment value cur next)
      | _ ↦ rest
    ]

use_result : LazyReusePool → Option (List Segment) → LazyReusePool × Bool
use_result p none = (p, false)
use_result p (some segments) = (record p { head = segments; remain = p.remain - 1 }, true)

unfoldable pub use_value : LazyReusePool → ℕ → LazyReusePool × Bool
unfolding use_loop use_result
use_value p value = use_result p (use_loop value p.head)

free_at : RelativePos → ℕ → Segment → List Segment → Option (List Segment) → Option (List Segment)
unfolding new_single_segment extend_last
free_at before value cur next rest = some (new_single_segment value ∷ (cur ∷ next))
free_at adjacent_to_the_front value cur next rest = some (record cur { first = value } ∷ next)
free_at within_this_segment value cur next rest = none
free_at adjacent_to_the_back value cur next rest = some (extend_last cur next)
free_at after value cur next rest = rest

-- The loop of `Free` from `cur` on: `none` where it finds the value free already.
unfoldable pub free_loop : ℕ → Segment → List Segment → Option (List Segment)
unfolding free_at relative_posision_of
free_loop value cur [] =
    free_at (relative_posision_of cur value) value cur []
      (some (cur ∷ (new_single_segment value ∷ [])))
free_loop value cur (n ∷ next) =
    free_at (relative_posision_of cur value) value cur (n ∷ next)
      (Option.map (λ l. cur ∷ l) (free_loop value n next))

-- The switch of `Free` on the position in the head segment, and what follows it.
free_head : RelativePos → ℕ → Segment → List Segment → Option (List Segment)
unfolding extend_last free_loop
free_head within_this_segment value h next = none
free_head adjacent_to_the_back value h next = some (extend_last h next)
free_head pos value h [] = some (h ∷ (new_single_segment value ∷ []))
free_head pos value h (cur ∷ next) = Option.map (λ l. h ∷ l) (free_loop value cur next)

-- The segments after `Free`; `none` for a value that is free already.
unfoldable pub free_segments : ℕ → List Segment → Option (List Segment)
unfolding free_head relative_posision_of new_single_segment
free_segments value [] = some (new_single_segment value ∷ [])
free_segments value (h ∷ next) = free_head (relative_posision_of h value) value h next

free_result : LazyReusePool → Option (List Segment) → LazyReusePool × Bool
free_result p none = (p, false)
free_result p (some segments) = (record p { head = segments; remain = p.remain + 1 }, true)

unfoldable pub free : LazyReusePool → ℕ → LazyReusePool × Bool
unfolding free_segments free_result
free p value =
    if ltb value p.first || ltb p.last value
    then (p, false)
    else free_result p (free_segments value p.head)

unfoldable pub contains : LazyReusePool → ℕ → ℕ → Bool
contains p first last = leb first last && (leb p.first first && leb last p.last)

-- One round of the loop in `Reserve` over the range `lo` to `hi`: the segments that stand in place
-- of `cur`, and what the round takes from `remain`. In the third case the loop comes to the new
-- segment next, which starts at `hi + 1` and is left as it is (`reserve_segment-above`).
unfoldable pub reserve_segment : ℕ → ℕ → Segment → List Segment × ℕ
reserve_segment lo hi cur =
    if leb lo cur.first && leb cur.first hi && ltb hi cur.last
    then (record cur { first = hi + 1 } ∷ [], hi - cur.first + 1)
    else if ltb cur.first lo && leb lo cur.last && leb cur.last hi
    then (record cur { last = lo - 1 } ∷ [], cur.last - lo + 1)
    else if ltb cur.first lo && ltb hi cur.last
    then (
      record cur { last = lo - 1 } ∷ (record { first = hi + 1; last = cur.last } ∷ []),
      hi - lo + 1,
    )
    else if leb lo cur.first && leb cur.last hi
    then ([], cur.last - cur.first + 1)
    else (cur ∷ [], 0)

unfoldable pub reserve_loop : ℕ → ℕ → List Segment → List Segment × ℕ
unfolding reserve_segment
reserve_loop lo hi [] = ([], 0)
reserve_loop lo hi (cur ∷ next) =
    let (kept, taken) = reserve_segment lo hi cur in
    let (rest, more) = reserve_loop lo hi next in (kept ++ rest, taken + more)

-- The `error` result is an `Option`.
unfoldable pub reserve : LazyReusePool → ℕ → ℕ → LazyReusePool × Option PoolError
unfolding contains reserve_loop
reserve p lo hi =
    let (segments, taken) = reserve_loop lo hi p.head in
    if contains p lo hi
    then (record p { head = segments; remain = p.remain - taken }, none)
    else (p, some (reserve_outside p.first p.last))

unfoldable pub total : LazyReusePool → ℕ
total p = p.last - p.first + 1

unfoldable pub is_joint : LazyReusePool → LazyReusePool → Bool
is_joint p1 p2 = if ltb p2.last p1.first || ltb p1.last p2.first then false else true

unfoldable pub dump : LazyReusePool → List (List ℕ)
dump p = map (λ s. s.first ∷ (s.last ∷ [])) p.head
