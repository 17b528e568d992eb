-- ===== src/IpPool/Segment.antt =====
-- The segments of lib/util/ippool/lazyReusePool.go. The linked list is a `List Segment`: no two
-- `next` pointers of the program ever name one segment. An `int` is a natural number: the pool is
-- made from two `uint32`, and every number that it computes stays between 0 and `last + 1`.
-- `x < s.first - 1` is written `x + 1 < s.first`, since `-` stops at 0.
use free5gc_workspace.Prelude.{
  ℕ, ◌+◌, ◌-◌, Bool, true, false, ◌&&◌, ◌||◌, List, [], ◌∷◌, ltb, leb, ◌==◌, if◌then◌else◌,
}

pub record Segment : Type 0 where
  pub first : ℕ
  pub last : ℕ

pub data RelativePos : Type 0 where
  within_this_segment adjacent_to_the_front adjacent_to_the_back before after : RelativePos

unfoldable pub new_single_segment : ℕ → Segment
new_single_segment num = record { first = num; last = num }

unfoldable pub relative_posision_of : Segment → ℕ → RelativePos
relative_posision_of s value =
    if ltb (value + 1) s.first
    then before
    else if value + 1 == s.first
    then adjacent_to_the_front
    else if leb s.first value && leb value s.last
    then within_this_segment
    else if value == s.last + 1
    then adjacent_to_the_back
    else after

-- `s.split(use)`, with the list behind `s`: the answer, and the list from `s` on.
unfoldable pub split : Segment → ℕ → List Segment → Bool × List Segment
split s use_value next =
    if ltb use_value s.first || ltb s.last use_value
    then (false, s ∷ next)
    else if use_value == s.first
    then (true, record s { first = s.first + 1 } ∷ next)
    else if use_value == s.last
    then (true, record s { last = s.last - 1 } ∷ next)
    else (
      true,
      record s { last = use_value - 1 } ∷ (record { first = use_value + 1; last = s.last } ∷ next),
    )

-- `s.extendLast()`, with the list behind `s`: the list from `s` on.
unfoldable pub extend_last : Segment → List Segment → List Segment
extend_last s [] = record s { last = s.last + 1 } ∷ []
extend_last s (next ∷ rest) =
    if s.last + 1 + 1 == next.first
    then record s { last = next.last } ∷ rest
    else record s { last = s.last + 1 } ∷ (next ∷ rest)
