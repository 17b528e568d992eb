-- ===== src/IdGenerator/Tests.antt =====
-- lib/util/idgenerator on concrete generators.
use free5gc_workspace.Prelude.{◌≡◌, ◌-◌, ◌^◌, refl, true, false, [], ◌∷◌, arith}
use free5gc_workspace.Prelude.Int.{ℤ, pos, negsuc, ◌≤ℤ◌, ◌+ℤ◌, ◌-ℤ◌, FitsInt64}
use free5gc_workspace.Prelude.Outcome.{returns, panics}
use free5gc_workspace.IdGenerator.{
  IdGenerator, new_generator, is_used, allocate, free_id, search_offset,
}
use free5gc_workspace.IdGenerator.Loop.{LoopEnds, search_offset_cases}
use free5gc_workspace.IdGenerator.Laws.{
  IsValid, offset_of, new_generator-IsValid, allocate_id, allocate-free_id,
}

-- The ids -1, 0 and 1.
abbrev around_zero : IdGenerator
around_zero = record {
  min_value = negsuc 0;
  max_value = pos 1;
  value_range = pos 3;
  offset = 0;
  used_map = [];
}

around_zero_new : new_generator (negsuc 0) (pos 1) ≡ around_zero
unfolding new_generator ◌+ℤ◌ ◌-ℤ◌
around_zero_new = refl

three : FitsInt64 (pos 1 -ℤ negsuc 0 +ℤ pos 1)
unfolding ◌+ℤ◌ ◌-ℤ◌
three = (omega arith, omega arith)

-- With the ends the wrong way round, the id that is given is above the maximum.
reversed_ends :
    allocate (new_generator (pos 5) (pos 3))
    ≡ returns (record (new_generator (pos 5) (pos 3)) { used_map = 0 ∷ [] }, pos 5)
unfolding new_generator allocate ◌+ℤ◌ ◌-ℤ◌
reversed_ends = refl

-- The length of the whole range of an `int64` wraps to 0, and `Allocate` then panics.
whole_range_panics : allocate (new_generator (negsuc (2 ^ 63 - 1)) (pos (2 ^ 63 - 1))) ≡ panics
unfolding new_generator allocate ◌+ℤ◌ ◌-ℤ◌
whole_range_panics = refl

around_zero-IsValid : IsValid around_zero
around_zero-IsValid = rw around_zero_new at (
    new_generator-IsValid (negsuc 0) (pos 1) (omega arith, omega arith) (omega arith, omega arith)
      (omega arith) three)

abbrev one_used : IdGenerator
one_used = record around_zero { offset = 1; used_map = 0 ∷ [] }

first_id : allocate around_zero ≡ returns (one_used, negsuc 0)
unfolding allocate ◌+ℤ◌
first_id = refl

allocate_id_example :
    (negsuc 0 ≤ℤ negsuc 0)
    × (negsuc 0 ≤ℤ pos 1)
    × (is_used (offset_of around_zero (negsuc 0)) [] ≡ false)
    × (is_used (offset_of around_zero (negsuc 0)) (0 ∷ []) ≡ true)
    × IsValid one_used
allocate_id_example = allocate_id around_zero one_used (negsuc 0) around_zero-IsValid first_id

one_used-IsValid : IsValid one_used
one_used-IsValid = (allocate_id around_zero one_used (negsuc 0) around_zero-IsValid first_id).4

search_offset_cases_example : LoopEnds 3 one_used 1 (search_offset 4 1 one_used)
search_offset_cases_example = search_offset_cases one_used (omega arith)

allocate-free_id_example :
    (g' : IdGenerator) × (id' : ℤ) × (allocate (free_id one_used (negsuc 0)) ≡ returns (g', id'))
allocate-free_id_example =
    allocate-free_id one_used (negsuc 0) one_used-IsValid (omega arith) (omega arith)
