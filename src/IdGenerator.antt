-- ===== src/IdGenerator.antt =====
-- lib/util/idgenerator/idgenerator.go. The two ends and the range are integers of any sign; an
-- offset is never negative, since Go's `%` of a number that is not negative is none. The used map
-- is the list of its keys, which are offsets. The range, an id and the key of `FreeID` wrap as an
-- `int64` does; the offset does not, since it is less than the length of the range, and where one more
-- is 2^63 the remainder is 0 with and without the wrap. The lock makes each method one step.
pub mod Loop
pub mod Laws
mod Tests
use free5gc_workspace.Prelude.{
  ℕ, zero, suc, ◌+◌, ◌%◌, Bool, true, false, not, ◌||◌, List, [], ◌∷◌, ◌==◌, if◌then◌else◌,
}
use free5gc_workspace.Prelude.Int.{
  ℤ, pos, negsuc, ◌+ℤ◌, ◌-ℤ◌, pos_part, neg_part, ltb_ℤ, wrap_int64,
}
use free5gc_workspace.Prelude.Outcome.{Outcome, returns, fails, panics}

pub record IdGenerator : Type 0 where
  pub min_value : ℤ
  pub max_value : ℤ
  pub value_range : ℤ
  pub offset : ℕ
  pub used_map : List ℕ

pub data IdError : Type 0 where
  no_available_value : IdError

-- `NewGenerator` and `init`
unfoldable pub new_generator : ℤ → ℤ → IdGenerator
unfolding wrap_int64
new_generator min_value max_value = record {
  min_value = min_value;
  max_value = max_value;
  value_range = wrap_int64 (max_value -ℤ min_value +ℤ pos 1);
  offset = 0;
  used_map = [];
}

-- A lookup in the used map.
unfoldable pub is_used : ℕ → List ℕ → Bool
is_used o [] = false
is_used o (x ∷ l) = x == o || is_used o l

-- `delete` from the used map.
unfoldable pub delete : ℕ → List ℕ → List ℕ
delete o [] = []
delete o (x ∷ l) = let rest = delete o l in if x == o then rest else x ∷ rest

-- `offset++`, and the remainder by the range: a division by zero panics.
unfoldable pub update_offset : IdGenerator → Outcome IdError IdGenerator
update_offset g =
    let range = pos_part g.value_range + neg_part g.value_range in
    if range == 0 then panics else returns (record g { offset = (g.offset + 1) % range })

-- Where the loop of `Allocate` leaves off.
pub data Search : Type 0 where
  found exhausted : IdGenerator → Search
  panicked out_of_fuel : Search

-- The loop of `Allocate`, which comes back to `offset_begin` where every value is in use.
unfoldable pub search_offset : ℕ → ℕ → IdGenerator → Search
unfolding update_offset is_used
search_offset zero offset_begin g = out_of_fuel
search_offset (suc fuel) offset_begin g = elim (is_used g.offset g.used_map) [
  | true ↦ elim (update_offset g) [
    | returns g' ↦ elim (g'.offset == offset_begin) [
      | true ↦ exhausted g'
      | false ↦ search_offset fuel offset_begin g'
    ]
    | _ ↦ panicked
  ]
  | false ↦ found g
]

-- What follows the loop.
finish : Search → Outcome IdError (IdGenerator × ℤ)
unfolding wrap_int64
finish (exhausted g) = fails no_available_value
finish panicked = panics
finish out_of_fuel = panics
finish (found g) =
    let marked = record g { used_map = g.offset ∷ g.used_map } in
    let id = wrap_int64 (pos g.offset +ℤ g.min_value) in
    elim (update_offset marked) [
      | returns g' ↦ returns (g', id)
      | fails e ↦ fails e
      | panics ↦ panics
    ]

-- `Allocate`. Where the offset lies in the range, one round more than the range is long is enough
-- for the loop (`search_offset_cases`). Where it fails the offset is back where it was, and the
-- generator as it was.
unfoldable pub allocate : IdGenerator → Outcome IdError (IdGenerator × ℤ)
unfolding search_offset finish
allocate g = finish (search_offset (pos_part g.value_range + neg_part g.value_range + 1) g.offset g)

-- `delete` of an `int64`: a negative number is no key of the map.
unfoldable pub delete_offset : ℤ → List ℕ → List ℕ
unfolding delete
delete_offset (pos o) l = delete o l
delete_offset (negsuc n) l = l

unfoldable pub free_id : IdGenerator → ℤ → IdGenerator
unfolding delete_offset wrap_int64
free_id g id =
    if ltb_ℤ id g.min_value || ltb_ℤ g.max_value id
    then g
    else record g { used_map = delete_offset (wrap_int64 (id -ℤ g.min_value)) g.used_map }
