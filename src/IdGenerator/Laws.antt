-- ===== src/IdGenerator/Laws.antt =====
-- What `Allocate` and `FreeID` promise.
use free5gc_workspace.Prelude.{
  ℕ, ◌+◌, ◌%◌, ◌^◌, ◌<◌, ◌≡◌, ◌⊎◌, inl, inr, true, false, refl, ap, ◌∙◌, List, [], ◌∷◌, ◌==◌,
  if◌then◌else◌, arith,
}
use free5gc_workspace.Prelude.Int.{
  ℤ, pos, negsuc, ◌+ℤ◌, ◌-ℤ◌, ◌≤ℤ◌, pos_part, neg_part, int_laws, neg_part-zero, +ℤ_cancel,
  FitsInt64, FitsInt64-between, wrap_int64, wrap_int64-FitsInt64,
}
use free5gc_workspace.Prelude.Outcome.{returns, fails}
use free5gc_workspace.IdGenerator.{
  IdGenerator, new_generator, is_used, delete, delete_offset, no_available_value, allocate, free_id,
}
use free5gc_workspace.IdGenerator.Loop.{size, search_offset_cases, update_offset_lem}

-- A generator between two calls: its range is that of its ends, which has not wrapped, the offset
-- lies in the range, and so does every offset in use.
pub record IsValid (g : IdGenerator) : Type 0 where
  pub min_fits : FitsInt64 g.min_value
  pub max_fits : FitsInt64 g.max_value
  pub range_fits : size g < 2 ^ 63
  pub range : neg_part g.value_range ≡ 0
  pub ends :
      pos_part g.max_value + neg_part g.min_value + 1
      ≡ pos_part g.min_value + neg_part g.max_value + size g
  pub offset_in : g.offset < size g
  pub used_in : (o : ℕ) → is_used o g.used_map ≡ true → o < size g

-- The offset of an id.
abbrev pub offset_of : IdGenerator → ℤ → ℕ
offset_of g id = pos_part (id -ℤ g.min_value)

-- A new generator over a range that is not empty, and whose length is an `int64`, is valid.
pub new_generator-IsValid :
    (a b : ℤ)
    → FitsInt64 a
    → FitsInt64 b
    → a ≤ℤ b
    → FitsInt64 (b -ℤ a +ℤ pos 1)
    → IsValid (new_generator a b)
unfolding new_generator is_used
new_generator-IsValid a b fa fb h f =
    let whole = wrap_int64-FitsInt64 (b -ℤ a +ℤ pos 1) f in
    let positive = neg_part-zero (b -ℤ a +ℤ pos 1) (omega int_laws) in
    record {
      min_fits = fa;
      max_fits = fb;
      range_fits = rw whole (omega (arith, positive, f.0));
      range = rw whole positive;
      ends = rw whole (omega (int_laws, positive));
      offset_in = rw whole (omega (int_laws, positive));
      used_in = λ o p. cc;
    }

-- An id of a valid generator does not wrap.
id_whole :
    (g : IdGenerator) (o : ℕ)
    → IsValid g
    → o < size g
    → wrap_int64 (pos o +ℤ g.min_value) ≡ pos o +ℤ g.min_value
id_whole g o v lt =
    let fits =
      FitsInt64-between (pos o +ℤ g.min_value) g.min_value g.max_value v.min_fits v.max_fits
        (omega int_laws) (omega (int_laws, v.ends, v.range)) in
    wrap_int64-FitsInt64 (pos o +ℤ g.min_value) fits

used_after :
    (g : IdGenerator) (o : ℕ)
    → IsValid g
    → o < size g
    → (o' : ℕ) → is_used o' (o ∷ g.used_map) ≡ true
    → o' < size g
unfolding is_used
used_after g o v lt o' h = ground (arith, v.used_in o')

-- `Allocate` fails just when every value of the range is in use; it takes one that is not else. It
-- does not panic, and its loop ends.
pub allocate_cases :
    (g : IdGenerator)
    → IsValid g
    → ((allocate g ≡ fails no_available_value)
        × ((o : ℕ) → o < size g → is_used o g.used_map ≡ true))
      ⊎ ((o : ℕ) × (g' : IdGenerator) × (allocate g ≡ returns (g', pos o +ℤ g.min_value))
          × (o < size g)
          × (is_used o g.used_map ≡ false)
          × (g'.used_map ≡ o ∷ g.used_map)
          × (g'.min_value ≡ g.min_value)
          × (g'.max_value ≡ g.max_value)
          × IsValid g')
unfolding allocate
allocate_cases g v = elim (search_offset_cases g v.offset_in) [
  | inl (o, lt, free, e) ↦
      let marked = record g { offset = o; used_map = o ∷ g.used_map } in
      let g' = record marked { offset = (o + 1) % size g } in
      inr (
        o,
        g',
        ground (arith, e, update_offset_lem marked (omega arith), id_whole g o v lt),
        lt,
        free,
        refl,
        refl,
        refl,
        record {
          min_fits = v.min_fits;
          max_fits = v.max_fits;
          range_fits = v.range_fits;
          range = v.range;
          ends = v.ends;
          offset_in = omega arith;
          used_in = λ o' h. used_after g o v lt o' h;
        },
      )
  | inr (all, e) ↦ inl (rw e refl, all)
]

-- `FreeID` takes the offset of an id in the range out of use, and changes nothing else.
is_used-delete :
    (o v : ℕ) (l : List ℕ) → is_used v (delete o l) ≡ (if v == o then false else is_used v l)
unfolding is_used delete
is_used-delete o v [] = ground arith
is_used-delete o v (x ∷ l) = ground (arith, is_used-delete o v l)

is_used-delete_offset :
    (k : ℤ) (v : ℕ) (l : List ℕ) → is_used v (delete_offset k l) ≡ true → is_used v l ≡ true
unfolding delete_offset
is_used-delete_offset (pos o) v l h = ground (arith, is_used-delete o v l)
is_used-delete_offset (negsuc n) v l h = h

-- Nor does the key of an id in the range.
key_whole :
    (g : IdGenerator) (id : ℤ)
    → IsValid g
    → g.min_value ≤ℤ id
    → id ≤ℤ g.max_value
    → wrap_int64 (id -ℤ g.min_value) ≡ pos (offset_of g id)
key_whole g id v lo hi =
    let positive = neg_part-zero (id -ℤ g.min_value) (omega int_laws) in
    let fits : FitsInt64 (id -ℤ g.min_value) =
      (omega (int_laws, v.range_fits, v.ends, positive), omega (arith, positive)) in
    wrap_int64-FitsInt64 (id -ℤ g.min_value) fits ∙ not_negative (id -ℤ g.min_value) positive
  where
    not_negative : (a : ℤ) → neg_part a ≡ 0 → a ≡ pos (pos_part a)
    not_negative (pos n) h = refl
    not_negative (negsuc n) h = absurd (omega arith)

pub free_id-IsValid : (g : IdGenerator) (id : ℤ) → IsValid g → IsValid (free_id g id)
unfolding free_id
free_id-IsValid g id v = record {
  min_fits = ground (arith, v.min_fits);
  max_fits = ground (arith, v.max_fits);
  range_fits = ground (arith, v.range_fits);
  range = ground (arith, v.range);
  ends = ground (arith, v.ends);
  offset_in = ground (arith, v.offset_in);
  used_in = λ o h.
      ground
        (arith, v.used_in o, is_used-delete_offset (wrap_int64 (id -ℤ g.min_value)) o g.used_map);
}

-- After `FreeID` of an id in the range of a valid generator, that id is not in use, and every other is as before.
pub free_id_frees :
    (g : IdGenerator) (id : ℤ) (o : ℕ)
    → IsValid g
    → g.min_value ≤ℤ id
    → id ≤ℤ g.max_value
    → is_used o (free_id g id).used_map
      ≡ (if o == offset_of g id then false else is_used o g.used_map)
unfolding free_id delete_offset
free_id_frees g id o v lo hi =
    ground (arith, key_whole g id v lo hi, is_used-delete (offset_of g id) o g.used_map)

-- An id out of the range is ignored.
pub free_id_outside :
    (g : IdGenerator) (id : ℤ) → ¬ ((g.min_value ≤ℤ id) × (id ≤ℤ g.max_value)) → free_id g id ≡ g
unfolding free_id
free_id_outside g id h = ground arith

is_used-cons : (o : ℕ) (l : List ℕ) → is_used o (o ∷ l) ≡ true
unfolding is_used
is_used-cons o l = ground arith

-- In a valid generator (its ends are int64 values, its range is that of the ends, positive and not
-- wrapped, and the offset and every offset in use lie in the range) an id that `Allocate` gives lies
-- between the ends; it was not in use, and is then. The generator stays valid.
pub allocate_id :
    (g g' : IdGenerator) (id : ℤ)
    → IsValid g
    → allocate g ≡ returns (g', id)
    → (g.min_value ≤ℤ id)
      × (id ≤ℤ g.max_value)
      × (is_used (offset_of g id) g.used_map ≡ false)
      × (is_used (offset_of g id) g'.used_map ≡ true)
      × IsValid g'
allocate_id g g' id v e = elim (allocate_cases g v) [
  | inl (fail, _) ↦ cc
  | inr (o, g'', e', lt, free, used, _, _, valid) ↦
      let same_g : g'' ≡ g' = cc in
      let same_id : pos o +ℤ g.min_value ≡ id = cc in
      let back : offset_of g id ≡ o =
        rw (← same_id) (ap pos_part (+ℤ_cancel (pos o) g.min_value)) in
      (
        rw (← same_id) (omega int_laws),
        rw (← same_id) (omega int_laws),
        rw back free,
        rw (back, ← same_g, used) (is_used-cons o g.used_map),
        rw (← same_g) valid,
      )
]

size-free_id : (g : IdGenerator) (id : ℤ) → size (free_id g id) ≡ size g
unfolding free_id
size-free_id g id = ground arith

offset_in_range :
    (g : IdGenerator) (id : ℤ)
    → IsValid g
    → g.min_value ≤ℤ id
    → id ≤ℤ g.max_value
    → offset_of g id < size g
offset_in_range g id v lo hi = omega (int_laws, neg_part-zero (id -ℤ g.min_value) (omega int_laws))

freed :
    (g : IdGenerator) (id : ℤ)
    → IsValid g
    → g.min_value ≤ℤ id
    → id ≤ℤ g.max_value
    → ¬ (is_used (offset_of g id) (free_id g id).used_map ≡ true)
freed g id v lo hi h = ground (arith, free_id_frees g id (offset_of g id) v lo hi)

-- In a valid generator (its ends are int64 values, its range is that of the ends, positive and not
-- wrapped, and the offset and every offset in use lie in the range), after `FreeID` of an id between
-- the ends the next `Allocate` gives an id.
pub allocate-free_id :
    (g : IdGenerator) (id : ℤ)
    → IsValid g
    → g.min_value ≤ℤ id
    → id ≤ℤ g.max_value
    → (g' : IdGenerator) × (id' : ℤ) × (allocate (free_id g id) ≡ returns (g', id'))
allocate-free_id g id v lo hi = elim (allocate_cases (free_id g id) (free_id-IsValid g id v)) [
  | inl (_, all) ↦
      let o = offset_of g id in
      let used = all o (rw size-free_id (offset_in_range g id v lo hi)) in
      absurd (freed g id v lo hi used)
  | inr (o, g', e, _, _, _, _, _, _) ↦ (g', _, e)
]
