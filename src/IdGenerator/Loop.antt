-- ===== src/IdGenerator/Loop.antt =====
-- The loop of `Allocate` looks at each offset once, from the present one on.
use native.Mathlib.Nat.{mod-add-mod, add_assoc, add-mod_right, mod-eq_of_lt}
use native.Mathlib.Decide.{dec_lt}
use free5gc_workspace.Prelude.{
  ℕ, zero, suc, ◌+◌, ◌-◌, ◌%◌, ◌≤◌, ◌<◌, ◌≡◌, ◌≢◌, ◌⊎◌, inl, inr, true, false, ap, sym, ◌∙◌, ◌==◌,
  ==_iff, arith, Bool-cases,
}
use free5gc_workspace.Prelude.Int.{pos_part, neg_part}
use free5gc_workspace.Prelude.Outcome.{returns}
use free5gc_workspace.IdGenerator.{
  IdGenerator, is_used, update_offset, Search, found, exhausted, search_offset,
}

-- The offset i places behind b, in a range of N values.
abbrev pub place : ℕ → ℕ → ℕ → ℕ
place b i N = (b + i) % N

place_next : (b i N : ℕ) → (place b i N + 1) % N ≡ place b (i + 1) N
place_next b i N = mod-add-mod (b + i) N 1 ∙ ap (λ (t : ℕ). t % N) (add_assoc b i 1)

place_round : (b N : ℕ) → b < N → place b N N ≡ b
place_round b N h = grind arith

place_start : (b i N : ℕ) → b < N → 0 < i → i < N → place b i N ≢ b
place_start b i N h p q = grind arith

place_here : (b N : ℕ) → b < N → b ≡ place b 0 N
place_here b N h = grind arith

-- Every offset is some number of places behind b.
place_onto : (b o N : ℕ) → b < N → o < N → (j : ℕ) × (j < N) × (place b j N ≡ o)
place_onto b o N h q = elim (dec_lt o b) [
  | yes below ↦ (o + N - b, omega arith, around below)
  | no above ↦ (o - b, omega arith, ap (λ (t : ℕ). t % N) (ahead above) ∙ mod-eq_of_lt q)
]
  where
    around : o < b → place b (o + N - b) N ≡ o
    around p =
        let sum : b + (o + N - b) ≡ o + N = omega arith in
        ap (λ (t : ℕ). t % N) sum ∙ add-mod_right o N ∙ mod-eq_of_lt q

    ahead : ¬ (o < b) → b + (o - b) ≡ o
    ahead p = omega arith

-- The length of the range, as the remainder takes it.
abbrev pub size : IdGenerator → ℕ
size g = pos_part g.value_range + neg_part g.value_range

-- The two ways in which the loop ends: at an offset that is not in use, or back where it began,
-- with all in use.
abbrev pub LoopEnds : ℕ → IdGenerator → ℕ → Search → Type 0
LoopEnds N g b r =
    ((o : ℕ) × (o < N) × (is_used o g.used_map ≡ false) × (r ≡ found (record g { offset = o })))
    ⊎ (((o : ℕ) → o < N → is_used o g.used_map ≡ true) × (r ≡ exhausted (record g { offset = b })))

pub update_offset_lem :
    (g : IdGenerator)
    → 0 < size g
    → update_offset g ≡ returns (record g { offset = (g.offset + 1) % size g })
unfolding update_offset
update_offset_lem g h = ground arith

search_used :
    (f b : ℕ) (g : IdGenerator)
    → 0 < size g
    → is_used g.offset g.used_map ≡ true
    → let g' = record g { offset = (g.offset + 1) % size g } in
      ((g'.offset ≡ b) × (search_offset (suc f) b g ≡ exhausted g'))
      ⊎ ((g'.offset ≢ b) × (search_offset (suc f) b g ≡ search_offset f b g'))
unfolding search_offset
search_used f b g h u = elim (Bool-cases ((g.offset + 1) % size g == b)) [
  | inl e ↦ inl ((==_iff _ b).0 e, ground arith)
  | inr e ↦ inr (ground arith, ground arith)
]

-- Coming back to b ends the round.
last_round : (i b j N : ℕ) → b < N → i < N → j < N → place b (i + 1) N ≡ b → j < i + 1
last_round i b j N hb hi hj e = elim (dec_lt (i + 1) N) [
  | yes lt ↦ absurd (place_start b (i + 1) N hb (omega arith) lt e)
  | no ge ↦ omega arith
]

not_last : (i b N : ℕ) → b < N → i < N → place b (i + 1) N ≢ b → i + 1 < N
not_last i b N hb hi ne = elim (dec_lt (i + 1) N) [
  | yes lt ↦ lt
  | no ge ↦ let e : i + 1 ≡ N = omega arith in absurd (ne (rw e (place_round b N hb)))
]

search_free :
    (f b : ℕ) (g : IdGenerator)
    → is_used g.offset g.used_map ≡ false
    → search_offset (suc f) b g ≡ found g
unfolding search_offset
search_free f b g h = ground arith

one_more :
    (i b : ℕ) (g : IdGenerator)
    → ((j : ℕ) → j < i → is_used (place b j (size g)) g.used_map ≡ true)
    → is_used (place b i (size g)) g.used_map ≡ true
    → (j : ℕ) → j < i + 1
    → is_used (place b j (size g)) g.used_map ≡ true
one_more i b g before now j h = elim (dec_lt j i) [
  | yes lt ↦ before j lt
  | no ge ↦ let e : j ≡ i = omega arith in rw e now
]

-- The loop, i places behind its beginning b, with all offsets before in use.
search_from :
    (f i b : ℕ) (g : IdGenerator)
    → b < size g
    → i < size g
    → g.offset ≡ place b i (size g)
    → size g ≤ f + i
    → ((j : ℕ) → j < i → is_used (place b j (size g)) g.used_map ≡ true)
    → LoopEnds (size g) g b (search_offset f b g)
search_from zero i b g hb hi e h before = absurd (omega arith)
search_from (suc f) i b g hb hi e h before = elim (Bool-cases (is_used g.offset g.used_map)) [
  | inl used ↦
      let now : is_used (place b i (size g)) g.used_map ≡ true = rw (← e) used in
      let next : (g.offset + 1) % size g ≡ place b (i + 1) (size g) =
        rw e (place_next b i (size g)) in
      elim (search_used f b g (omega arith) used) [
        | inl (back, r) ↦ inr (
          λ o ho.
              let (j, hj, at) = place_onto b o (size g) hb ho in
              let last : j < i + 1 = last_round i b j (size g) hb hi hj (sym next ∙ back) in
              rw (← at) (one_more i b g before now j last),
          r ∙ ap (λ (t : ℕ). exhausted (record g { offset = t })) back,
        )
        | inr (on, r) ↦ rw r (
            search_from f (i + 1) b (record g { offset = (g.offset + 1) % size g }) hb
              (not_last i b (size g) hb hi (λ p. on (next ∙ p))) next (omega arith)
              (one_more i b g before now))
      ]
  | inr free ↦ inl (g.offset, omega (arith, e), free, search_free f b g free)
]

-- Where the offset lies in the range, the loop of `Allocate` ends, and one round more than the range
-- is long is enough fuel for it. It stops at an offset of the range that is not in use, or leaves the
-- generator as it was, with every offset of the range in use.
pub search_offset_cases :
    (g : IdGenerator)
    → g.offset < size g
    → LoopEnds (size g) g g.offset (search_offset (size g + 1) g.offset g)
search_offset_cases g h =
    search_from (size g + 1) 0 g.offset g h (omega arith) (place_here g.offset (size g) h)
      (omega arith) (λ j p. elim p [ ])
