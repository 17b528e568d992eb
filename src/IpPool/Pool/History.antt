-- ===== src/IpPool/Pool/History.antt =====
-- Clients of one pool: whoever obtains a number by `Allocate` or `Use` holds it until it calls
-- `Free` with it. The lock of the pool puts the calls of all clients into one sequence.
use free5gc_workspace.Prelude.{
  ℕ, ◌+◌, ◌≤◌, ◌≡◌, ◌==◌, Bool, true, false, ◌∙◌, ltb→lt, refl, List, [], ◌∷◌, Option, none, some,
  inl, inr, arith, Option-cases, Bool-cases, ltb, if◌then◌else◌, length,
}
use free5gc_workspace.IpPool.Pool.{LazyReusePool, allocate, use_value, free}
use free5gc_workspace.IpPool.Pool.Multiplicity.{mult, mult_range, unit_at}
use free5gc_workspace.IpPool.Pool.Allocate.{mult-allocate, allocate-none, count_free-allocate}
use free5gc_workspace.IpPool.Pool.Invariant.{
  allocate-SameEnds, use_value-SameEnds, free-SameEnds, Inv, allocate-Inv, use_value_cases,
  free-FreeEnds,
}

-- The pool, and the numbers that clients hold.
pub record World : Type 0 where
  pub pool : LazyReusePool
  pub held : List ℕ

pub data Event : Type 0 where
  acquire : Event
  claim release : ℕ → Event

abbrev pub count : ℕ → List ℕ → ℕ
count v [] = 0
count v (x ∷ l) = unit_at x v + count v l

abbrev pub erase : ℕ → List ℕ → List ℕ
erase x [] = []
erase x (y ∷ l) = if x == y then l else y ∷ erase x l

abbrev pub keep_if : Bool → ℕ → List ℕ → List ℕ
keep_if true x l = x ∷ l
keep_if false x l = l

abbrev pub keep : Option ℕ → List ℕ → List ℕ
keep none l = l
keep (some x) l = x ∷ l

-- Only a holder releases a number.
unfoldable pub event : World → Event → World
event w acquire = record { pool = (allocate w.pool).0; held = keep (allocate w.pool).1 w.held }
event w (claim x) = record {
  pool = (use_value w.pool x).0;
  held = keep_if (use_value w.pool x).1 x w.held;
}
event w (release x) =
    if ltb 0 (count x w.held)
    then record {
      pool = (free w.pool x).0;
      held = if (free w.pool x).1 then erase x w.held else w.held;
    }
    else w

unfoldable pub run : World → List Event → World
unfolding event
run w [] = w
run w (e ∷ es) = run (event w e) es

-- Where the numbers of the pool `p` are: each is free or held as often as it was free in `p`.
pub record Accounts (p : LazyReusePool) (w : World) : Type 0 where
  pub inv : Inv w.pool
  pub first_kept : w.pool.first ≡ p.first
  pub last_kept : w.pool.last ≡ p.last
  pub places : (v : ℕ) → mult w.pool.head v + count v w.held ≡ mult p.head v
  pub number : w.pool.remain + length w.held ≡ p.remain

count-erase : (x v : ℕ) (l : List ℕ) → 1 ≤ count x l → count v l ≡ count v (erase x l) + unit_at x v
count-erase x v [] h = absurd (omega arith)
count-erase x v (y ∷ l) h = ground (arith, count-erase x v l)

length-erase : (x : ℕ) (l : List ℕ) → 1 ≤ count x l → length l ≡ length (erase x l) + 1
length-erase x [] h = absurd (omega arith)
length-erase x (y ∷ l) h = ground (arith, length-erase x l)

acquire-Accounts : (p : LazyReusePool) (w : World) → Accounts p w → Accounts p (event w acquire)
unfolding event
acquire-Accounts p w a = elim (Option-cases (allocate w.pool).1) [
  | inl e ↦ rw (e, (allocate-none w.pool e).0) a
  | inr (r, e) ↦
      let i = allocate-Inv w.pool a.inv in
      let ends = allocate-SameEnds w.pool in
      let fits = a.inv.fits in
      rw e (record {
        inv = i;
        first_kept = ends.0 ∙ a.first_kept;
        last_kept = ends.1 ∙ a.last_kept;
        places = λ v.
            omega (arith, a.places v, mult-allocate w.pool r v w.pool.first w.pool.last fits e);
        number = omega (
          arith,
          a.number,
          a.inv.counted,
          i.counted,
          count_free-allocate w.pool r w.pool.first w.pool.last fits e,
        );
      })
]

claim-Accounts :
    (p : LazyReusePool) (w : World) (x : ℕ) → Accounts p w → Accounts p (event w (claim x))
unfolding event
claim-Accounts p w x a = elim (use_value_cases w.pool x a.inv) [
  | inl (e, z) ↦ rw e a
  | inr (e, one, moved, fewer, i) ↦
      let ends = use_value-SameEnds w.pool x in
      rw e (record {
        inv = i;
        first_kept = ends.0 ∙ a.first_kept;
        last_kept = ends.1 ∙ a.last_kept;
        places = λ v. omega (arith, a.places v, moved v);
        number = omega (arith, a.number, fewer);
      })
]

-- A number that is held is not free.
held_not_free :
    (p : LazyReusePool) (w : World) (x : ℕ)
    → ((v : ℕ) → mult p.head v ≤ 1)
    → Accounts p w
    → 1 ≤ count x w.held
    → mult w.pool.head x ≡ 0
held_not_free p w x d a h = omega (arith, a.places x, d x)

freed-Accounts :
    (p : LazyReusePool) (w : World) (x : ℕ)
    → Inv p
    → Accounts p w
    → 1 ≤ count x w.held
    → Accounts p (record {
      pool = (free w.pool x).0;
      held = if (free w.pool x).1 then erase x w.held else w.held;
    })
freed-Accounts p w x i a h = elim (free-FreeEnds w.pool x a.inv) [
  | inl (e, _) ↦ rw e a
  | inr (e, _, _, moved, more, j) ↦
      let ends = free-SameEnds w.pool x in
      rw e (record {
        inv = j (held_not_free p w x i.disjoint a h);
        first_kept = ends.0 ∙ a.first_kept;
        last_kept = ends.1 ∙ a.last_kept;
        places = λ v. omega (arith, a.places v, moved v, count-erase x v w.held h);
        number = omega (arith, a.number, more, length-erase x w.held h);
      })
]

event-Accounts :
    (p : LazyReusePool) (w : World) (e : Event) → Inv p → Accounts p w → Accounts p (event w e)
unfolding event
event-Accounts p w acquire i a = acquire-Accounts p w a
event-Accounts p w (claim x) i a = claim-Accounts p w x a
event-Accounts p w (release x) i a = elim (Bool-cases (ltb 0 (count x w.held))) [
  | inl h ↦ rw (h, event) (freed-Accounts p w x i a (ltb→lt 0 (count x w.held) h))
  | inr h ↦ rw (h, event) a
]

run-Accounts_from :
    (p : LazyReusePool) (w : World) (es : List Event) → Inv p → Accounts p w → Accounts p (run w es)
unfolding run
run-Accounts_from p w [] i a = a
run-Accounts_from p w (e ∷ es) i a = run-Accounts_from p (event w e) es i (event-Accounts p w e i a)

abbrev pub opened : LazyReusePool → World
opened p = record { pool = p; held = [] }

-- After any history that begins with a pool `p` in good order and no holder, the pool is in good
-- order with the ends of `p`, every number is free or held as often as it was free in `p`, and
-- `remain` and the held numbers add up to the `remain` of `p`.
pub run-Accounts : (p : LazyReusePool) (es : List Event) → Inv p → Accounts p (run (opened p) es)
run-Accounts p es i = run-Accounts_from p (opened p) es i (record {
  inv = i;
  first_kept = refl;
  last_kept = refl;
  places = λ v. omega arith;
  number = omega arith;
})

-- In no history is a number held twice, or held while it is free.
pub held_once :
    (p : LazyReusePool) (es : List Event) (v : ℕ)
    → Inv p
    → count v (run (opened p) es).held + mult (run (opened p) es).pool.head v ≤ 1
held_once p es v i = omega (arith, (run-Accounts p es i).places v, i.disjoint v)

-- In every history a number that is held can be given back: `Free` takes it and makes it free.
pub held_number_freed :
    (p : LazyReusePool) (es : List Event) (x : ℕ)
    → Inv p
    → 1 ≤ count x (run (opened p) es).held
    → let q = (run (opened p) es).pool in
      ((free q x).1 ≡ true) × (mult (free q x).0.head x ≡ 1) × ((free q x).0.remain ≡ q.remain + 1)
held_number_freed p es x i h =
    let q = (run (opened p) es).pool in
    let a = run-Accounts p es i in
    let gone = held_not_free p (run (opened p) es) x i.disjoint a h in
    let range = mult_range p.first p.last x p.head i.fits (omega (arith, a.places x)) in
    elim (free-FreeEnds q x a.inv) [
      | inl (_, why) ↦ ground (arith, a.first_kept, a.last_kept)
      | inr (e, _, _, moved, more, _) ↦ (e, ground (arith, moved x), more)
    ]
