-- ===== src/IpPool/Pool/Order.antt =====
-- The order of the segments behind the head, on which `Free` relies to find a number that is free
-- already, and what happens without it.
use free5gc_workspace.Prelude.{
  ℕ, ◌+◌, ◌<◌, ◌≤◌, ◌≡◌, ◌≢◌, true, false, refl, List, [], ◌∷◌, none, arith,
}
use free5gc_workspace.IpPool.Segment.{Segment}
use free5gc_workspace.IpPool.Pool.{LazyReusePool, free_loop, free_segments, free}
use free5gc_workspace.IpPool.Pool.Multiplicity.{mult}

-- The segments stand in rising order above `b`, with a number that is not free before each.
abbrev pub Rising : ℕ → List Segment → Type 0
Rising b [] = Unit {0}
Rising b (s ∷ l) = (b + 1 < s.first) × (s.first ≤ s.last) × Rising s.last l

-- The segments behind the head rise, and the number behind the head is not among them.
abbrev pub IsOrdered : List Segment → Type 0
IsOrdered [] = Unit {0}
IsOrdered (h ∷ []) = Unit {0}
IsOrdered (h ∷ s ∷ l) = (s.first ≤ s.last) × Rising s.last l × (mult (s ∷ l) (h.last + 1) ≡ 0)

mult_below : (b x : ℕ) (l : List Segment) → x ≤ b + 1 → Rising b l → mult l x ≡ 0
mult_below b x [] h r = refl
mult_below b x (s ∷ l) h r = ground (arith, mult_below s.last x l)

-- On rising segments the loop of `Free` refuses a number that is free.
free_loop-none :
    (x : ℕ) (cur : Segment) (next : List Segment)
    → cur.first ≤ cur.last
    → Rising cur.last next
    → 1 ≤ mult (cur ∷ next) x
    → free_loop x cur next ≡ none
unfolding free_loop
free_loop-none x cur [] f r h = ground arith
free_loop-none x cur (n ∷ next) f r h =
    ground (arith, free_loop-none x n next r.1 r.2, mult_below cur.last x (n ∷ next))

free_segments-none :
    (x : ℕ) (l : List Segment) → IsOrdered l → 1 ≤ mult l x → free_segments x l ≡ none
unfolding free_segments
free_segments-none x [] o h = absurd (omega arith)
free_segments-none x (s ∷ []) o h = ground arith
free_segments-none x (s ∷ cur ∷ next) o h = ground (arith, free_loop-none x cur next o.0 o.1)

-- Where the segments behind the head rise, and none holds the number behind the head, `Free`
-- refuses every number that is free already, and leaves the pool as it is.
pub double_free_refused :
    (p : LazyReusePool) (x : ℕ) → IsOrdered p.head → 1 ≤ mult p.head x → free p x ≡ (p, false)
unfolding free
double_free_refused p x o h = ground (arith, free_segments-none x p.head o h)

-- Where a segment behind the head holds the number behind the head, and the next segment does
-- not begin right after that number, `Free` takes the number once more: it is free twice then.
pub double_free_accepted :
    (p : LazyReusePool) (h n : Segment) (l : List Segment)
    → p.head ≡ h ∷ n ∷ l
    → p.first ≤ h.first
    → h.first ≤ h.last
    → h.last + 1 ≤ p.last
    → n.first ≢ h.last + 2
    → mult (n ∷ l) (h.last + 1) ≡ 1
    → ((free p (h.last + 1)).1 ≡ true) × (mult (free p (h.last + 1)).0.head (h.last + 1) ≡ 2)
unfolding free free_segments
double_free_accepted p h n l e a b c d m = ground arith
