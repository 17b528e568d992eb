-- ===== src/IpPool/Tests.antt =====
-- lib/util/ippool on concrete pools: the theorems at inputs that meet their hypotheses, and runs.
use free5gc_workspace.Prelude.{ℕ, zero, suc, ◌+◌, ◌≡◌, refl, true, false, List, [], ◌∷◌, arith}
use free5gc_workspace.IpPool.Segment.{Segment}
use free5gc_workspace.IpPool.Pool.{
  LazyReusePool, ok, new_lazy_reuse_pool, allocate, use_value, free,
}
use free5gc_workspace.IpPool.Pool.Multiplicity.{mult}
use free5gc_workspace.IpPool.Pool.Invariant.{Inv, new_lazy_reuse_pool-Inv}
use free5gc_workspace.IpPool.Pool.Spec.{frees, step, free_set, Spec, step-Spec}
use free5gc_workspace.IpPool.Pool.History.{
  Event, acquire, claim, release, run, opened, Accounts, run-Accounts, held_number_freed,
}
use free5gc_workspace.IpPool.Pool.Order.{double_free_refused, double_free_accepted}

abbrev segment : ℕ → ℕ → Segment
segment a b = record { first = a; last = b }

-- The numbers 3 to 6, all free.
abbrev small : LazyReusePool
small = record { head = segment 3 6 ∷ []; first = 3; last = 6; remain = 4 }

small_new : new_lazy_reuse_pool 3 6 ≡ ok small
unfolding new_lazy_reuse_pool
small_new = refl

small-Inv : Inv small
small-Inv = new_lazy_reuse_pool-Inv 3 6 small_new

step-Spec_example :
    Spec 3 6 (free_set small) (free_set (step small (frees 9)).0) (frees 9) (step small (frees 9)).1
step-Spec_example = step-Spec small (frees 9) small-Inv refl

abbrev busy : List Event
busy = acquire ∷ claim 5 ∷ acquire ∷ release 3 ∷ release 8 ∷ claim 5 ∷ []

busy_held : (run (opened small) busy).held ≡ 4 ∷ 5 ∷ []
unfolding run allocate use_value free
busy_held = refl

run-Accounts_example : Accounts small (run (opened small) busy)
run-Accounts_example = run-Accounts small busy small-Inv

held_number_freed_example :
    let q = (run (opened small) busy).pool in
    ((free q 5).1 ≡ true) × (mult (free q 5).0.head 5 ≡ 1) × ((free q 5).0.remain ≡ q.remain + 1)
held_number_freed_example = held_number_freed small busy 5 small-Inv (rw busy_held (omega arith))

double_free_refused_example : free small 4 ≡ (small, false)
double_free_refused_example = double_free_refused small 4 tt (omega arith)

-- Numbers 0 to 10, all handed out; then 5, 6, 2, 8 and 7 come back.
abbrev drain : ℕ → LazyReusePool → LazyReusePool
drain zero p = p
drain (suc n) p = drain n (allocate p).0

abbrev returned : LazyReusePool → List ℕ → LazyReusePool
returned p [] = p
returned p (x ∷ l) = returned (free p x).0 l

abbrev eleven : LazyReusePool
eleven = record { head = segment 0 10 ∷ []; first = 0; last = 10; remain = 11 }

abbrev scattered : LazyReusePool
scattered = record {
  head = segment 5 7 ∷ (segment 2 2 ∷ (segment 8 8 ∷ []));
  first = 0;
  last = 10;
  remain = 5;
}

-- `Allocate` and `Free` alone lead to a pool that takes 8 once more.
scattered_reached : returned (drain 11 eleven) (5 ∷ 6 ∷ 2 ∷ 8 ∷ 7 ∷ []) ≡ scattered
unfolding allocate free
scattered_reached = refl

double_free_accepted_example :
    ((free scattered 8).1 ≡ true) × (mult (free scattered 8).0.head 8 ≡ 2)
double_free_accepted_example =
    double_free_accepted scattered (segment 5 7) (segment 2 2) (segment 8 8 ∷ []) refl (omega arith)
      (omega arith) (omega arith) (omega arith) refl
