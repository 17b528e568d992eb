-- ===== src/Fsm/Build.antt =====
-- Which tables `NewFSM` accepts, and that the machine then looks up what the table says.
use Prim.Native.String.{String}
use text.Mathlib.TextEquality.{eq_iff}
use free5gc_workspace.Prelude.{◌≡◌, ◌||◌, refl, true, List, [], ◌∷◌, Option, none, some, arith}
use free5gc_workspace.Prelude.Outcome.{returns, >>=-eq-returns}
use free5gc_workspace.Fsm.{
  Transition, Callback, MetricFunc, Fsm, find, store_transitions, is_known, store_callbacks,
  new_fsm,
}

-- No two transitions have the same source and event.
abbrev pub Distinct : List Transition → Type 0
Distinct [] = Unit {0}
Distinct (t ∷ ts) = (find t.event t.source ts ≡ none) × Distinct ts

-- Every callback belongs to a state that some transition names.
abbrev pub AllKnown {ℓ} : {V : Type ℓ} → List Transition → List (String × V) → Type 0
AllKnown ts [] = Unit {0}
AllKnown ts ((s, c) ∷ cs) = (is_known s ts ≡ true) × AllKnown ts cs

-- The first of two lookups that finds something.
abbrev pub or_else : Option Transition → Option Transition → Option Transition
or_else none b = b
or_else (some t) b = some t

-- The machine looks up what was stored before, and what the rest of the table says.
find-store_transitions :
    (e s : String) (stored ts r : List Transition)
    → store_transitions stored ts ≡ returns r
    → find e s r ≡ or_else (find e s stored) (find e s ts)
unfolding store_transitions
find-store_transitions e s stored [] r h = ground arith
find-store_transitions e s stored (t ∷ ts) r h =
    ground
      (arith, find-store_transitions e s (t ∷ stored) ts r, eq_iff t.event e, eq_iff t.source s)

-- No transition of the table has the key of one that is stored.
abbrev Apart : List Transition → List Transition → Type 0
Apart stored [] = Unit {0}
Apart stored (t ∷ ts) = (find t.event t.source stored ≡ none) × Apart stored ts

Apart-cons :
    (t : Transition) (stored ts : List Transition)
    → Apart stored ts
    → find t.event t.source ts ≡ none
    → Apart (t ∷ stored) ts
unfolding find
Apart-cons t stored [] a h = tt
Apart-cons t stored (u ∷ ts) a h = ground (
  arith,
  Apart-cons t stored ts a.1,
  eq_iff t.event u.event,
  eq_iff u.event t.event,
  eq_iff t.source u.source,
  eq_iff u.source t.source,
)

Apart-tail :
    (t : Transition) (stored ts : List Transition)
    → Apart (t ∷ stored) ts
    → Apart stored ts × (find t.event t.source ts ≡ none)
unfolding find
Apart-tail t stored [] a = (tt, refl)
Apart-tail t stored (u ∷ ts) a = ground (
  arith,
  Apart-tail t stored ts a.1,
  eq_iff t.event u.event,
  eq_iff u.event t.event,
  eq_iff t.source u.source,
  eq_iff u.source t.source,
)

store_transitions-Distinct :
    (stored ts r : List Transition)
    → store_transitions stored ts ≡ returns r
    → Apart stored ts × Distinct ts
unfolding store_transitions
store_transitions-Distinct stored [] r h = (tt, tt)
store_transitions-Distinct stored (t ∷ ts) r h =
    ground (arith, store_transitions-Distinct (t ∷ stored) ts r, Apart-tail t stored ts)

store_transitions_total :
    (stored ts : List Transition)
    → Apart stored ts
    → Distinct ts
    → (r : List Transition) × (store_transitions stored ts ≡ returns r)
unfolding store_transitions
store_transitions_total stored [] a d = (stored, refl)
store_transitions_total stored (t ∷ ts) a d =
    let (r, e) = store_transitions_total (t ∷ stored) ts (Apart-cons t stored ts a.1 d.0) d.1 in
    (r, rw (a.0, store_transitions) e)

is_known-store_transitions :
    (s : String) (stored ts r : List Transition)
    → store_transitions stored ts ≡ returns r
    → is_known s r ≡ (is_known s stored || is_known s ts)
unfolding store_transitions is_known
is_known-store_transitions s stored [] r h = ground arith
is_known-store_transitions s stored (t ∷ ts) r h =
    ground (arith, is_known-store_transitions s (t ∷ stored) ts r)

store_callbacks-AllKnown {ℓ} :
    {V : Type ℓ} (ts r : List Transition) (cs : List (String × V))
    → ((s : String) → is_known s r ≡ is_known s ts)
    → store_callbacks r cs ≡ returns tt
    → AllKnown ts cs
unfolding store_callbacks
store_callbacks-AllKnown ts r [] same h = tt
store_callbacks-AllKnown ts r ((s, c) ∷ cs) same h =
    ground (arith, same s, store_callbacks-AllKnown ts r cs same)

store_callbacks_total {ℓ} :
    {V : Type ℓ} (ts r : List Transition) (cs : List (String × V))
    → ((s : String) → is_known s r ≡ is_known s ts)
    → AllKnown ts cs
    → store_callbacks r cs ≡ returns tt
unfolding store_callbacks
store_callbacks_total ts r [] same a = refl
store_callbacks_total ts r ((s, c) ∷ cs) same a =
    ground (arith, same s, store_callbacks_total ts r cs same a.1)

-- `NewFSM` accepts a table whose keys are distinct, with callbacks for states that it names. The
-- machine then has these callbacks, finds under each key what the table has under it, and the
-- package has the new metric function if there is one.
pub new_fsm_accepts :
    {W : Type 0} (metric : Option (MetricFunc W)) (ts : List Transition)
    (cs : List (String × Callback W)) (f : MetricFunc W)
    → Distinct ts
    → AllKnown ts cs
    → (fsm : Fsm W) × (new_fsm metric ts cs (some f) ≡ returns (fsm, some f))
      × (new_fsm metric ts cs none ≡ returns (fsm, metric))
      × (fsm.callbacks ≡ cs)
      × ((event source : String) → find event source fsm.transitions ≡ find event source ts)
unfolding new_fsm
new_fsm_accepts metric ts cs f d k =
    let (r, e) = store_transitions_total [] ts (apart ts) d in
    let known = λ (s : String). is_known-store_transitions s [] ts r e in
    let stored = store_callbacks_total ts r cs known k in
    (
      record { transitions = r; callbacks = cs },
      rw (e, stored) refl,
      rw (e, stored) refl,
      refl,
      λ event source. find-store_transitions event source [] ts r e,
    )
  where
    apart : (ts : List Transition) → Apart [] ts
    apart [] = tt
    apart (t ∷ ts) = (refl, apart ts)

-- `NewFSM` accepts no other table than one whose keys are distinct, and no other callbacks than
-- those for states that the table names.
pub new_fsm_refuses :
    {W : Type 0} (metric callback_metric_func : Option (MetricFunc W)) (ts : List Transition)
    (cs : List (String × Callback W)) {r : Fsm W × Option (MetricFunc W)}
    → new_fsm metric ts cs callback_metric_func ≡ returns r
    → Distinct ts × AllKnown ts cs
unfolding new_fsm
new_fsm_refuses metric callback_metric_func ts cs h =
    let (stored, e, h') = >>=-eq-returns (store_transitions [] ts) _ h in
    let (_, e', _) = >>=-eq-returns (store_callbacks stored cs) _ h' in
    let known = λ (s : String). is_known-store_transitions s [] ts stored e in
    ((store_transitions-Distinct [] ts stored e).1, store_callbacks-AllKnown ts stored cs known e')
