-- ===== src/Fsm/Send.antt =====
-- What `SendEvent` calls, in which order, and where it leaves the state.
use Prim.Native.String.{String}
use text.Mathlib.Text.{◌==◌}
use text.Mathlib.TextEquality.{eq_iff}
use free5gc_workspace.Prelude.{
  ◌≡◌, ◌⊎◌, refl, ap, sym, ◌∙◌, inl, inr, List, [], ◌∷◌, ◌++◌, Option, none, some, map, arith,
  Option-cases, Bool-cases,
}
use free5gc_workspace.Prelude.Outcome.{returns, fails, >>=-eq-returns, returns-injective}
use free5gc_workspace.Fsm.{
  Transition, Callback, MetricFunc, ArgsType, unknown_transition, Fsm, get, find, call,
  change_state, observe, fire, check_caller_info, arg_caller_info, entry_event, exit_event,
  send_event,
}

-- A call that the machine makes: of the callback of a state, with the state and the event that it
-- is given, or of the metric function.
pub data Made : Type 0 where
  called : String → String → String → Made
  counted : String → String → Made

-- A callback that writes down its call and leaves the state alone.
abbrev pub recorder : String → Callback (List Made)
recorder name state event args made = (state, made ++ called name state event ∷ [])

abbrev pub count_metric : MetricFunc (List Made)
count_metric source target made = made ++ counted source target ∷ []

-- The machine over a table, with such a callback for every state of a list.
abbrev pub recording : List Transition → List String → Fsm (List Made)
recording ts states = record { transitions = ts; callbacks = map (λ s. (s, recorder s)) states }

-- The text stands in the list.
abbrev pub Listed : String → List String → Type 0
Listed s [] = ⊥
Listed s (x ∷ l) = (s ≡ x) ⊎ Listed s l

find_key :
    (event source : String) (ts : List Transition) (t : Transition)
    → find event source ts ≡ some t
    → (t.event ≡ event) × (t.source ≡ source)
unfolding find
find_key event source [] t h = cc
find_key event source (u ∷ ts) t h =
    ground (arith, find_key event source ts t, eq_iff u.event event, eq_iff u.source source)

-- No callback of the machine sets the state.
abbrev pub IsQuiet : {W : Type 0} → Fsm W → Type 0
IsQuiet {W} fsm =
    (name : String) (f : Callback W)
    → get name fsm.callbacks ≡ some f
    → (state event : String) (args : ArgsType) (w : W) → (f state event args w).0 ≡ state

-- Inversion of a call.
call_returns :
    {W : Type 0} (o : Option (Callback W)) (state event : String) (args : ArgsType) (w : W)
    {r : String × W}
    → call o state event args w ≡ returns r
    → (f : Callback W) × (o ≡ some f) × (f state event args w ≡ r)
unfolding call
call_returns none state event args w h = cc
call_returns (some f) state event args w h = (f, refl, cc)

call_quiet :
    {W : Type 0} (fsm : Fsm W) (name state event : String) (args : ArgsType) (w : W)
    {r : String × W}
    → IsQuiet fsm
    → call (get name fsm.callbacks) state event args w ≡ returns r
    → r.0 ≡ state
call_quiet fsm name state event args w q h =
    let (f, has, e) = call_returns (get name fsm.callbacks) state event args w h in
    ap (λ p. p.0) (sym e) ∙ q name f has state event args w

change_state_quiet :
    {W : Type 0} (fsm : Fsm W) (metric : Option (MetricFunc W)) (t : Transition) (args : ArgsType)
    (state : String) (w : W) {r : String × W}
    → IsQuiet fsm
    → change_state fsm metric t args (state, w) ≡ returns r
    → r.0 ≡ t.target
unfolding change_state
change_state_quiet fsm metric t args state w q h =
    let (exited, _, e) =
      >>=-eq-returns
        (call (get t.source fsm.callbacks) state exit_event args
          (observe metric t.source t.target w))
        _ h in
    call_quiet fsm t.target t.target entry_event args exited.1 q e

fire_quiet :
    {W : Type 0} (fsm : Fsm W) (metric : Option (MetricFunc W)) (t : Transition)
    (state event : String) (args : ArgsType) (w : W) {r : String × W}
    → IsQuiet fsm
    → t.source ≡ state
    → fire fsm metric (some t) state event args w ≡ returns r
    → r.0 ≡ t.target
unfolding fire
fire_quiet fsm metric t state event args w {r} q key h =
    let (_, _, h1) = >>=-eq-returns (check_caller_info (get arg_caller_info args)) _ h in
    let (first, c, h2) =
      >>=-eq-returns (call (get t.source fsm.callbacks) state event args w) _ h1 in
    let kept = call_quiet fsm t.source state event args w q c in
    elim (Bool-cases (t.source == t.target)) [
      | inl e ↦
          let same : first ≡ r = returns-injective (rw e at h2) in
          ap (λ p. p.0) (sym same) ∙ kept ∙ sym key ∙ (eq_iff t.source t.target).0 e
      | inr e ↦ change_state_quiet fsm metric t args first.0 first.1 q (rw e at h2)
    ]

-- Where no callback sets the state, an event that is sent without error or panic takes a transition
-- of the machine: it has one from the state with the event, and leaves the state at its target.
pub send_event-target :
    {W : Type 0} (fsm : Fsm W) (metric : Option (MetricFunc W)) (state event : String)
    (args : ArgsType) (w : W) {r : String × W}
    → IsQuiet fsm
    → send_event fsm metric state event args w ≡ returns r
    → (t : Transition) × (find event state fsm.transitions ≡ some t)
      × (t.event ≡ event)
      × (t.source ≡ state)
      × (r.0 ≡ t.target)
unfolding send_event
send_event-target fsm metric state event args w {r} q h =
    elim (Option-cases (find event state fsm.transitions)) [
      | inl e ↦ absurd (no_transition (rw e at h))
      | inr (t, e) ↦
          let key = find_key event state fsm.transitions t e in
          (t, e, key.0, key.1, fire_quiet fsm metric t state event args w q key.1 (rw e at h))
    ]
  where
    no_transition : fails (unknown_transition state event) ≡ returns r → ⊥
    no_transition p = cc
