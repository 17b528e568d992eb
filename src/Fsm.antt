-- ===== src/Fsm.antt =====
-- lib/util/fsm: fsm.go and state.go. A state and an event are texts. A callback may read and set the
-- state and touch the rest of the program: it takes both and gives both back, `W` being all that it
-- may touch. A Go map is an association list; the calls of the logger are left out. The variable
-- `stateTransitionMetricFunc` of the package is the argument `metric`. The lock of a `State` makes
-- `Current` and `Set` one step each.
pub mod Build
pub mod Send
pub mod State
pub mod Dot
mod Tests
use Prim.Native.String.{String}
use text.Mathlib.Text.{◌==◌}
use free5gc_workspace.Prelude.{
  Bool, true, false, not, ◌&&◌, ◌||◌, List, [], ◌∷◌, Option, none, some, if◌then◌else◌,
}
use free5gc_workspace.Prelude.Outcome.{Outcome, returns, fails, panics, ◌>>=◌, ◌>>◌, guard}

pub record Transition : Type 0 where
  pub event : String
  pub source : String
  pub target : String

-- A value of an argument map, as far as `SendEvent` looks at it.
pub data ArgValue : Type 0 where
  string_value : String → ArgValue
  other : ArgValue

abbrev pub ArgsType : Type 0
ArgsType = List (String × ArgValue)

abbrev pub Callback : Type 0 → Type 0
Callback W = String → String → ArgsType → W → String × W

abbrev pub MetricFunc : Type 0 → Type 0
MetricFunc W = String → String → W → W

pub data FsmError : Type 0 where
  duplicate_transition : Transition → FsmError
  unknown_state : String → FsmError
  unknown_transition : String → String → FsmError

abbrev pub entry_event : String
entry_event = "Entry event"

abbrev pub exit_event : String
exit_event = "Exit event"

abbrev pub arg_caller_info : String
arg_caller_info = "CallerInfo"

-- A lookup by a text.
unfoldable pub get {ℓ} : {V : Type ℓ} → String → List (String × V) → Option V
get k [] = none
get k ((j, v) ∷ m) = if j == k then some v else get k m

-- The transitions of a machine, one for each event key, and its callbacks.
pub record Fsm (W : Type 0) : Type 0 where
  pub transitions : List Transition
  pub callbacks : List (String × Callback W)

-- The lookup of an `eventKey`.
unfoldable pub find : String → String → List Transition → Option Transition
find event source [] = none
find event source (t ∷ ts) =
    if t.event == event && t.source == source then some t else find event source ts

-- The first loop of `NewFSM`, over the transitions that it has stored.
unfoldable pub store_transitions :
    List Transition → List Transition → Outcome FsmError (List Transition)
unfolding find
store_transitions stored [] = returns stored
store_transitions stored (t ∷ ts) = elim (find t.event t.source stored) [
  | some _ ↦ fails (duplicate_transition t)
  | none ↦ store_transitions (t ∷ stored) ts
]

-- Whether `allStates` has the state.
unfoldable pub is_known : String → List Transition → Bool
is_known s [] = false
is_known s (t ∷ ts) = t.source == s || t.target == s || is_known s ts

-- The second loop of `NewFSM`. Go visits the keys of the map in any order, so that of several unknown
-- states any may be named by the error.
unfoldable pub store_callbacks {ℓ} :
    {V : Type ℓ} → List Transition → List (String × V) → Outcome FsmError (Unit {0})
unfolding is_known
store_callbacks stored [] = returns tt
store_callbacks stored ((s, c) ∷ cs) =
    let rest = store_callbacks stored cs in
    if is_known s stored then rest else fails (unknown_state s)

set_metric : {W : Type 0} → Option (MetricFunc W) → Option (MetricFunc W) → Option (MetricFunc W)
set_metric old none = old
set_metric old (some f) = some f

-- `NewFSM`: the machine, and the metric function that the package has from then on.
unfoldable pub new_fsm :
    {W : Type 0}
    → Option (MetricFunc W)
    → List Transition
    → List (String × Callback W)
    → Option (MetricFunc W)
    → Outcome FsmError (Fsm W × Option (MetricFunc W))
unfolding store_transitions store_callbacks set_metric
new_fsm metric transitions callbacks callback_metric_func = do
  stored ← store_transitions [] transitions
  store_callbacks stored callbacks
  returns (
    record { transitions = stored; callbacks = callbacks },
    set_metric metric callback_metric_func,
  )

-- The assertion `argCallerInfo.(string)` panics on any other value.
check_caller_info : Option ArgValue → Outcome FsmError (Unit {0})
check_caller_info (some other) = panics
check_caller_info _ = returns tt

-- A call of a callback that the map does not have is a call of a nil function.
call :
    {W : Type 0}
    → Option (Callback W)
    → String
    → String
    → ArgsType
    → W
    → Outcome FsmError (String × W)
call none state event args w = panics
call (some f) state event args w = returns (f state event args w)

observe : {W : Type 0} → Option (MetricFunc W) → String → String → W → W
observe none source target w = w
observe (some f) source target w = f source target w

-- Leaving a state and entering another.
change_state :
    {W : Type 0}
    → Fsm W
    → Option (MetricFunc W)
    → Transition
    → ArgsType
    → String × W
    → Outcome FsmError (String × W)
unfolding call observe get
change_state fsm metric t args (state, w) = do
  exited ←
      call (get t.source fsm.callbacks) state exit_event args (observe metric t.source t.target w)
  call (get t.target fsm.callbacks) t.target entry_event args exited.1

fire :
    {W : Type 0}
    → Fsm W
    → Option (MetricFunc W)
    → Option Transition
    → String
    → String
    → ArgsType
    → W
    → Outcome FsmError (String × W)
unfolding call get change_state check_caller_info
fire fsm metric none state event args w = fails (unknown_transition state event)
fire fsm metric (some t) state event args w = do
  check_caller_info (get arg_caller_info args)
  called ← call (get t.source fsm.callbacks) state event args w
  if t.source == t.target then returns called else change_state fsm metric t args called

-- `SendEvent`: the state and the rest of the program after it.
unfoldable pub send_event :
    {W : Type 0}
    → Fsm W
    → Option (MetricFunc W)
    → String
    → String
    → ArgsType
    → W
    → Outcome FsmError (String × W)
unfolding find fire
send_event fsm metric state event args w =
    fire fsm metric (find event state fsm.transitions) state event args w
