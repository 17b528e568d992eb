-- ===== src/Fsm/State.antt =====
-- lib/util/fsm/state.go. The lock makes each operation one step.
use Prim.Native.String.{String}
use text.Mathlib.Text.{◌==◌}
use free5gc_workspace.Prelude.{Bool}

-- A `State`; `Current` is its field.
pub record State : Type 0 where
  pub current : String

unfoldable pub new_state : String → State
new_state init_state = record { current = init_state }

unfoldable pub is_current : State → String → Bool
is_current state target = state.current == target

unfoldable pub set : State → String → State
set state next = record state { current = next }
