-- ===== src/Fsm/Tests.antt =====
-- lib/util/fsm on a machine of two states.
use Prim.Native.String.{String}
use text.Mathlib.Text.{◌==◌}
use free5gc_workspace.Prelude.{◌≡◌, refl, ap, sym, Bool-cases, List, [], ◌∷◌, none, some, inl, inr}
use free5gc_workspace.Prelude.Outcome.{returns}
use mathlib.Core.Option.{some-injective}
use free5gc_workspace.Fsm.{
  ArgsType, Transition, Callback, Fsm, get, find, is_known, new_fsm, send_event,
}
use free5gc_workspace.Fsm.Build.{Distinct, AllKnown}
use free5gc_workspace.Fsm.Send.{Made, recorder, IsQuiet, send_event-target}
use free5gc_workspace.Prelude.{◌++◌, true}
use free5gc_workspace.Prelude.Run.{Run}
use free5gc_workspace.Text.Decimal.{Bytes, codes}
use free5gc_workspace.Text.Words.{text_eq}
use free5gc_workspace.Text.Search.{crlf}
use free5gc_workspace.Fsm.State.{new_state, is_current, set}
use free5gc_workspace.Fsm.Dot.{dot_head, dot_text, export_dot}

abbrev opens : Transition
opens = record { event = "Open"; source = "Closed"; target = "Opened" }

abbrev closes : Transition
closes = record { event = "Close"; source = "Opened"; target = "Closed" }

abbrev table : List Transition
table = opens ∷ (closes ∷ [])

abbrev callbacks : List (String × Callback (List Made))
callbacks = ("Opened", recorder "Opened") ∷ (("Closed", recorder "Closed") ∷ [])

table-Distinct : Distinct table
unfolding find
table-Distinct = (refl, (refl, tt))

table-AllKnown : AllKnown table callbacks
unfolding is_known
table-AllKnown = (refl, (refl, tt))

abbrev built : Fsm (List Made)
built = record { transitions = closes ∷ (opens ∷ []); callbacks = callbacks }

table-built : new_fsm none table callbacks none ≡ returns (built, none)
unfolding new_fsm
table-built = refl

-- Callbacks that do nothing.
abbrev idle : Callback (Unit {0})
idle state event args w = (state, tt)

abbrev still : Fsm (Unit {0})
still = record { transitions = table; callbacks = ("Opened", idle) ∷ (("Closed", idle) ∷ []) }

quiet_callback :
    (f : Callback (Unit {0})) (state event : String) (args : ArgsType) (w : Unit {0})
    → some idle ≡ some f
    → (f state event args w).0 ≡ state
quiet_callback f state event args w h =
    sym (ap (λ (g : Callback (Unit {0})). (g state event args w).0) (some-injective idle f h))

nothing_found :
    {f : Callback (Unit {0})} {state event : String} {args : ArgsType} {w : Unit {0}}
    → none ≡ some f
    → (f state event args w).0 ≡ state
nothing_found h = cc

still-IsQuiet : IsQuiet still
unfolding get
still-IsQuiet name f h state event args w = elim (Bool-cases ("Opened" == name)) [
  | inl e ↦ quiet_callback f state event args w (rw e at h)
  | inr e ↦ elim (Bool-cases ("Closed" == name)) [
    | inl e' ↦ quiet_callback f state event args w (rw (e, e') at h)
    | inr e' ↦ nothing_found (rw (e, e') at h)
  ]
]

still_opened : send_event still none "Closed" "Open" [] tt ≡ returns ("Opened", tt)
unfolding send_event
still_opened = refl

send_event-target_example :
    (t : Transition) × (find "Open" "Closed" table ≡ some t)
    × (t.event ≡ "Open")
    × (t.source ≡ "Closed")
    × ("Opened" ≡ t.target)
send_event-target_example =
    send_event-target still none "Closed" "Open" [] tt still-IsQuiet still_opened

table_text :
    dot_text (opens ∷ [])
    ≡ dot_head
      ++ (crlf ++ (9 ∷ codes "Closed -> Opened [label=\"Open\"]" ++ (crlf ++ codes "}" ++ 10 ∷ [])))
unfolding dot_text
table_text = refl

-- Files that keep what is written; a file is its path.
abbrev keep : Bytes → Bytes → Run (List (Bytes × Bytes)) (Unit {0}) (Unit {0})
keep path text files = ((path, text) ∷ files, returns tt)

table_written :
    export_dot
      (λ path files. (files, returns path))
      keep
      (λ path files. (files, returns tt))
      built
      (codes "m")
      []
    ≡ ((codes "m.dot", dot_text built.transitions) ∷ [], returns tt)
unfolding export_dot text_eq
table_written = refl

state_set : is_current (set (new_state "Closed") "Opened") "Opened" ≡ true
unfolding set is_current new_state
state_set = refl
