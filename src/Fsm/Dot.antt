-- ===== src/Fsm/Dot.antt =====
-- lib/util/fsm/fsm.go: ExportDot, over bytes. The operations of the files are arguments. The order in
-- which Go visits the transitions of the map is the order of the list, and any list may be it.
pub mod Lines
use Prim.Native.String.{String}
use free5gc_workspace.Prelude.{ℕ, Bool, true, false, List, [], ◌∷◌, ◌++◌, if◌then◌else◌}
use free5gc_workspace.Prelude.Outcome.{Outcome, returns, fails, panics}
use free5gc_workspace.Prelude.Run.{Run, ◌>>=◌, ◌>>◌, gives}
use free5gc_workspace.Text.Decimal.{Bytes, codes}
use free5gc_workspace.Text.Search.{has_suffix, crlf}
use free5gc_workspace.Fsm.{Transition, Fsm}

abbrev pub dot_head : Bytes
dot_head =
    codes "digraph FSM {"
    ++ 10 ∷ 9 ∷ codes "rankdir=LR"
    ++ 10 ∷ 9 ∷ codes "size=\"100\""
    ++ 10
      ∷ codes "    node[width=1 fixedsize=false shape=ellipse style=filled fillcolor=\"skyblue\"]"
    ++ 10 ∷ 9 ∷ []

unfoldable pub dot_link : Transition → Bytes
dot_link t =
    9 ∷ codes t.source
    ++ (codes " -> " ++ (codes t.target ++ (codes " [label=\"" ++ (codes t.event ++ codes "\"]"))))

unfoldable pub dot_links : List Transition → Bytes
unfolding dot_link
dot_links [] = []
dot_links (t ∷ ts) = crlf ++ (dot_link t ++ dot_links ts)

unfoldable pub dot_text : List Transition → Bytes
unfolding dot_links
dot_text ts = dot_head ++ (dot_links ts ++ (crlf ++ codes "}" ++ 10 ∷ []))

unfoldable pub dot_file : Bytes → Bytes
unfolding has_suffix
dot_file outfile = if has_suffix outfile (codes ".dot") then outfile else outfile ++ codes ".dot"

module _ {Files File E : Type 0} (create : Bytes → Run Files E File)
    (write_string : File → Bytes → Run Files E (Unit {0}))
    (close : File → Run Files E (Unit {0})) where
  unfoldable pub export_dot : {W : Type 0} → Fsm W → Bytes → Run Files E (Unit {0})
  unfolding dot_text dot_file ◌>>=◌ ◌>>◌
  export_dot fsm outfile = do
    file ← create (dot_file outfile)
    write_string file (dot_text fsm.transitions)
    close file
