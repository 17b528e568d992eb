-- ===== src/Metrics/Causes/Labels.antt =====
-- Two causes with the same label.
use free5gc_workspace.Prelude.{
  ℕ, ◌≡◌, ◌⊎◌, Bool, true, ◌&&◌, List, [], ◌∷◌, ◌++◌, Option, none, some, ◌==◌, if◌then◌else◌,
}
use free5gc_workspace.Text.Decimal.{Bytes, codes}
use free5gc_workspace.Text.Words.{text_eq, Lacks}
use free5gc_workspace.Metrics.Causes.{Constants, Cause, unknown_cause, unknown_type}

-- Every label is the kind, a colon and the name of the constant.
follows_names : Bytes → List (Bytes × Bytes) → Bool
unfolding text_eq
follows_names kind [] = true
follows_names kind ((name, label) ∷ cases) =
    text_eq label (kind ++ (codes " : " ++ name)) && follows_names kind cases

module _ (k : Constants) where
  -- The member that the switch looks at.
  abbrev pub member : Cause → Option ℕ
  member c =
      if c.present == k.cause_present (codes "RadioNetwork")
      then c.radio_network
      else if c.present == k.cause_present (codes "Transport")
      then c.transport
      else if c.present == k.cause_present (codes "Nas")
      then c.nas
      else if c.present == k.cause_present (codes "Protocol")
      then c.protocol
      else if c.present == k.cause_present (codes "Misc")
      then c.misc
      else none

  -- The value that a member has under a kind and a name.
  abbrev constant_of : Bytes → Bytes → Option ℕ
  constant_of kind name =
      if text_eq kind (codes "RadioNetwork")
      then some (k.radio_network name)
      else if text_eq kind (codes "Transport")
      then some (k.transport name)
      else if text_eq kind (codes "Nas")
      then some (k.nas name)
      else if text_eq kind (codes "Protocol")
      then some (k.protocol name)
      else if text_eq kind (codes "Misc")
      then some (k.misc name)
      else none

  -- The label names the kind of the cause and the value of its member.
  abbrev Named : Cause → Bytes → Type 0
  Named c t =
      (kind name : Bytes) × (t ≡ kind ++ (codes " : " ++ name))
      × Lacks b' ' kind
      × (c.present ≡ k.cause_present kind)
      × (member c ≡ constant_of kind name)

  abbrev View : Cause → Bytes → Type 0
  View c t = (t ≡ unknown_cause) ⊎ ((t ≡ unknown_type) ⊎ Named c t)
