-- ===== src/SafeChannel/Tests.antt =====
-- A safe channel of two places.
use free5gc_workspace.Prelude.{ℕ, ◌≡◌, refl, List, [], ◌∷◌}
use free5gc_workspace.Prelude.Outcome.{returns, Gives}
use free5gc_workspace.SafeChannel.{send, close, receive, new_safe_ch}
use free5gc_workspace.SafeChannel.Fifo.{
  Event, sends, closes, receives, History, opened, history, IsFifo, history-IsFifo,
}

abbrev events : List (Event ℕ)
events =
    sends 7
    ∷ (sends 8 ∷ (sends 9 ∷ (receives ∷ (closes ∷ (sends 10 ∷ (closes ∷ (receives ∷ [])))))))

-- The third element has to wait, and the one behind the end is dropped.
last_history :
    (h : History ℕ) × (history (opened 2) events ≡ returns h)
    × (h.received ≡ 7 ∷ (8 ∷ []))
    × (h.accepted ≡ 7 ∷ (8 ∷ []))
unfolding history send close receive new_safe_ch
last_history = (_, refl, refl, refl)

history-IsFifo_example : Gives (history (opened 2) events) (IsFifo 2)
history-IsFifo_example = history-IsFifo 2 events
