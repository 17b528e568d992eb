-- ===== src/Metrics/Ngap.antt =====
-- lib/util/metrics/ngap/message.go: the counting of NGAP messages. A function gives the labels of the
-- counter that is incremented, if one is; a counter that is not set is a nil pointer.
use free5gc_workspace.Prelude.{
  Bool, true, false, List, [], ◌∷◌, Option, none, some, ◌==◌, if◌then◌else◌,
}
use free5gc_workspace.Prelude.Outcome.{Outcome, returns, panics, ◌>>=◌}
use free5gc_workspace.Text.Decimal.{Bytes}
use free5gc_workspace.Text.Words.{text_eq}
use free5gc_workspace.Metrics.{get_status, read_string_ptr}
use free5gc_workspace.Metrics.Init.{Globals}
use free5gc_workspace.Metrics.Nas.{Labels}
use free5gc_workspace.Metrics.Causes.{Constants, Cause, unknown_type, get_cause_error_str}

-- `counter.With(labels).Add(1)`
unfoldable pub add_one : Bool → Labels → Outcome (Unit {0}) (List Labels)
add_one false labels = panics
add_one true labels = returns (labels ∷ [])

-- The cause of a received message: empty where no member of the cause is present.
unfoldable pub rcv_cause : Constants → Option Cause → Outcome (Unit {0}) Bytes
unfolding get_cause_error_str
rcv_cause k none = returns []
rcv_cause k (some c) = if c.present == 0 then returns [] else get_cause_error_str k (some c)

-- The cause of a sent message: the other cause, if there is one, where the first is of no type.
unfoldable pub sent_cause : Option Bytes → Bytes → Bytes
unfolding text_eq read_string_ptr
sent_cause other_cause text =
    if text_eq text unknown_type then read_string_ptr other_cause else text

module _ (k : Constants) (g : Globals) where
  unfoldable pub incr_metrics_rcv_msg :
      Bytes → Option Bool → Option Cause → Outcome (Unit {0}) (List Labels)
  unfolding rcv_cause get_status add_one
  incr_metrics_rcv_msg msg_type metric_status_success syntax_cause =
      if g.ngap_enabled
      then (do
        text ← rcv_cause k syntax_cause
        add_one g.ngap_set
            (record { name = msg_type; status = get_status metric_status_success; cause = text }))
      else returns []

  unfoldable pub incr_metrics_sent_msg :
      Bytes → Option Bool → Cause → Option Bytes → Outcome (Unit {0}) (List Labels)
  unfolding get_cause_error_str sent_cause get_status add_one
  incr_metrics_sent_msg msg_type metric_status_success syntax_cause other_cause =
      if g.ngap_enabled
      then (do
        text ← get_cause_error_str k (some syntax_cause)
        add_one g.ngap_set (record {
          name = msg_type;
          status = get_status metric_status_success;
          cause = sent_cause other_cause text;
        }))
      else returns []
