-- ===== src/Metrics/Causes/Tests.antt =====
-- Labels of concrete causes, and the theorem at two of them.
use free5gc_workspace.Prelude.{ℕ, ◌≡◌, refl, true, List, [], ◌∷◌, none, some, ◌+◌, if◌then◌else◌}
use free5gc_workspace.Prelude.Outcome.{returns, panics}
use free5gc_workspace.Text.Decimal.{Bytes, codes}
use free5gc_workspace.Text.Words.{text_eq}
use free5gc_workspace.Metrics.Init.{Globals}
use free5gc_workspace.Metrics.Init.Plan.{nothing}
use free5gc_workspace.Metrics.Causes.{Constants, Cause, get_cause_error_str}
use free5gc_workspace.Metrics.Ngap.{incr_metrics_rcv_msg, incr_metrics_sent_msg}

-- A constant's value is its place among the names.
abbrev place : List Bytes → Bytes → ℕ
place [] name = 0
place (n ∷ names) name = let rest = place names name in if text_eq n name then 0 else 1 + rest

abbrev constants : Constants
constants = record {
  cause_present = place (
      codes ""
      ∷ codes "RadioNetwork"
      ∷ codes "Transport"
      ∷ codes "Nas"
      ∷ codes "Protocol"
      ∷ codes "Misc"
      ∷ []);
  radio_network = place (codes "Unspecified" ∷ codes "TxnrelocoverallExpiry" ∷ []);
  transport = place (codes "TransportResourceUnavailable" ∷ []);
  nas = place (codes "NormalRelease" ∷ codes "AuthenticationFailure" ∷ codes "Deregister" ∷ []);
  protocol = place [];
  misc = place [];
}

abbrev deregister : Cause
deregister = record {
  present = 3;
  radio_network = none;
  transport = none;
  nas = some 2;
  protocol = none;
  misc = none;
}

abbrev no_type : Cause
no_type = record deregister { present = 9 }

get_cause_error_str_nil :
    get_cause_error_str constants (some (record deregister { nas = none })) ≡ panics
unfolding get_cause_error_str text_eq
get_cause_error_str_nil = refl

abbrev ready : Globals
ready = record nothing { ngap_enabled = true; ngap_set = true }

sent_other :
    incr_metrics_sent_msg constants ready
      (codes "NGReset")
      (some true)
      no_type
      (some (codes "other"))
    ≡ returns (
        (record { name = codes "NGReset"; status = codes "successful"; cause = codes "other" })
        ∷ [])
unfolding incr_metrics_sent_msg text_eq
sent_other = refl

rcv_absent :
    incr_metrics_rcv_msg constants ready
      (codes "NGReset")
      none
      (some (record deregister { present = 0 }))
    ≡ returns ((record { name = codes "NGReset"; status = codes "failure"; cause = [] }) ∷ [])
unfolding incr_metrics_rcv_msg
rcv_absent = refl
