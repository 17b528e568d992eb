-- ===== src/Metrics/Tests.antt =====
-- The code on concrete messages, and the theorems at concrete inputs.
use free5gc_workspace.Prelude.{
  ℕ, ◌≡◌, refl, Bool, true, false, [], ◌∷◌, ◌++◌, Option, none, some, ◌==◌, ◌+◌, if◌then◌else◌,
}
use free5gc_workspace.Prelude.Outcome.{returns, panics}
use free5gc_workspace.Text.Decimal.{Bytes, codes, format}
use free5gc_workspace.Metrics.{format_status, get_status}
use free5gc_workspace.Metrics.Nas.{
  GmmMessage, Labels, remove_digit_suffix, incr_metrics_rcv_nas_msg, incr_metrics_sent_nas_msgs,
}
use free5gc_workspace.Metrics.Nas.Safe.{incr_metrics_rcv_nas_msg_counts}
use free5gc_workspace.Prelude.Outcome.{◌>>=◌}
use free5gc_workspace.Metrics.Init.{MetricType, sbi, nas, ngap, InitMetrics, Collector, init}
use free5gc_workspace.Metrics.Init.Plan.{nothing, plan, enabled, register_all}
use free5gc_workspace.Metrics.Init.Ready.{IsReady, Flags, init_enables}

-- A message all of whose pointers are nil.
abbrev blank : GmmMessage
blank = record {
  authentication_request = none;
  authentication_response = none;
  authentication_result = none;
  authentication_failure = none;
  authentication_reject = none;
  registration_request = none;
  registration_accept = none;
  registration_complete = none;
  registration_reject = none;
  ul_nas_transport = none;
  dl_nas_transport = none;
  deregistration_request_ue_originating_deregistration = none;
  deregistration_accept_ue_originating_deregistration = none;
  deregistration_request_ue_terminated_deregistration = none;
  deregistration_accept_ue_terminated_deregistration = none;
  service_request = none;
  service_accept = none;
  service_reject = none;
  configuration_update_command = none;
  configuration_update_complete = none;
  identity_request = none;
  identity_response = none;
  notification = none;
  notification_response = none;
  security_mode_command = none;
  security_mode_complete = none;
  security_mode_reject = none;
  security_protected5gs_nas_message = none;
  status5gmm = none;
}

-- Stand-ins for the texts of the libraries.
abbrev cause_text : ℕ → Bytes
cause_text c = codes "Cause (" ++ (format c ++ codes ")")

format_status_zero : format_status (λ c. codes "X") 0 ≡ codes "500 X"
unfolding format_status format
format_status_zero = refl

remove_digit_suffix_twice :
    remove_digit_suffix (codes "Illegal UE (1) (3)") ≡ codes "Illegal UE (1)"
unfolding remove_digit_suffix
remove_digit_suffix_twice = refl

remove_digit_suffix_none : remove_digit_suffix (codes "Illegal ()") ≡ codes "Illegal ()"
unfolding remove_digit_suffix
remove_digit_suffix_none = refl

counted_reject :
    incr_metrics_rcv_nas_msg cause_text true
      (some (record blank { service_reject = some 7 }))
      none
      (some [])
    ≡ returns (
        (record { name = codes "ServiceReject"; status = codes "failure"; cause = codes "Cause" })
        ∷ [])
unfolding incr_metrics_rcv_nas_msg format
counted_reject = refl

not_counted :
    incr_metrics_sent_nas_msgs cause_text false (codes "ServiceReject") (some true) 7 none
    ≡ returns []
unfolding incr_metrics_sent_nas_msgs
not_counted = refl

nil_cause :
    incr_metrics_rcv_nas_msg cause_text true
      (some (record blank { dl_nas_transport = some none }))
      (some true)
      none
    ≡ panics
unfolding incr_metrics_rcv_nas_msg
nil_cause = refl

incr_metrics_rcv_nas_msg_counts_example :
    (labels : Labels) × (incr_metrics_rcv_nas_msg cause_text true
        (some (record blank { dl_nas_transport = some (some 3) }))
        (some true)
        (some (codes "other"))
      ≡ returns (labels ∷ []))
    × (labels.status ≡ get_status (some true))
    × ((c : ℕ) (s : Bytes) → some (codes "other") ≡ some (c ∷ s) → labels.cause ≡ c ∷ s)
incr_metrics_rcv_nas_msg_counts_example =
    incr_metrics_rcv_nas_msg_counts cause_text
      (some (record blank { dl_nas_transport = some (some 3) })) (some true) (some (codes "other"))
      ((λ h. cc), (λ h. cc))

-- A registry that counts, and takes up to five collectors.
abbrev five : Option Bytes → Collector ℕ → ℕ → Option ℕ
five nf_type metric n = if n == 5 then none else some (n + 1)

abbrev only_nas : MetricType → Bool
only_nas nas = true
only_nas sbi = false
only_nas ngap = false

abbrev amf : InitMetrics ℕ
amf = record {
  nf_name = codes "AMF";
  namespace = codes "free5gc";
  metrics_enabled = only_nas;
  custom_collectors = (7 ∷ 8 ∷ []) ∷ [];
}

init-amf :
    init five amf 0 nothing
    ≡ returns (record nothing { business_enabled = true; nas_enabled = true; nas_set = true }, 4)
unfolding init
init-amf = refl

init_full : init five amf 2 nothing ≡ panics
unfolding init
init_full = refl

nothing-IsReady : IsReady nothing
nothing-IsReady = ((λ h. cc), (λ h. cc), (λ h. cc))

init_enables_example :
    (init five amf 0 nothing
      ≡ (register_all five (plan amf) 0 >>= λ reg'. returns (enabled amf nothing, reg')))
    × IsReady (enabled amf nothing)
    × Flags false true false nothing (enabled amf nothing)
init_enables_example = init_enables five amf 0 nothing nothing-IsReady
