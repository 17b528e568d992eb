-- ===== src/Metrics/Nas/Safe.antt =====
-- When the counting of a received message comes to an end.
use free5gc_workspace.Prelude.{
  ℕ, Bool, true, ◌≡◌, ◌≢◌, refl, ap, List, [], ◌∷◌, Option, none, some, All,
}
use free5gc_workspace.Prelude.Outcome.{returns}
use free5gc_workspace.Text.Decimal.{Bytes}
use free5gc_workspace.Metrics.{get_status}
use free5gc_workspace.Metrics.Nas.{
  GmmMessage, IeFromGmmMessage, Read, Labels, without_cause, with_cause, with_cause_pointer,
  first_case, cases_of, get_message_str_from_gmm_message, chosen_cause, labels_of,
  remove_digit_suffix, incr_metrics_rcv_nas_msg,
}

-- A case that holds gives a value.
abbrev Good : Option (Read IeFromGmmMessage) → Type 0
Good none = Unit {0}
Good (some ie) = (v : IeFromGmmMessage) × (ie ≡ returns v)

without_cause-Good : (name : Bytes) (p : Option (Unit {0})) → Good (without_cause name p)
unfolding without_cause
without_cause-Good name none = tt
without_cause-Good name (some _) = (_, refl)

with_cause-Good : (name : Bytes) (p : Option ℕ) → Good (with_cause name p)
unfolding with_cause
with_cause-Good name none = tt
with_cause-Good name (some c) = (_, refl)

with_cause_pointer-Good :
    (name : Bytes) (p : Option (Option ℕ)) → p ≢ some none → Good (with_cause_pointer name p)
unfolding with_cause_pointer
with_cause_pointer-Good name none h = tt
with_cause_pointer-Good name (some none) h = absurd (h refl)
with_cause_pointer-Good name (some (some c)) h = (_, refl)

first_case-Good :
    (cases : List (Option (Read IeFromGmmMessage)))
    → All Good cases
    → (v : IeFromGmmMessage) × (first_case cases ≡ returns v)
unfolding first_case
first_case-Good [] h = (_, refl)
first_case-Good (none ∷ cases) h = first_case-Good cases h.1
first_case-Good (some ie ∷ cases) h = h.0

-- The two messages whose cause is a pointer have one.
abbrev pub HasCauses : Option GmmMessage → Type 0
HasCauses none = Unit {0}
HasCauses (some m) =
    (m.dl_nas_transport ≢ some none)
    × (m.deregistration_request_ue_terminated_deregistration ≢ some none)

message_named :
    (msg : Option GmmMessage)
    → HasCauses msg
    → (v : IeFromGmmMessage) × (get_message_str_from_gmm_message msg ≡ returns v)
unfolding get_message_str_from_gmm_message cases_of
message_named none h = first_case-Good [] tt
message_named (some m) h = first_case-Good (cases_of m) (
  without_cause-Good _ m.authentication_request,
  (
    without_cause-Good _ m.authentication_response,
    (
      without_cause-Good _ m.authentication_result,
      (
        with_cause-Good _ m.authentication_failure,
        (
          without_cause-Good _ m.authentication_reject,
          (
            without_cause-Good _ m.registration_request,
            (
              without_cause-Good _ m.registration_accept,
              (
                without_cause-Good _ m.registration_complete,
                (
                  with_cause-Good _ m.registration_reject,
                  (
                    without_cause-Good _ m.ul_nas_transport,
                    (
                      with_cause_pointer-Good _ m.dl_nas_transport h.0,
                      (
                        without_cause-Good _ m.deregistration_request_ue_originating_deregistration,
                        (
                          without_cause-Good _
                              m.deregistration_accept_ue_originating_deregistration,
                          (
                            with_cause_pointer-Good _
                                m.deregistration_request_ue_terminated_deregistration h.1,
                            (
                              without_cause-Good _
                                  m.deregistration_accept_ue_terminated_deregistration,
                              (
                                without_cause-Good _ m.service_request,
                                (
                                  without_cause-Good _ m.service_accept,
                                  (
                                    with_cause-Good _ m.service_reject,
                                    (
                                      without_cause-Good _ m.configuration_update_command,
                                      (
                                        without_cause-Good _ m.configuration_update_complete,
                                        (
                                          without_cause-Good _ m.identity_request,
                                          (
                                            without_cause-Good _ m.identity_response,
                                            (
                                              without_cause-Good _ m.notification,
                                              (
                                                without_cause-Good _ m.notification_response,
                                                (
                                                  without_cause-Good _ m.security_mode_command,
                                                  (
                                                    without_cause-Good _ m.security_mode_complete,
                                                    (
                                                      with_cause-Good _ m.security_mode_reject,
                                                      (
                                                        without_cause-Good _
                                                            m.security_protected5gs_nas_message,
                                                        (with_cause-Good _ m.status5gmm, tt),
                                                      ),
                                                    ),
                                                  ),
                                                ),
                                              ),
                                            ),
                                          ),
                                        ),
                                      ),
                                    ),
                                  ),
                                ),
                              ),
                            ),
                          ),
                        ),
                      ),
                    ),
                  ),
                ),
              ),
            ),
          ),
        ),
      ),
    ),
  ),
)

-- Where the metrics are enabled, and neither a DL NAS transport nor a deregistration request to the UE
-- lacks its cause, the counting of a received message increments one counter, labelled with the
-- status of the call and, if a cause is given that is not empty, with that cause.
pub incr_metrics_rcv_nas_msg_counts :
    (cause_5gmm_to_string : ℕ → Bytes) (msg : Option GmmMessage) (is_status_success : Option Bool)
    (cause : Option Bytes)
    → HasCauses msg
    → (labels : Labels) × (incr_metrics_rcv_nas_msg cause_5gmm_to_string true msg is_status_success
          cause
        ≡ returns (labels ∷ []))
      × (labels.status ≡ get_status is_status_success)
      × ((c : ℕ) (s : Bytes) → cause ≡ some (c ∷ s) → labels.cause ≡ c ∷ s)
unfolding incr_metrics_rcv_nas_msg labels_of chosen_cause
incr_metrics_rcv_nas_msg_counts cause_5gmm_to_string msg is_status_success cause h =
    let (v, e) = message_named msg h in
    (
      labels_of cause_5gmm_to_string v is_status_success cause,
      rw e refl,
      refl,
      λ c s given.
          ap (λ x. chosen_cause x (remove_digit_suffix (cause_5gmm_to_string v.cause))) given,
    )
