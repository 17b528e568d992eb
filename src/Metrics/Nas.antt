-- ===== src/Metrics/Nas.antt =====
-- lib/util/metrics/nas/message.go. A message is what the source reads of the NAS library's structure:
-- which pointers are nil, and the cause of the messages that it takes one from. The two functions
-- that count give the labels of the counter that is incremented, if one is.
pub mod Safe
use free5gc_workspace.Prelude.{
  ℕ, Bool, true, false, ◌||◌, List, [], ◌∷◌, Option, none, some, ◌==◌, if◌then◌else◌,
}
use free5gc_workspace.Prelude.Outcome.{Outcome, returns, fails, panics, ◌>>=◌}
use free5gc_workspace.Text.Decimal.{Bytes, codes, is_digit}
use free5gc_workspace.Text.Regex.{Regex, one_of, seq, star, matches}
use free5gc_workspace.Text.Regex.Forms.{lit, plus}
use free5gc_workspace.Metrics.{get_status}

-- `nas.GmmMessage`: a message is a pointer that may be nil. Of a message with a cause the cause is
-- kept, which is a value in some of them and a pointer in two.
pub record GmmMessage : Type 0 where
  pub authentication_request : Option (Unit {0})
  pub authentication_response : Option (Unit {0})
  pub authentication_result : Option (Unit {0})
  pub authentication_failure : Option ℕ
  pub authentication_reject : Option (Unit {0})
  pub registration_request : Option (Unit {0})
  pub registration_accept : Option (Unit {0})
  pub registration_complete : Option (Unit {0})
  pub registration_reject : Option ℕ
  pub ul_nas_transport : Option (Unit {0})
  pub dl_nas_transport : Option (Option ℕ)
  pub deregistration_request_ue_originating_deregistration : Option (Unit {0})
  pub deregistration_accept_ue_originating_deregistration : Option (Unit {0})
  pub deregistration_request_ue_terminated_deregistration : Option (Option ℕ)
  pub deregistration_accept_ue_terminated_deregistration : Option (Unit {0})
  pub service_request : Option (Unit {0})
  pub service_accept : Option (Unit {0})
  pub service_reject : Option ℕ
  pub configuration_update_command : Option (Unit {0})
  pub configuration_update_complete : Option (Unit {0})
  pub identity_request : Option (Unit {0})
  pub identity_response : Option (Unit {0})
  pub notification : Option (Unit {0})
  pub notification_response : Option (Unit {0})
  pub security_mode_command : Option (Unit {0})
  pub security_mode_complete : Option (Unit {0})
  pub security_mode_reject : Option ℕ
  pub security_protected5gs_nas_message : Option (Unit {0})
  pub status5gmm : Option ℕ

pub record IeFromGmmMessage : Type 0 where
  pub nas_message_type : Bytes
  pub cause : ℕ

abbrev pub Read : Type 0 → Type 0
Read = Outcome (Unit {0})

unfoldable pub without_cause : Bytes → Option (Unit {0}) → Option (Read IeFromGmmMessage)
without_cause name none = none
without_cause name (some _) = some (returns (record { nas_message_type = name; cause = 0 }))

unfoldable pub with_cause : Bytes → Option ℕ → Option (Read IeFromGmmMessage)
with_cause name none = none
with_cause name (some c) = some (returns (record { nas_message_type = name; cause = c }))

-- The pointer to the cause is followed.
unfoldable pub with_cause_pointer : Bytes → Option (Option ℕ) → Option (Read IeFromGmmMessage)
with_cause_pointer name none = none
with_cause_pointer name (some none) = some panics
with_cause_pointer name (some (some c)) =
    some (returns (record { nas_message_type = name; cause = c }))

-- The switch: the first case that holds.
unfoldable pub first_case : List (Option (Read IeFromGmmMessage)) → Read IeFromGmmMessage
first_case [] = returns (record { nas_message_type = codes "Unknown gmm message"; cause = 0 })
first_case (none ∷ cases) = first_case cases
first_case (some ie ∷ cases) = ie

unfoldable pub cases_of : GmmMessage → List (Option (Read IeFromGmmMessage))
unfolding without_cause with_cause with_cause_pointer
cases_of m =
    without_cause (codes "AuthenticationRequest") m.authentication_request
    ∷ without_cause (codes "AuthenticationResponse") m.authentication_response
    ∷ without_cause (codes "AuthenticationResult") m.authentication_result
    ∷ with_cause (codes "AuthenticationFailure") m.authentication_failure
    ∷ without_cause (codes "AuthenticationReject") m.authentication_reject
    ∷ without_cause (codes "RegistrationRequest") m.registration_request
    ∷ without_cause (codes "RegistrationAccept") m.registration_accept
    ∷ without_cause (codes "RegistrationComplete") m.registration_complete
    ∷ with_cause (codes "RegistrationReject") m.registration_reject
    ∷ without_cause (codes "ULNASTransport") m.ul_nas_transport
    ∷ with_cause_pointer (codes "DLNASTransport") m.dl_nas_transport
    ∷ without_cause (codes "DeregistrationRequestUEOriginatingDeregistration")
        m.deregistration_request_ue_originating_deregistration
    ∷ without_cause (codes "DeregistrationAcceptUEOriginatingDeregistration")
        m.deregistration_accept_ue_originating_deregistration
    ∷ with_cause_pointer (codes "DeregistrationRequestUETerminatedDeregistration")
        m.deregistration_request_ue_terminated_deregistration
    ∷ without_cause (codes "DeregistrationAcceptUETerminatedDeregistration")
        m.deregistration_accept_ue_terminated_deregistration
    ∷ without_cause (codes "ServiceRequest") m.service_request
    ∷ without_cause (codes "ServiceAccept") m.service_accept
    ∷ with_cause (codes "ServiceReject") m.service_reject
    ∷ without_cause (codes "ConfigurationUpdateCommand") m.configuration_update_command
    ∷ without_cause (codes "ConfigurationUpdateComplete") m.configuration_update_complete
    ∷ without_cause (codes "IdentityRequest") m.identity_request
    ∷ without_cause (codes "IdentityResponse") m.identity_response
    ∷ without_cause (codes "Notification") m.notification
    ∷ without_cause (codes "NotificationResponse") m.notification_response
    ∷ without_cause (codes "SecurityModeCommand") m.security_mode_command
    ∷ without_cause (codes "SecurityModeComplete") m.security_mode_complete
    ∷ with_cause (codes "SecurityModeReject") m.security_mode_reject
    ∷ without_cause (codes "SecurityProtected5GSNASMessage") m.security_protected5gs_nas_message
    ∷ with_cause (codes "Status5GMM") m.status5gmm
    ∷ []

-- A nil `*nas.Message`, and one whose `GmmMessage` is nil, are `none`.
unfoldable pub get_message_str_from_gmm_message : Option GmmMessage → Read IeFromGmmMessage
unfolding first_case cases_of
get_message_str_from_gmm_message none = first_case []
get_message_str_from_gmm_message (some m) = first_case (cases_of m)

-- `\s*\(\d+\)$`
abbrev pub suffix_re : Regex
suffix_re =
    seq (star (one_of (λ c. c == b' ' || (c == 9 || (c == 10 || (c == 12 || c == 13))))))
      (seq (lit (codes "(")) (seq (plus (one_of is_digit)) (lit (codes ")"))))

-- The match that starts first reaches to the end of the text.
unfoldable pub remove_digit_suffix : Bytes → Bytes
unfolding matches
remove_digit_suffix [] = []
remove_digit_suffix (c ∷ s) =
    let rest = remove_digit_suffix s in if matches suffix_re (c ∷ s) then [] else c ∷ rest

-- The labels of a counter.
pub record Labels : Type 0 where
  pub name : Bytes
  pub status : Bytes
  pub cause : Bytes

-- A text that is given and not empty goes before.
unfoldable pub chosen_cause : Option Bytes → Bytes → Bytes
chosen_cause none text = text
chosen_cause (some []) text = text
chosen_cause (some (c ∷ s)) text = c ∷ s

unfoldable pub other_or_empty : Option Bytes → Bytes
other_or_empty none = []
other_or_empty (some text) = text

-- `nasMessage.Cause5GMMToString` is an argument.
module _ (cause_5gmm_to_string : ℕ → Bytes) where
  unfoldable pub labels_of : IeFromGmmMessage → Option Bool → Option Bytes → Labels
  unfolding remove_digit_suffix chosen_cause get_status
  labels_of ie is_status_success cause = record {
    name = ie.nas_message_type;
    status = get_status is_status_success;
    cause = chosen_cause cause (remove_digit_suffix (cause_5gmm_to_string ie.cause));
  }

  unfoldable pub incr_metrics_rcv_nas_msg :
      Bool → Option GmmMessage → Option Bool → Option Bytes → Read (List Labels)
  unfolding get_message_str_from_gmm_message labels_of
  incr_metrics_rcv_nas_msg false msg is_status_success cause = returns []
  incr_metrics_rcv_nas_msg true msg is_status_success cause = do
    ie ← get_message_str_from_gmm_message msg
    returns (labels_of ie is_status_success cause ∷ [])

  unfoldable pub incr_metrics_sent_nas_msgs :
      Bool → Bytes → Option Bool → ℕ → Option Bytes → Read (List Labels)
  unfolding remove_digit_suffix get_status other_or_empty
  incr_metrics_sent_nas_msgs false msg_type is_status_success cause_5gmm other_cause = returns []
  incr_metrics_sent_nas_msgs true msg_type is_status_success cause_5gmm other_cause = returns (
      (record {
        name = msg_type;
        status = get_status is_status_success;
        cause =
            if cause_5gmm == 0
            then other_or_empty other_cause
            else remove_digit_suffix (cause_5gmm_to_string cause_5gmm);
      })
      ∷ [])
