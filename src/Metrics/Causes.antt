-- ===== src/Metrics/Causes.antt =====
-- lib/util/metrics/ngap/error_message.go. The constants of the NGAP library are arguments: for each
-- kind of cause the value of the constant with a name. A pointer that may be nil is an option.
pub mod Labels
mod Tests
use free5gc_workspace.Prelude.{
  ℕ, Bool, true, false, List, [], ◌∷◌, ◌++◌, Option, none, some, ◌==◌, if◌then◌else◌,
}
use free5gc_workspace.Prelude.Outcome.{Outcome, returns, fails, panics, ◌>>=◌}
use free5gc_workspace.Text.Decimal.{Bytes, codes}

pub record Constants : Type 0 where
  pub cause_present : Bytes → ℕ
  pub radio_network : Bytes → ℕ
  pub transport : Bytes → ℕ
  pub nas : Bytes → ℕ
  pub protocol : Bytes → ℕ
  pub misc : Bytes → ℕ

-- `ngapType.Cause`: which member is set, and the value of each member.
pub record Cause : Type 0 where
  pub present : ℕ
  pub radio_network : Option ℕ
  pub transport : Option ℕ
  pub nas : Option ℕ
  pub protocol : Option ℕ
  pub misc : Option ℕ

-- The cases of each switch: the name of the constant behind its prefix, and the label returned.
abbrev pub radio_network_cases : List (Bytes × Bytes)
radio_network_cases =
    (codes "Unspecified", codes "RadioNetwork : Unspecified")
    ∷ (codes "TxnrelocoverallExpiry", codes "RadioNetwork : TxnrelocoverallExpiry")
    ∷ (codes "SuccessfulHandover", codes "RadioNetwork : SuccessfulHandover")
    ∷ (
      codes "ReleaseDueToNgranGeneratedReason",
      codes "RadioNetwork : ReleaseDueToNgranGeneratedReason",
    )
    ∷ (
      codes "ReleaseDueTo5gcGeneratedReason",
      codes "RadioNetwork : ReleaseDueTo5gcGeneratedReason",
    )
    ∷ (codes "HandoverCancelled", codes "RadioNetwork : HandoverCancelled")
    ∷ (codes "PartialHandover", codes "RadioNetwork : PartialHandover")
    ∷ (
      codes "HoFailureInTarget5GCNgranNodeOrTargetSystem",
      codes "RadioNetwork : HoFailureInTarget5GCNgranNodeOrTargetSystem",
    )
    ∷ (codes "HoTargetNotAllowed", codes "RadioNetwork : HoTargetNotAllowed")
    ∷ (codes "TngrelocoverallExpiry", codes "RadioNetwork : TngrelocoverallExpiry")
    ∷ (codes "TngrelocprepExpiry", codes "RadioNetwork : TngrelocprepExpiry")
    ∷ (codes "CellNotAvailable", codes "RadioNetwork : CellNotAvailable")
    ∷ (codes "UnknownTargetID", codes "RadioNetwork : UnknownTargetID")
    ∷ (
      codes "NoRadioResourcesAvailableInTargetCell",
      codes "RadioNetwork : NoRadioResourcesAvailableInTargetCell",
    )
    ∷ (codes "UnknownLocalUENGAPID", codes "RadioNetwork : UnknownLocalUENGAPID")
    ∷ (codes "InconsistentRemoteUENGAPID", codes "RadioNetwork : InconsistentRemoteUENGAPID")
    ∷ (
      codes "HandoverDesirableForRadioReason",
      codes "RadioNetwork : HandoverDesirableForRadioReason",
    )
    ∷ (codes "TimeCriticalHandover", codes "RadioNetwork : TimeCriticalHandover")
    ∷ (codes "ResourceOptimisationHandover", codes "RadioNetwork : ResourceOptimisationHandover")
    ∷ (codes "ReduceLoadInServingCell", codes "RadioNetwork : ReduceLoadInServingCell")
    ∷ (codes "UserInactivity", codes "RadioNetwork : UserInactivity")
    ∷ (codes "RadioConnectionWithUeLost", codes "RadioNetwork : RadioConnectionWithUeLost")
    ∷ (codes "RadioResourcesNotAvailable", codes "RadioNetwork : RadioResourcesNotAvailable")
    ∷ (codes "InvalidQosCombination", codes "RadioNetwork : InvalidQosCombination")
    ∷ (
      codes "FailureInRadioInterfaceProcedure",
      codes "RadioNetwork : FailureInRadioInterfaceProcedure",
    )
    ∷ (codes "InteractionWithOtherProcedure", codes "RadioNetwork : InteractionWithOtherProcedure")
    ∷ (codes "UnknownPDUSessionID", codes "RadioNetwork : UnknownPDUSessionID")
    ∷ (codes "UnkownQosFlowID", codes "RadioNetwork : UnkownQosFlowID")
    ∷ (codes "MultiplePDUSessionIDInstances", codes "RadioNetwork : MultiplePDUSessionIDInstances")
    ∷ (codes "MultipleQosFlowIDInstances", codes "RadioNetwork : MultipleQosFlowIDInstances")
    ∷ (
      codes "EncryptionAndOrIntegrityProtectionAlgorithmsNotSupported",
      codes "RadioNetwork : EncryptionAndOrIntegrityProtectionAlgorithmsNotSupported",
    )
    ∷ (
      codes "NgIntraSystemHandoverTriggered",
      codes "RadioNetwork : NgIntraSystemHandoverTriggered",
    )
    ∷ (
      codes "NgInterSystemHandoverTriggered",
      codes "RadioNetwork : NgInterSystemHandoverTriggered",
    )
    ∷ (codes "XnHandoverTriggered", codes "RadioNetwork : XnHandoverTriggered")
    ∷ (codes "NotSupported5QIValue", codes "RadioNetwork : NotSupported5QIValue")
    ∷ (codes "UeContextTransfer", codes "RadioNetwork : UeContextTransfer")
    ∷ (
      codes "ImsVoiceEpsFallbackOrRatFallbackTriggered",
      codes "RadioNetwork : ImsVoiceEpsFallbackOrRatFallbackTriggered",
    )
    ∷ (
      codes "UpIntegrityProtectionNotPossible",
      codes "RadioNetwork : UpIntegrityProtectionNotPossible",
    )
    ∷ (
      codes "UpConfidentialityProtectionNotPossible",
      codes "RadioNetwork : UpConfidentialityProtectionNotPossible",
    )
    ∷ (codes "SliceNotSupported", codes "RadioNetwork : SliceNotSupported")
    ∷ (
      codes "UeInRrcInactiveStateNotReachable",
      codes "RadioNetwork : UeInRrcInactiveStateNotReachable",
    )
    ∷ (codes "Redirection", codes "RadioNetwork : Redirection")
    ∷ (
      codes "ResourcesNotAvailableForTheSlice",
      codes "RadioNetwork : ResourcesNotAvailableForTheSlice",
    )
    ∷ (
      codes "UeMaxIntegrityProtectedDataRateReason",
      codes "RadioNetwork : UeMaxIntegrityProtectedDataRateReason",
    )
    ∷ (
      codes "ReleaseDueToCnDetectedMobility",
      codes "RadioNetwork : ReleaseDueToCnDetectedMobility",
    )
    ∷ (codes "N26InterfaceNotAvailable", codes "RadioNetwork : N26InterfaceNotAvailable")
    ∷ (codes "ReleaseDueToPreEmption", codes "RadioNetwork : ReleaseDueToPreEmption")
    ∷ []

abbrev pub transport_cases : List (Bytes × Bytes)
transport_cases =
    (codes "TransportResourceUnavailable", codes "Transport : TransportResourceUnavailable")
    ∷ (codes "Unspecified", codes "Transport : Unspecified")
    ∷ []

abbrev pub nas_cases : List (Bytes × Bytes)
nas_cases =
    (codes "NormalRelease", codes "Nas : NormalRelease")
    ∷ (codes "AuthenticationFailure", codes "Nas : AuthenticationFailure")
    ∷ (codes "Deregister", codes "Nas : Deregister")
    ∷ (codes "Unspecified", codes "Nas : Unspecified")
    ∷ []

abbrev pub protocol_cases : List (Bytes × Bytes)
protocol_cases =
    (codes "TransferSyntaxError", codes "Protocol : TransferSyntaxError")
    ∷ (codes "AbstractSyntaxErrorReject", codes "Protocol : AbstractSyntaxErrorReject")
    ∷ (
      codes "AbstractSyntaxErrorIgnoreAndNotify",
      codes "Protocol : AbstractSyntaxErrorIgnoreAndNotify",
    )
    ∷ (
      codes "MessageNotCompatibleWithReceiverState",
      codes "Protocol : MessageNotCompatibleWithReceiverState",
    )
    ∷ (codes "SemanticError", codes "Protocol : SemanticError")
    ∷ (
      codes "AbstractSyntaxErrorFalselyConstructedMessage",
      codes "Protocol : AbstractSyntaxErrorFalselyConstructedMessage",
    )
    ∷ (codes "Unspecified", codes "Protocol : Unspecified")
    ∷ []

abbrev pub misc_cases : List (Bytes × Bytes)
misc_cases =
    (codes "ControlProcessingOverload", codes "Misc : ControlProcessingOverload")
    ∷ (
      codes "NotEnoughUserPlaneProcessingResources",
      codes "Misc : NotEnoughUserPlaneProcessingResources",
    )
    ∷ (codes "HardwareFailure", codes "Misc : HardwareFailure")
    ∷ (codes "OmIntervention", codes "Misc : OmIntervention")
    ∷ (codes "UnknownPLMN", codes "Misc : UnknownPLMN")
    ∷ (codes "Unspecified", codes "Misc : Unspecified")
    ∷ []

abbrev pub unknown_cause : Bytes
unknown_cause = codes "unknown cause"

-- `UNKNOWN_NGAP_TYPE_CAUSE_ERR`
abbrev pub unknown_type : Bytes
unknown_type = codes "unknown ngapType.Cause"

-- A switch over the constants of these cases.
unfoldable pub switch : (Bytes → ℕ) → List (Bytes × Bytes) → ℕ → Bytes
switch constant [] value = unknown_cause
switch constant ((name, label) ∷ cases) value =
    let rest = switch constant cases value in if value == constant name then label else rest

-- The value is read through the pointer.
unfoldable pub read_through : Option ℕ → (ℕ → Bytes) → Outcome (Unit {0}) Bytes
read_through none f = panics
read_through (some value) f = returns (f value)

-- `getCauseChoiceExtensionsErrorStr`
abbrev pub choice_extensions_text : Bytes
choice_extensions_text = codes "ChoiceExtensions : Unknown error"

module _ (k : Constants) where
  unfoldable pub get_cause_radio_network_error_str : Option ℕ → Outcome (Unit {0}) Bytes
  unfolding read_through switch
  get_cause_radio_network_error_str cause =
      read_through cause (switch k.radio_network radio_network_cases)

  unfoldable pub get_cause_transport_error_str : Option ℕ → Outcome (Unit {0}) Bytes
  unfolding read_through switch
  get_cause_transport_error_str cause = read_through cause (switch k.transport transport_cases)

  unfoldable pub get_cause_nas_error_str : Option ℕ → Outcome (Unit {0}) Bytes
  unfolding read_through switch
  get_cause_nas_error_str cause = read_through cause (switch k.nas nas_cases)

  unfoldable pub get_cause_protocol_error_str : Option ℕ → Outcome (Unit {0}) Bytes
  unfolding read_through switch
  get_cause_protocol_error_str cause = read_through cause (switch k.protocol protocol_cases)

  unfoldable pub get_cause_misc_error_str : Option ℕ → Outcome (Unit {0}) Bytes
  unfolding read_through switch
  get_cause_misc_error_str cause = read_through cause (switch k.misc misc_cases)

  -- A nil pointer is `none`.
  unfoldable pub get_cause_error_str : Option Cause → Outcome (Unit {0}) Bytes
  unfolding get_cause_radio_network_error_str get_cause_transport_error_str get_cause_nas_error_str
      get_cause_protocol_error_str get_cause_misc_error_str
  get_cause_error_str none = returns unknown_type
  get_cause_error_str (some c) =
      if c.present == k.cause_present (codes "RadioNetwork")
      then get_cause_radio_network_error_str c.radio_network
      else if c.present == k.cause_present (codes "Transport")
      then get_cause_transport_error_str c.transport
      else if c.present == k.cause_present (codes "Nas")
      then get_cause_nas_error_str c.nas
      else if c.present == k.cause_present (codes "Protocol")
      then get_cause_protocol_error_str c.protocol
      else if c.present == k.cause_present (codes "Misc")
      then get_cause_misc_error_str c.misc
      else if c.present == k.cause_present (codes "ChoiceExtensions")
      then returns choice_extensions_text
      else returns unknown_type
