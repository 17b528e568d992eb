-- ===== src/Metrics/Init.antt =====
-- lib/util/metrics: Init of metrics.go with the collectors of the packages sbi, nas and ngap, whose
-- help texts and buckets are left out. The package variables are one state. A custom collector is
-- a value of its own; what the registry makes of a collector is an argument, and `none` where
-- `MustRegister` panics.
pub mod Plan
pub mod Ready
use free5gc_workspace.Prelude.{
  ℕ, Bool, true, false, List, [], ◌∷◌, ◌++◌, Option, none, some, if◌then◌else◌,
}
use free5gc_workspace.Prelude.Outcome.{Outcome, returns, fails, panics, ◌>>=◌}
use free5gc_workspace.Text.Decimal.{Bytes, codes}

pub data Kind : Type 0 where
  counter histogram : Kind

-- What `NewCounterVec` and `NewHistogramVec` are called with.
pub record Vec : Type 0 where
  pub kind : Kind
  pub namespace : Bytes
  pub subsystem : Bytes
  pub name : Bytes
  pub label_names : List Bytes

-- The flags that enable the counting, and whether the variables for the counters are set.
pub record Globals : Type 0 where
  pub business_enabled : Bool
  pub sbi_enabled : Bool
  pub nas_enabled : Bool
  pub ngap_enabled : Bool
  pub sbi_outbound_set : Bool
  pub sbi_inbound_set : Bool
  pub nas_set : Bool
  pub ngap_set : Bool

unfoldable pub get_sbi_outbound_metrics : Bytes → Globals → Globals × List Vec
get_sbi_outbound_metrics namespace g = (
  record g { sbi_outbound_set = true },
  (record {
    kind = counter;
    namespace = namespace;
    subsystem = codes "sbi";
    name = codes "outbound_request_total";
    label_names = codes "target_service_name" ∷ codes "status_code" ∷ codes "method" ∷ [];
  })
      ∷ (record {
        kind = histogram;
        namespace = namespace;
        subsystem = codes "sbi";
        name = codes "outbound_request_duration_seconds";
        label_names = codes "method" ∷ codes "target_service_name" ∷ codes "status_code" ∷ [];
      })
      ∷ [],
)

unfoldable pub get_sbi_inbound_metrics : Bytes → Globals → Globals × List Vec
get_sbi_inbound_metrics namespace g = (
  record g { sbi_inbound_set = true },
  (record {
    kind = counter;
    namespace = namespace;
    subsystem = codes "sbi";
    name = codes "inbound_request_total";
    label_names = codes "status_code" ∷ codes "method" ∷ codes "cause" ∷ codes "path" ∷ [];
  })
      ∷ (record {
        kind = histogram;
        namespace = namespace;
        subsystem = codes "sbi";
        name = codes "inbound_request_duration_seconds";
        label_names = codes "method" ∷ codes "path" ∷ codes "status_code" ∷ [];
      })
      ∷ [],
)

-- A counter for messages, by name, status and cause.
message_counter : Bytes → Bytes → Bytes → Vec
message_counter namespace subsystem name = record {
  kind = counter;
  namespace = namespace;
  subsystem = subsystem;
  name = name;
  label_names = codes "name" ∷ codes "status" ∷ codes "cause" ∷ [];
}

unfoldable pub get_nas_handler_metrics : Bytes → Globals → Globals × List Vec
unfolding message_counter
get_nas_handler_metrics namespace g = (
  record g { nas_set = true },
  message_counter namespace (codes "nas") (codes "msg_received_total")
      ∷ message_counter namespace (codes "nas") (codes "nas_msg_sent_total")
      ∷ [],
)

unfoldable pub get_ngap_handler_metrics : Bytes → Globals → Globals × List Vec
unfolding message_counter
get_ngap_handler_metrics namespace g = (
  record g { ngap_set = true },
  message_counter namespace (codes "ngap") (codes "msg_received_total")
      ∷ message_counter namespace (codes "ngap") (codes "msg_sent_total")
      ∷ [],
)

pub data MetricType : Type 0 where
  sbi nas ngap : MetricType

-- `InitMetrics`, of whose configuration the namespace is kept. A type that is missing in the map is
-- not enabled. The custom collectors are in the order in which the loop over their map meets them.
pub record InitMetrics (C : Type 0) : Type 0 where
  pub nf_name : Bytes
  pub namespace : Bytes
  pub metrics_enabled : MetricType → Bool
  pub custom_collectors : List (List C)

pub data Collector (C : Type 0) : Type 0 where
  custom : C → Collector C
  vec : Vec → Collector C

abbrev pub vecs : {C : Type 0} → List Vec → List (Collector C)
vecs [] = []
vecs (v ∷ vs) = vec v ∷ vecs vs

abbrev pub customs : {C : Type 0} → List C → List (Collector C)
customs [] = []
customs (c ∷ cs) = custom c ∷ customs cs

-- The registry takes a collector with the label `nf_type`, or without a label.
module _ {C R : Type 0} (register : Option Bytes → Collector C → R → Option R) where
  abbrev pub Step : Type 0
  Step = Outcome (Unit {0}) R

  unfoldable pub registered : Option R → Step
  registered none = panics
  registered (some reg) = returns reg

  unfoldable pub init_metric : Option Bytes → List (Collector C) → R → Step
  unfolding registered
  init_metric nf_type [] reg = returns reg
  init_metric nf_type (metric ∷ metrics) reg = do
    reg' ← registered (register nf_type metric reg)
    init_metric nf_type metrics reg'

  unfoldable pub init_customs : List (List C) → R → Step
  unfolding init_metric
  init_customs [] reg = returns reg
  init_customs (collectors ∷ rest) reg = do
    reg' ← init_metric none (customs collectors) reg
    init_customs rest reg'

  abbrev pub Added : Type 0
  Added = Outcome (Unit {0}) (Globals × R)

  unfoldable pub add_sbi_to_registry : Bytes → Bytes → Globals → R → Added
  unfolding get_sbi_outbound_metrics get_sbi_inbound_metrics init_metric
  add_sbi_to_registry nf_name namespace g reg = do
    let (g1, outbound) = get_sbi_outbound_metrics namespace g
    let (g2, inbound) = get_sbi_inbound_metrics namespace g1
    reg' ← init_metric (some nf_name) (vecs (outbound ++ inbound)) reg
    returns (record g2 { sbi_enabled = true }, reg')

  unfoldable pub add_nas_to_registry : Bytes → Bytes → Globals → R → Added
  unfolding get_nas_handler_metrics init_metric
  add_nas_to_registry nf_name namespace g reg = do
    let (g1, metrics) = get_nas_handler_metrics namespace g
    reg' ← init_metric (some nf_name) (vecs metrics) reg
    returns (record g1 { nas_enabled = true }, reg')

  unfoldable pub add_ngap_to_registry : Bytes → Bytes → Globals → R → Added
  unfolding get_ngap_handler_metrics init_metric
  add_ngap_to_registry nf_name namespace g reg = do
    let (g1, metrics) = get_ngap_handler_metrics namespace g
    reg' ← init_metric (some nf_name) (vecs metrics) reg
    returns (record g1 { ngap_enabled = true }, reg')

  unfoldable pub enable_business : List (List C) → Globals → Globals
  enable_business [] g = g
  enable_business (c ∷ cs) g = record g { business_enabled = true }

  -- A part of `Init` that runs if its type is enabled.
  unfoldable pub when : Bool → (Globals → R → Added) → Globals × R → Added
  when false add (g, reg) = returns (g, reg)
  when true add (g, reg) = add g reg

  -- `Init`, from the new registry.
  unfoldable pub init : InitMetrics C → R → Globals → Added
  unfolding init_customs add_sbi_to_registry add_nas_to_registry add_ngap_to_registry
      enable_business when
  init m reg g = do
    reg' ← init_customs m.custom_collectors reg
    after_sbi ←
        when (m.metrics_enabled sbi) (add_sbi_to_registry m.nf_name m.namespace)
          (enable_business m.custom_collectors g, reg')
    after_nas ← when (m.metrics_enabled nas) (add_nas_to_registry m.nf_name m.namespace) after_sbi
    when (m.metrics_enabled ngap) (add_ngap_to_registry m.nf_name m.namespace) after_nas
