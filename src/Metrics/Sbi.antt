-- ===== src/Metrics/Sbi.antt =====
-- lib/util/metrics/sbi and lib/util/metrics/middleware.go: the counting of requests. A function gives
-- what the collectors are called with. A duration is of any type; `http.StatusText` is an argument.
use free5gc_workspace.Prelude.{
  ℕ, Bool, true, false, List, [], ◌∷◌, ◌++◌, Option, none, some, if◌then◌else◌,
}
use free5gc_workspace.Prelude.Outcome.{Outcome, returns, fails, panics, ◌>>=◌}
use free5gc_workspace.Text.Decimal.{Bytes, codes}
use free5gc_workspace.Metrics.{format_status}
use free5gc_workspace.Metrics.Init.{Globals}
pub mod Balance
mod Tests

pub data Target : Type 0 where
  outbound_counter outbound_duration inbound_counter inbound_duration : Target

-- A call of a collector with its labels: one more for a counter, a duration for a histogram.
pub record Sample (D : Type 0) : Type 0 where
  pub target : Target
  pub labels : List (Bytes × Bytes)
  pub duration : Option D

-- The request and its answer as the middleware reads them from gin's context.
pub record Context : Type 0 where
  pub method : Bytes
  pub full_path : Bytes
  pub url_path : Bytes
  pub status : ℕ
  pub problem : Bytes

unfoldable pub path_label : Bytes → Bytes → Bytes
path_label [] url_path = url_path
path_label (c ∷ s) url_path = c ∷ s

-- The durations are of the type `D`.
module _ (D : Type 0) (status_text : ℕ → Bytes) (g : Globals) where
  abbrev pub Counted : Type 0
  Counted = Outcome (Unit {0}) (List (Sample D))

  -- A call through a variable, which panics while that is nil; nothing while counting is off.
  unfoldable pub sample : Bool → Sample D → Counted
  sample is_set s =
      if g.sbi_enabled then (if is_set then returns (s ∷ []) else panics) else returns []

  unfoldable pub incr_inbound_req_counter : Bytes → Bytes → ℕ → Bytes → Counted
  unfolding sample format_status
  incr_inbound_req_counter method path status_code cause = sample g.sbi_inbound_set (record {
    target = inbound_counter;
    labels =
        (codes "status_code", format_status status_text status_code)
        ∷ (codes "method", method)
        ∷ (codes "cause", cause)
        ∷ (codes "path", path)
        ∷ [];
    duration = none;
  })

  unfoldable pub incr_inbound_req_duration_counter : Bytes → Bytes → ℕ → D → Counted
  unfolding sample format_status
  incr_inbound_req_duration_counter method path status_code duration =
      sample g.sbi_inbound_set (record {
        target = inbound_duration;
        labels =
            (codes "path", path)
            ∷ (codes "method", method)
            ∷ (codes "status_code", format_status status_text status_code)
            ∷ [];
        duration = some duration;
      })

  unfoldable pub incr_outbound_req_counter : Bytes → Bytes → ℕ → Counted
  unfolding sample format_status
  incr_outbound_req_counter method service_name status_code = sample g.sbi_outbound_set (record {
    target = outbound_counter;
    labels =
        (codes "target_service_name", service_name)
        ∷ (codes "status_code", format_status status_text status_code)
        ∷ (codes "method", method)
        ∷ [];
    duration = none;
  })

  unfoldable pub incr_outbound_req_duration_counter : Bytes → Bytes → ℕ → D → Counted
  unfolding sample format_status
  incr_outbound_req_duration_counter method service_name status_code duration =
      sample g.sbi_outbound_set (record {
        target = outbound_duration;
        labels =
            (codes "target_service_name", service_name)
            ∷ (codes "method", method)
            ∷ (codes "status_code", format_status status_text status_code)
            ∷ [];
        duration = some duration;
      })

  unfoldable pub sbi_metric_hook : Bytes → Bytes → ℕ → D → Counted
  unfolding incr_outbound_req_counter incr_outbound_req_duration_counter
  sbi_metric_hook method service_name status_code duration = do
    counted ← incr_outbound_req_counter method service_name status_code
    timed ← incr_outbound_req_duration_counter method service_name status_code duration
    returns (counted ++ timed)

  -- `InboundMetrics`: `next` is what `c.Next()` makes of the context, and `elapsed` how long it takes.
  unfoldable pub inbound_metrics :
      (Context → Outcome (Unit {0}) Context)
      → D
      → Context
      → Outcome (Unit {0}) (Context × List (Sample D))
  unfolding incr_inbound_req_counter incr_inbound_req_duration_counter path_label
  inbound_metrics next elapsed before = do
    c ← next before
    let path = path_label c.full_path c.url_path
    counted ← incr_inbound_req_counter c.method path c.status c.problem
    timed ← incr_inbound_req_duration_counter c.method path c.status elapsed
    returns (c, counted ++ timed)
