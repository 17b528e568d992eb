-- ===== src/Metrics/Sbi/Balance.antt =====
-- The counting of requests once Init has enabled it.
use free5gc_workspace.Prelude.{ℕ, ◌≡◌, refl, true, [], ◌∷◌, none, some}
use free5gc_workspace.Prelude.Outcome.{Outcome, returns, ◌>>=◌}
use free5gc_workspace.Text.Decimal.{Bytes, codes}
use free5gc_workspace.Metrics.{format_status}
use free5gc_workspace.Metrics.Init.{Globals}
use free5gc_workspace.Metrics.Init.Ready.{IsReady}
use free5gc_workspace.Metrics.Sbi.{
  Context, inbound_counter, inbound_duration, path_label, sample, incr_inbound_req_counter,
  incr_inbound_req_duration_counter, inbound_metrics,
}

-- In variables that are ready and with counting enabled, a request that the handlers answer is
-- counted once and timed once, with the same method, path and status in both; a request whose
-- handlers panic is neither.
pub inbound_metrics_once :
    {D : Type 0} (status_text : ℕ → Bytes) (g : Globals)
    (next : Context → Outcome (Unit {0}) Context) (elapsed : D) (before : Context)
    → IsReady g
    → g.sbi_enabled ≡ true
    → inbound_metrics D status_text g next elapsed before ≡ (
        next before >>= λ c.
        let path = path_label c.full_path c.url_path in
        let status = format_status status_text c.status in
        returns (
          c,
          (record {
            target = inbound_counter;
            labels =
                (codes "status_code", status)
                ∷ (codes "method", c.method)
                ∷ (codes "cause", c.problem)
                ∷ (codes "path", path)
                ∷ [];
            duration = none;
          })
              ∷ (record {
                target = inbound_duration;
                labels =
                    (codes "path", path)
                    ∷ (codes "method", c.method)
                    ∷ (codes "status_code", status)
                    ∷ [];
                duration = some elapsed;
              })
              ∷ [],
        ))
unfolding inbound_metrics incr_inbound_req_counter incr_inbound_req_duration_counter sample
inbound_metrics_once status_text g next elapsed before ready on =
    let set = (ready.0 on).1 in rw (on, set) refl
