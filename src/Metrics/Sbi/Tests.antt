-- ===== src/Metrics/Sbi/Tests.antt =====
-- A request that is counted, and the theorem at it.
use free5gc_workspace.Prelude.{ℕ, ◌≡◌, refl, true, [], ◌∷◌, none, some}
use free5gc_workspace.Prelude.Outcome.{returns, panics}
use free5gc_workspace.Text.Decimal.{Bytes, codes, format}
use free5gc_workspace.Metrics.{format_status}
use free5gc_workspace.Metrics.Init.{Globals}
use free5gc_workspace.Metrics.Init.Plan.{nothing}
use free5gc_workspace.Metrics.Sbi.{Context, outbound_counter, outbound_duration, sbi_metric_hook}

abbrev ready : Globals
ready = record nothing { sbi_enabled = true; sbi_inbound_set = true; sbi_outbound_set = true }

abbrev texts : ℕ → Bytes
texts c = codes "X"

abbrev request : Context
request = record {
  method = codes "GET";
  full_path = [];
  url_path = codes "/nf";
  status = 200;
  problem = [];
}

hook :
    sbi_metric_hook ℕ texts ready (codes "GET") (codes "nrf") 404 7
    ≡ returns (
        (record {
          target = outbound_counter;
          labels =
              (codes "target_service_name", codes "nrf")
              ∷ (codes "status_code", codes "404 X")
              ∷ (codes "method", codes "GET")
              ∷ [];
          duration = none;
        })
        ∷ (record {
          target = outbound_duration;
          labels =
              (codes "target_service_name", codes "nrf")
              ∷ (codes "method", codes "GET")
              ∷ (codes "status_code", codes "404 X")
              ∷ [];
          duration = some 7;
        })
        ∷ [])
unfolding sbi_metric_hook format_status format
hook = refl

hook_early : sbi_metric_hook ℕ texts (record nothing { sbi_enabled = true }) [] [] 404 7 ≡ panics
unfolding sbi_metric_hook
hook_early = refl
