-- ===== src/Metrics/Server/Tests.antt =====
-- Runs of the server, and the theorem at concrete settings.
use free5gc_workspace.Prelude.{ℕ, ◌≡◌, refl, Bool, false, [], ◌∷◌, Option, none, some, ◌+◌}
use free5gc_workspace.Prelude.Outcome.{Outcome, fails, panics}
use free5gc_workspace.Text.Decimal.{Bytes, codes}
use free5gc_workspace.Text.Words.{text_eq}
use free5gc_workspace.Metrics.Init.{MetricType, InitMetrics, Collector}
use free5gc_workspace.Metrics.Server.{
  MetricsInfo, MetricsServer, start_server, listens, logs_error, logs_scheme, tells_done,
}

abbrev settings : MetricsInfo
settings = record {
  scheme = codes "http";
  binding_ipv4 = codes "127.0.0.1";
  tls_pem = [];
  tls_key = [];
}

abbrev none_enabled : MetricType → Bool
none_enabled t = false

abbrev nrf : InitMetrics ℕ
nrf = record {
  nf_name = codes "NRF";
  namespace = codes "free5gc";
  metrics_enabled = none_enabled;
  custom_collectors = [];
}

-- A registry that counts, and files that count what is opened and refuse it.
abbrev count : Option Bytes → Collector ℕ → ℕ → Option ℕ
count nf_type metric n = some (n + 1)

abbrev refuse : Bytes → ℕ → ℕ × Outcome ℕ ℕ
refuse path n = (n + 1, fails 13)

abbrev server : Bytes → MetricsServer ℕ ℕ
server scheme = record {
  http_server = record {
    addr = codes "127.0.0.1";
    handler = 0;
    idle_milliseconds = 1;
    key_log_writer = none;
  };
  metric_cfg = record settings { scheme = scheme };
}

abbrev none_closed : ℕ → Bool
none_closed e = false

start_server_error :
    start_server none_closed (λ h. fails 98) (λ h k c. panics) (server (codes "http"))
    ≡ listens (codes "127.0.0.1") ∷ logs_error 98 ∷ tells_done ∷ []
unfolding start_server text_eq
start_server_error = refl

start_server_scheme :
    start_server none_closed (λ h. fails 98) (λ h k c. panics) (server (codes "ftp"))
    ≡ logs_scheme (codes "ftp") ∷ tells_done ∷ []
unfolding start_server text_eq
start_server_scheme = refl
