-- ===== src/Metrics/Server/Started.antt =====
-- What is left behind when the server does not come up, and how its run ends.
use free5gc_workspace.Prelude.{ℕ, ◌≡◌, refl, true, ◌∷◌, Option}
use free5gc_workspace.Prelude.Outcome.{Outcome, returns, fails}
use free5gc_workspace.Text.Decimal.{Bytes}
use free5gc_workspace.HttpWrapper.{create_log_failed}
use free5gc_workspace.Prelude.Run
use free5gc_workspace.Metrics.Init.{Globals, InitMetrics, Collector}
use free5gc_workspace.Metrics.Init.Plan.{plan, enabled, register_all}
use free5gc_workspace.Metrics.Init.Ready.{init_registers}
use free5gc_workspace.Metrics.Server.{MetricsInfo, http_failed, new_server, with_server}

-- Where the collectors can be registered and the log for the secrets of TLS cannot be opened, NewServer
-- fails, and the counting stays enabled as if the server were there.
pub new_server_fails :
    {C R File Files E : Type 0} (register : Option Bytes → Collector C → R → Option R)
    (open_file : Bytes → Files → Files × Outcome E File) (m : InitMetrics C) (info : MetricsInfo)
    (empty reg : R) (c : ℕ) (path : Bytes) (g : Globals) (s s' : Files) (e : E)
    → register_all register (plan m) empty ≡ returns reg
    → open_file (c ∷ path) s ≡ (s', fails e)
    → new_server register open_file m info empty (c ∷ path) true (g, s)
      ≡ ((enabled m g, s'), fails (http_failed (create_log_failed (c ∷ path) e)))
unfolding new_server with_server Run.◌>>=◌
new_server_fails register open_file m info empty reg c path g s s' e h o =
    rw (init_registers register m empty g, h) (rw o refl)
