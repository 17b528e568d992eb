-- ===== src/Metrics/Server.antt =====
-- lib/util/metrics/Server.go. The logger's texts are left out but for the errors, which are events. What
-- listening and shutting down come to are arguments.
pub mod Started
mod Tests
use free5gc_workspace.Prelude.{
  ℕ, Bool, true, false, List, [], ◌∷◌, ◌++◌, Option, none, some, if◌then◌else◌,
}
use free5gc_workspace.Prelude.Outcome.{Outcome, returns, fails, panics, ◌>>=◌}
use free5gc_workspace.Text.Decimal.{Bytes, codes}
use free5gc_workspace.Text.Words.{text_eq}
use free5gc_workspace.HttpWrapper.{HttpServer, ServerError, new_http2_server}
use free5gc_workspace.Metrics.Init.{Globals, InitMetrics, Collector, init}

-- `Metrics`, less the namespace, which `InitMetrics` has, and the port, which is not used.
pub record MetricsInfo : Type 0 where
  pub scheme : Bytes
  pub binding_ipv4 : Bytes
  pub tls_pem : Bytes
  pub tls_key : Bytes

-- `Server`; its handler is the registry that it serves under `/metrics`.
pub record MetricsServer (R File : Type 0) : Type 0 where
  pub http_server : HttpServer R File
  pub metric_cfg : MetricsInfo

pub data NewServerError (E : Type 0) : Type 0 where
  no_logger : NewServerError E
  http_failed : ServerError E → NewServerError E

module _ {C R File Files E : Type 0} (register : Option Bytes → Collector C → R → Option R)
    (open_file : Bytes → Files → Files × Outcome E File) where
  unfoldable pub with_server :
      MetricsInfo
      → Files × Outcome (ServerError E) (HttpServer R File)
      → Files × Outcome (NewServerError E) (MetricsServer R File)
  with_server info (s, returns h) = (s, returns (record { http_server = h; metric_cfg = info }))
  with_server info (s, fails e) = (s, fails (http_failed e))
  with_server info (s, panics) = (s, panics)

  -- After `Init`: the variables stay as it has left them, whatever becomes of the server. Those that
  -- a panic of `Init` leaves are not modelled.
  after_init :
      MetricsInfo
      → Bytes
      → Globals
      → Files
      → Outcome (Unit {0}) (Globals × R)
      → (Globals × Files) × Outcome (NewServerError E) (MetricsServer R File)
  unfolding with_server new_http2_server
  after_init info tls_key_log_path g s (returns (g', reg)) =
      let (s', server) =
        with_server info
          (new_http2_server open_file info.binding_ipv4 tls_key_log_path (some reg) s) in
      ((g', s'), server)
  after_init info tls_key_log_path g s (fails _) = ((g, s), panics)
  after_init info tls_key_log_path g s panics = ((g, s), panics)

  -- `NewServer`, from a new registry; whether there is a logger.
  unfoldable pub new_server :
      InitMetrics C
      → MetricsInfo
      → R
      → Bytes
      → Bool
      → Globals × Files
      → (Globals × Files) × Outcome (NewServerError E) (MetricsServer R File)
  unfolding after_init init
  new_server m info empty tls_key_log_path false (g, s) = ((g, s), fails no_logger)
  new_server m info empty tls_key_log_path true (g, s) =
      after_init info tls_key_log_path g s (init register m empty g)

-- What happens while the server runs: it listens at an address, with a key and a certificate for
-- https; an error is logged; the process ends; the wait group is told.
pub data ServerEvent (E : Type 0) : Type 0 where
  listens : Bytes → ServerEvent E
  listens_tls : Bytes → Bytes → Bytes → ServerEvent E
  logs_error : E → ServerEvent E
  logs_scheme : Bytes → ServerEvent E
  exits tells_done : ServerEvent E

module _ {E : Type 0} (is_closed : E → Bool) where
  -- An error other than that the server was closed is logged.
  unfoldable pub logged : Outcome E (Unit {0}) → List (ServerEvent E)
  logged (returns _) = []
  logged (fails e) = if is_closed e then [] else logs_error e ∷ []
  logged panics = []

  -- The end of `startServer`: a panic is recovered by the deferred function, whose `Fatalf` ends the
  -- process before the wait group is told.
  unfoldable pub ends : Outcome E (Unit {0}) → List (ServerEvent E)
  unfolding logged
  ends panics = exits ∷ []
  ends (returns u) = logged (returns u) ++ tells_done ∷ []
  ends (fails e) = logged (fails e) ++ tells_done ∷ []

  unfoldable pub start_server :
      {R File : Type 0}
      → (HttpServer R File → Outcome E (Unit {0}))
      → (HttpServer R File → Bytes → Bytes → Outcome E (Unit {0}))
      → MetricsServer R File
      → List (ServerEvent E)
  unfolding ends text_eq
  start_server listen_and_serve listen_and_serve_tls s =
      let h = s.http_server in
      let cfg = s.metric_cfg in
      if text_eq cfg.scheme (codes "http")
      then listens h.addr ∷ ends (listen_and_serve h)
      else if text_eq cfg.scheme (codes "https")
      then listens_tls h.addr cfg.tls_key cfg.tls_pem
        ∷ ends (listen_and_serve_tls h cfg.tls_key cfg.tls_pem)
      else logs_scheme cfg.scheme ∷ tells_done ∷ []

  -- `ListenAndServe` and `ListenAndServeTLS` of the server itself log every error.
  unfoldable pub logs_any : Outcome E (Unit {0}) → Outcome (Unit {0}) (List (ServerEvent E))
  logs_any (returns _) = returns []
  logs_any (fails e) = returns (logs_error e ∷ [])
  logs_any panics = panics

  unfoldable pub listen_and_serve :
      {R File : Type 0}
      → (HttpServer R File → Outcome E (Unit {0}))
      → MetricsServer R File
      → Outcome (Unit {0}) (List (ServerEvent E))
  unfolding logs_any
  listen_and_serve listen s = logs_any (listen s.http_server)

  unfoldable pub listen_and_serve_tls :
      {R File : Type 0}
      → (HttpServer R File → Bytes → Bytes → Outcome E (Unit {0}))
      → MetricsServer R File
      → Outcome (Unit {0}) (List (ServerEvent E))
  unfolding logs_any
  listen_and_serve_tls listen s =
      logs_any (listen s.http_server s.metric_cfg.tls_key s.metric_cfg.tls_pem)

  -- `Stop` of a server that has an http server.
  unfoldable pub stop :
      {R File : Type 0}
      → (HttpServer R File → Outcome E (Unit {0}))
      → MetricsServer R File
      → Outcome (Unit {0}) (List (ServerEvent E))
  unfolding logs_any
  stop shutdown s = logs_any (shutdown s.http_server)
