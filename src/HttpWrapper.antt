-- ===== src/HttpWrapper.antt =====
-- lib/util/httpwrapper/httpwrapper.go. The types of net/http are arguments, and so is the opening of
-- a file, which reads and changes the files.
use free5gc_workspace.Prelude.{ℕ, List, [], ◌∷◌, Option, none, some}
use free5gc_workspace.Prelude.Outcome.{Outcome, returns, fails, panics}
use free5gc_workspace.Prelude.Run.{Run, ◌>>=◌, gives}
use free5gc_workspace.Text.Decimal.{Bytes}

-- What is read of an `http.Request`.
pub record HttpRequest (Header Values Url : Type 0) : Type 0 where
  pub header : Header
  pub url : Url
  pub query : Url → Values

pub record Request (Header Values Url Body : Type 0) : Type 0 where
  pub params : List (Bytes × Bytes)
  pub header : Header
  pub query : Values
  pub body : Body
  pub url : Url

unfoldable pub new_request :
    {Header Values Url Body : Type 0}
    → HttpRequest Header Values Url
    → Body
    → Request Header Values Url Body
new_request req body = record {
  params = [];
  header = req.header;
  query = req.query req.url;
  body = body;
  url = req.url;
}

pub record Response (Header Body : Type 0) : Type 0 where
  pub header : Header
  pub status : ℕ
  pub body : Body

unfoldable pub new_response : {Header Body : Type 0} → ℕ → Header → Body → Response Header Body
new_response code h body = record { header = h; status = code; body = body }

-- The server: its address, its handler under cleartext HTTP/2 with the time after which an idle
-- connection ends, and the file for the secrets of TLS, if there is one.
pub record HttpServer (Handler File : Type 0) : Type 0 where
  pub addr : Bytes
  pub handler : Handler
  pub idle_milliseconds : ℕ
  pub key_log_writer : Option File

pub data ServerError (E : Type 0) : Type 0 where
  no_handler : ServerError E
  create_log_failed : Bytes → E → ServerError E

open_log :
    {File Files E : Type 0} → Bytes → Files × Outcome E File → Files × Outcome (ServerError E) File
open_log path (s, returns f) = (s, returns f)
open_log path (s, fails e) = (s, fails (create_log_failed path e))
open_log path (s, panics) = (s, panics)

module _ {Handler File Files E : Type 0} (open_file : Bytes → Files → Files × Outcome E File) where
  unfoldable pub new_http2_server :
      Bytes → Bytes → Option Handler → Run Files (ServerError E) (HttpServer Handler File)
  unfolding open_log ◌>>=◌ gives
  new_http2_server bind_addr pre_master_secret_log_path none = λ s. (s, fails no_handler)
  new_http2_server bind_addr [] (some handler) =
      gives (record {
        addr = bind_addr;
        handler = handler;
        idle_milliseconds = 1;
        key_log_writer = none;
      })
  new_http2_server bind_addr (c ∷ path) (some handler) = do
    file ← λ s. open_log (c ∷ path) (open_file (c ∷ path) s)
    gives (record {
      addr = bind_addr;
      handler = handler;
      idle_milliseconds = 1;
      key_log_writer = some file;
    })
