-- ===== src/Logger/Gin.antt =====
-- lib/util/logger/logger.go: NewGinWithLogrus and its middlewares. What they read and change of gin's
-- context is a record of operations; a handler gives what it logs and how it ends.
pub mod Secrets
pub mod Recovery
use free5gc_workspace.Prelude.{
  ℕ, ◌⊎◌, inl, inr, Bool, true, false, ◌||◌, List, [], ◌∷◌, ◌++◌, map, Option, none, some,
  if◌then◌else◌,
}
use free5gc_workspace.Prelude.Outcome.{Outcome, returns, fails, panics}
use free5gc_workspace.Text.Decimal.{Bytes, codes}
use free5gc_workspace.Text.Words.{text_eq, split_at, join, to_lower}
use free5gc_workspace.Text.Search.{contains_text, split_crlf, crlf}

-- The value of the key `email` of the claims.
pub data ClaimValue : Type 0 where
  text_value : Bytes → ClaimValue
  other_value : ClaimValue

-- The value of "claims" of the context: of the type `jwt.MapClaims` or not.
pub data Claims : Type 0 where
  map_claims : Option ClaimValue → Claims
  other_claims : Claims

pub record Gin : Type 1 where
  pub Context : Type 0
  pub Err : Type 0
  pub path : Context → Bytes
  pub raw_query : Context → Bytes
  pub client_ip : Context → Bytes
  pub method : Context → Bytes
  pub status : Context → ℕ
  pub private_errors : Context → Bytes
  pub claims : Context → Option Claims
  pub dump_request : Context → Err ⊎ Bytes
  pub add_error : Bytes → Context → Context
  pub abort : Context → Context
  pub abort_with_status : ℕ → Context → Context

-- A value that is panicked with: a `*net.OpError` around a `*os.SyscallError` with its text, the
-- failure of a type assertion, and any other value.
pub data Panic : Type 0 where
  op_error : Bytes → Panic
  type_assertion : Panic
  other_panic : Bytes → Panic

-- What is logged: a request that was served, and a panic that was recovered.
pub data Line (E : Type 0) : Type 0 where
  served : ℕ → Bytes → Bytes → Bytes → Bytes → Bytes → Line E
  dump_failed : E → Line E
  broken : Panic → Bytes → Line E
  debugging : Bytes → Panic → Line E
  panicked : Panic → Line E

pub data Ended (C : Type 0) : Type 0 where
  done : C → Ended C
  in_panic : Panic → C → Ended C

-- The first element of a list of texts.
abbrev pub first_part : List Bytes → Bytes
first_part [] = []
first_part (s ∷ ss) = s

unfoldable pub redact : Bytes → Bytes
unfolding split_at text_eq
redact header =
    let name = first_part (split_at b':' header) in
    if text_eq name (codes "Authorization") then name ++ codes ": *" else header

unfoldable pub redacted : Bytes → Bytes
unfolding redact split_crlf join
redacted http_request = join crlf (map redact (split_crlf http_request))

unfoldable pub is_broken_pipe : Panic → Bool
unfolding contains_text to_lower
is_broken_pipe (op_error text) =
    contains_text (to_lower text) (codes "broken pipe")
    || contains_text (to_lower text) (codes "connection reset by peer")
is_broken_pipe type_assertion = false
is_broken_pipe (other_panic text) = false

-- The assertion of the email to be a text; a missing key is a nil value.
unfoldable pub user_of : Option Claims → Outcome (Unit {0}) Bytes
user_of none = returns []
user_of (some other_claims) = returns []
user_of (some (map_claims none)) = panics
user_of (some (map_claims (some other_value))) = panics
user_of (some (map_claims (some (text_value email)))) = returns email

unfoldable pub with_query : Bytes → Bytes → Bytes
with_query path [] = path
with_query path (c ∷ raw) = path ++ (codes "?" ++ c ∷ raw)

module _ (gin : Gin) where
  abbrev pub Handled : Type 0
  Handled = List (Line gin.Err) × Ended gin.Context

  -- What comes behind a middleware, and a middleware.
  abbrev pub Handler : Type 0
  Handler = gin.Context → Handled

  abbrev pub Middleware : Type 0
  Middleware = Handler → Handler

  log_served :
      Bytes → Bytes → gin.Context → List (Line gin.Err) → Outcome (Unit {0}) Bytes → Handled
  unfolding with_query
  log_served path raw c logs (returns user) = (
    logs
        ++ served (gin.status c) (gin.client_ip c) (gin.method c) (with_query path raw) user
            (gin.private_errors c)
          ∷ [],
    done c,
  )
  log_served path raw c logs (fails _) = (logs, in_panic type_assertion c)
  log_served path raw c logs panics = (logs, in_panic type_assertion c)

  after_next : Bytes → Bytes → Handled → Handled
  unfolding log_served user_of
  after_next path raw (logs, done c) = log_served path raw c logs (user_of (gin.claims c))
  after_next path raw (logs, in_panic p c) = (logs, in_panic p c)

  unfoldable pub gin_to_logrus : Middleware
  unfolding after_next
  gin_to_logrus next c = after_next (gin.path c) (gin.raw_query c) (next c)

  -- What is logged of a panic, where there is a logger; whether gin is in its debug mode.
  log_dumped : Bool → Panic → gin.Err ⊎ Bytes → List (Line gin.Err)
  unfolding is_broken_pipe redacted
  log_dumped is_debugging p (inl e) = dump_failed e ∷ []
  log_dumped is_debugging p (inr http_request) =
      (if is_broken_pipe p
        then broken p http_request
        else if is_debugging
        then debugging (redacted http_request) p
        else panicked p)
      ∷ []

  log_panic : Bool → Bool → Panic → gin.Err ⊎ Bytes → List (Line gin.Err)
  unfolding log_dumped
  log_panic false is_debugging p dumped = []
  log_panic true is_debugging p dumped = log_dumped is_debugging p dumped

  -- The answer to a panic.
  unfoldable pub settle : Panic → gin.Context → gin.Context
  unfolding is_broken_pipe
  settle (op_error text) c =
      if is_broken_pipe (op_error text)
      then gin.abort (gin.add_error text c)
      else gin.abort_with_status 500 c
  settle type_assertion c = gin.abort_with_status 500 c
  settle (other_panic text) c = gin.abort_with_status 500 c

  recovered : Bool → Bool → Handled → Handled
  unfolding log_panic settle
  recovered has_log is_debugging (logs, done c) = (logs, done c)
  recovered has_log is_debugging (logs, in_panic p c) =
      (logs ++ log_panic has_log is_debugging p (gin.dump_request c), done (settle p c))

  unfoldable pub gin_recover : Bool → Bool → Middleware
  unfolding recovered
  gin_recover has_log is_debugging next c = recovered has_log is_debugging (next c)

  -- The first middleware is the outermost.
  unfoldable pub chained : List Middleware → Middleware
  chained [] next = next
  chained (m ∷ ms) next = m (chained ms next)

  -- With a logger; whether gin is in its debug mode.
  unfoldable pub new_gin_with_logrus : Bool → List Middleware → Middleware
  unfolding chained gin_to_logrus gin_recover
  new_gin_with_logrus is_debugging middleware =
      chained (middleware ++ gin_to_logrus ∷ gin_recover true is_debugging ∷ [])
