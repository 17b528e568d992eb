-- ===== src/Metrics.antt =====
-- lib/util/metrics/utils/utils.go: what the counters are labelled with.
pub mod Nas
pub mod Init
pub mod Causes
pub mod Ngap
pub mod Sbi
pub mod Server
mod Tests
use free5gc_workspace.Prelude.{
  ℕ, Bool, true, false, List, [], ◌∷◌, ◌++◌, Option, none, some, ◌==◌, if◌then◌else◌,
}
use free5gc_workspace.Prelude.Outcome.{Outcome, returns, fails, panics}
use free5gc_workspace.Text.Decimal.{Bytes, codes, format}

-- A `*bool` that may be nil.
unfoldable pub get_status : Option Bool → Bytes
get_status none = codes "failure"
get_status (some success) = if success then codes "successful" else codes "failure"

-- `http.StatusText` is an argument; a status is not negative.
unfoldable pub format_status : (ℕ → Bytes) → ℕ → Bytes
format_status status_text status_code =
    let code = if status_code == 0 then 500 else status_code in
    format code ++ (codes " " ++ status_text code)

unfoldable pub read_string_ptr : Option Bytes → Bytes
read_string_ptr none = []
read_string_ptr (some text) = text

pub data CounterError (E : Type 0) : Type 0 where
  not_retrieved no_value : Bytes → E → CounterError E

-- What Prometheus gives for a vector of counters and labels, and for a counter, are arguments; the
-- value of a counter is of any type.
module _ {Counter Vector Labels Value E : Type 0}
    (get_metric_with : Vector → Labels → Outcome E Counter)
    (write : Counter → Outcome E Value) where
  unfoldable pub get_value_from_counter : Counter → Outcome E Value
  get_value_from_counter c = write c

  value_of : Bytes → Outcome E Value → Outcome (CounterError E) Value
  value_of counter_name (returns value) = returns value
  value_of counter_name (fails e) = fails (no_value counter_name e)
  value_of counter_name panics = panics

  read_counter : Bytes → Outcome E Counter → Outcome (CounterError E) Value
  unfolding value_of get_value_from_counter
  read_counter counter_name (returns c) = value_of counter_name (get_value_from_counter c)
  read_counter counter_name (fails e) = fails (not_retrieved counter_name e)
  read_counter counter_name panics = panics

  unfoldable pub get_counter_vec_value : Bytes → Vector → Labels → Outcome (CounterError E) Value
  unfolding read_counter
  get_counter_vec_value counter_name counter labels =
      read_counter counter_name (get_metric_with counter labels)
