-- ===== src/Aggregator.antt =====
-- cmd/trace-aggregator/main.go: the traces of all nodes, stitched into distributed traces. Times are
-- nanoseconds after the epoch; an offset that would lead behind the epoch stops there.
pub mod Cluster
pub mod Link
pub mod Merge
pub mod Txns
pub mod Export
use frr_visible.Base.{ℕ, List, Option, ◌+◌, ◌-◌, ◌*◌, suc}
use frr_visible.Base.Int.{ℤ, pos, negsuc}
use frr_visible.Base.Text.{Text}

-- dspan; `at` is the field abs.
pub record DSpan : Type 0 where
  pub off_ms : ℤ
  pub node : Text
  pub bus : Text
  pub kind : Text
  pub key : Text
  pub detail : Text
  pub at : ℕ

-- dtrace; a start of `none` is the zero time, of a trace without a span.
pub record DTrace : Type 0 where
  pub id : ℕ
  pub start : Option ℕ
  pub span_ms : ℤ
  pub link : Text
  pub nodes : List Text
  pub roots : List Text
  pub spans : List DSpan
  pub txn : Text
  pub txn_act : Text
  pub txn_by : Text

-- txnRec
pub record TxnRec : Type 0 where
  pub id : Text
  pub lab : Text
  pub action : Text
  pub agent : Text
  pub commit_ns : ℕ

-- t.Add(time.Duration(ms) * time.Millisecond)
unfoldable pub add_ms : ℕ → ℤ → ℕ
add_ms t (pos n) = t + n * 1000000
add_ms t (negsuc n) = t - suc n * 1000000
