-- ===== src/Correlate.antt =====
-- internal/correlate/correlate.go: the correlator that folds the events of all planes into traces.
-- Times and durations are nanoseconds. The channel is a list of at most `capacity` events, and `Run`'s
-- local `active` is a field. A step of `Run` is one round of its select: it receives the event at the
-- front of the channel, or a tick.
pub mod Ring
pub mod Window
pub mod Run
pub mod Episode
use frr_visible.Base.{
  ℕ, suc, ◌+◌, ◌-◌, List, [], ◌∷◌, ◌++◌, map, Bool, true, false, ◌&&◌, Option, none, some,
  if◌then◌else◌, ltb, length, drop,
}
use frr_visible.Base.Int.{ℤ, ms_since}
use frr_visible.Base.Text.{Text, lit, is_empty}

pub record Event : Type 0 where
  pub bus : Text
  pub kind : Text
  pub key : Text
  pub detail : Text
  pub root : Bool
  pub ts : ℕ

pub record Span : Type 0 where
  pub off_ms : ℤ
  pub bus : Text
  pub kind : Text
  pub key : Text
  pub detail : Text

pub record Trace : Type 0 where
  pub node : Text
  pub id : ℕ
  pub root : Text
  pub start : ℕ
  pub span_ms : ℤ
  pub spans : List Span

-- `acc` of the source: the trace that is still open.
pub record Active : Type 0 where
  pub start : ℕ
  pub last : ℕ
  pub root : Text
  pub churn : Bool
  pub events : List Event

pub record Correlator : Type 0 where
  pub node : Text
  pub ch : List Event
  pub window : ℕ
  pub idle : ℕ
  pub warmup : ℕ
  pub started : ℕ
  pub ring : List Trace
  pub max : ℕ
  pub seq : ℕ
  pub active : Option Active

abbrev pub capacity : ℕ
capacity = 1024

-- New, with `started` as Run sets it.
unfoldable pub new : Text → ℕ → Correlator
new node now = record {
  node = node;
  ch = [];
  window = 3000000000;
  idle = 3000000000;
  warmup = 15000000000;
  started = now;
  ring = [];
  max = 50;
  seq = 0;
  active = none;
}

-- Emit on a correlator that is there: a full buffer drops the event.
unfoldable pub enqueue : Event → Correlator → Correlator
enqueue e c = if ltb (length c.ch) capacity then record c { ch = c.ch ++ e ∷ [] } else c

-- Emit is safe on nil.
unfoldable pub emit : ℕ → Text → Text → Text → Text → Bool → Option Correlator → Option Correlator
emit now bus kind key detail root none = none
emit now bus kind key detail root (some c) = some (
    enqueue (record { bus = bus; kind = kind; key = key; detail = detail; root = root; ts = now })
      c)

unfoldable pub span_of : ℕ → Event → Span
span_of start e = record {
  off_ms = ms_since e.ts start;
  bus = e.bus;
  kind = e.kind;
  key = e.key;
  detail = e.detail;
}

unfoldable pub keep_last {ℓ} : {A : Type ℓ} → ℕ → List A → List A
keep_last n xs = if ltb n (length xs) then drop (length xs - n) xs else xs

unfoldable pub trace_of : Text → ℕ → Active → Trace
trace_of node id a = record {
  node = node;
  id = id;
  root = a.root;
  start = a.start;
  span_ms = ms_since a.last a.start;
  spans = map (span_of a.start) a.events;
}

unfoldable pub flush : Active → Correlator → Correlator
flush a c =
    if is_empty a.events then c else if a.churn && ltb (length a.events) 3 then c else record c {
      seq = c.seq + 1;
      ring = keep_last c.max (c.ring ++ trace_of c.node (c.seq + 1) a ∷ []);
    }

-- The source's `flush(active); active = nil` when more than `limit` has passed since its last event.
unfoldable pub expire : ℕ → ℕ → Option Active → Correlator → Correlator
expire limit now none c = c
expire limit now (some a) c =
    if ltb limit (now - a.last) then record (flush a c) { active = none } else c

unfoldable pub churn_root : Event → Text
churn_root e = lit "churn/" ++ (e.bus ++ (lit "-" ++ (e.kind ++ (lit " " ++ e.key))))

unfoldable pub event_root : Event → Text
event_root e = e.bus ++ (lit "/" ++ (e.kind ++ (lit " " ++ e.key)))

-- A trace opened by the event; the event itself is added by `join`.
unfoldable pub open_trace : Event → Active
open_trace e = record {
  start = e.ts;
  last = e.ts;
  root = if e.root then event_root e else churn_root e;
  churn = if e.root then false else true;
  events = [];
}

unfoldable pub join : Event → Active → Active
join e a = record a { last = e.ts; events = a.events ++ e ∷ [] }

-- After the window test: `continue` during warm-up, or the event joins a trace, open or new.
unfoldable pub attach : ℕ → Event → Option Active → Correlator → Correlator
attach now e none c =
    if (if e.root then false else ltb (now - c.started) c.warmup)
    then c
    else record c { active = some (join e (open_trace e)) }
attach now e (some a) c = record c { active = some (join e a) }

-- One event of the channel, handled at time `now`.
unfoldable pub consume : ℕ → Event → Correlator → Correlator
consume now e c = let c1 = expire c.window e.ts c.active c in attach now e c1.active c1

-- `case e := <-c.ch` blocks on an empty channel.
abbrev received : ℕ → List Event → Correlator → Correlator
received now [] c = c
received now (e ∷ rest) c = consume now e (record c { ch = rest })

unfoldable pub receive : ℕ → Correlator → Correlator
receive now c = received now c.ch c

-- `case now := <-tick.C`
unfoldable pub tick : ℕ → Correlator → Correlator
tick now c = expire c.idle now c.active c

-- ServeHTTP copies the ring.
unfoldable pub recent : Correlator → List Trace
recent c = c.ring
