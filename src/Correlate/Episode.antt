-- ===== src/Correlate/Episode.antt =====
-- internal/correlate/correlate.go: a whole episode, from a quiet correlator through the events in its
-- channel to the tick that closes the trace.
use frr_visible.Base.{
  ℕ, ◌+◌, ◌-◌, ◌≤◌, ◌<◌, ◌≡◌, ap, ◌∙◌, sym, List, [], ◌∷◌, ◌++◌, append_assoc, append-nil, map,
  Bool, true, ◌||◌, ◌⊎◌, none, some, if◌then◌else◌, leb, length, arith,
}
use frr_visible.Base.Int.{ms_since}
use frr_visible.Correlate.{
  Event, Trace, Active, Correlator, keep_last, span_of, trace_of, flush, expire, join, open_trace,
  attach, consume, receive, tick, event_root, churn_root,
}
use frr_visible.Correlate.Window.{Linked}

-- Run takes events from the channel, each at a time of its own.
unfoldable pub receive_all : List ℕ → Correlator → Correlator
receive_all [] c = c
receive_all (now ∷ nows) c = receive_all nows (receive now c)

-- The trace of an event and those that follow it.
unfoldable pub episode : Correlator → Event → List Event → ℕ → Trace
episode c e es last = record {
  node = c.node;
  id = c.seq + 1;
  root = if e.root then event_root e else churn_root e;
  start = e.ts;
  span_ms = ms_since last e.ts;
  spans = map (span_of e.ts) (e ∷ es);
}

-- A root event is worth a trace, and so are three events.
abbrev pub is_kept : Event → List Event → Bool
is_kept e es = e.root || leb 2 (length es)

extended : Active → List Event → ℕ → Active
extended a es last = record a { last = last; events = a.events ++ es }

extended_nothing : (a : Active) (last : ℕ) → a.last ≡ last → extended a [] last ≡ a
unfolding extended
extended_nothing a last l =
    ap (λ es. record a { last = last; events = es }) (append-nil a.events)
    ∙ ap (λ (n : ℕ). record a { last = n }) (sym l)

extended-join :
    (e : Event) (a : Active) (es : List Event) (last : ℕ)
    → extended (join e a) es last ≡ extended a (e ∷ es) last
unfolding extended join
extended-join e a es last =
    ap (λ l. record a { last = last; events = l }) (append_assoc a.events (e ∷ []) es)

receive_joins :
    (now : ℕ) (e : Event) (es : List Event) (a : Active) (c : Correlator)
    → e.ts - a.last ≤ c.window
    → receive now (record c { ch = e ∷ es; active = some a })
      ≡ record c { ch = es; active = some (join e a) }
unfolding receive consume expire attach
receive_joins now e es a c near = ground (arith, near)

receive_all_joins :
    (nows : List ℕ) (es : List Event) (a : Active) (c : Correlator) (last : ℕ)
    → length nows ≡ length es
    → Linked c.window a.last es last
    → receive_all nows (record c { ch = es; active = some a })
      ≡ record c { ch = []; active = some (extended a es last) }
unfolding receive_all
receive_all_joins [] [] a c last n l =
    ap (λ x. record c { ch = []; active = some x }) (sym (extended_nothing a last l))
receive_all_joins [] (e ∷ es) a c last n l = absurd (omega (arith, n))
receive_all_joins (now ∷ nows) [] a c last n l = absurd (omega (arith, n))
receive_all_joins (now ∷ nows) (e ∷ es) a c last n l =
    ap (receive_all nows) (receive_joins now e es a c l.0)
    ∙ (receive_all_joins nows es (join e a) c last (omega (arith, n)) (unfold join in l.1)
        ∙ ap (λ x. record c { ch = []; active = some x }) (extended-join e a es last))

receive_opens :
    (now : ℕ) (e : Event) (es : List Event) (c : Correlator)
    → (e.root ≡ true) ⊎ (c.warmup ≤ now - c.started)
    → receive now (record c { ch = e ∷ es; active = none })
      ≡ record c { ch = es; active = some (join e (open_trace e)) }
unfolding receive consume expire attach
receive_opens now e es c begun = ground (arith, begun)

tick_closes :
    (now : ℕ) (e : Event) (es : List Event) (last : ℕ) (c : Correlator)
    → c.idle < now - last
    → tick now (record c { ch = []; active = some (extended (join e (open_trace e)) es last) })
      ≡ record c {
        ch = [];
        active = none;
        seq = if is_kept e es then c.seq + 1 else c.seq;
        ring =
            if is_kept e es then keep_last c.max (c.ring ++ episode c e es last ∷ []) else c.ring;
      }
unfolding tick expire flush extended join open_trace episode trace_of
tick_closes now e es last c late = ground (arith, late)

-- A quiet correlator whose channel holds an event and others, each at most the window after the one before, receives them all
-- and then a tick later than the idle time after the last. If the first is a root event, or the warm-up is over when it is
-- received, then they have become one trace, of exactly these events; it is kept if the first is a root event or there are three
-- events, and nothing else of the correlator has changed.
pub episode_traced :
    (c : Correlator) (e : Event) (es : List Event) (last first now : ℕ) (nows : List ℕ)
    → c.active ≡ none
    → c.ch ≡ e ∷ es
    → (e.root ≡ true) ⊎ (c.warmup ≤ first - c.started)
    → Linked c.window e.ts es last
    → length nows ≡ length es
    → c.idle < now - last
    → tick now (receive_all (first ∷ nows) c) ≡ record c {
      ch = [];
      active = none;
      seq = if is_kept e es then c.seq + 1 else c.seq;
      ring = if is_kept e es then keep_last c.max (c.ring ++ episode c e es last ∷ []) else c.ring;
    }
unfolding receive_all
episode_traced c e es last first now nows quiet queued begun linked all late =
    ap (λ x. tick now (receive_all nows (receive first x))) (as_record c quiet queued)
    ∙ (ap (λ x. tick now (receive_all nows x)) (receive_opens first e es c begun)
        ∙ (ap (tick now) (
              receive_all_joins nows es (join e (open_trace e)) c last all
                (unfold join open_trace in linked))
            ∙ tick_closes now e es last c late))
  where
    as_record :
        (c : Correlator)
        → c.active ≡ none
        → c.ch ≡ e ∷ es
        → c ≡ record c { ch = e ∷ es; active = none }
    as_record c q h = λ i. record c { ch = h i; active = q i }
