-- ===== src/Correlate/Window.antt =====
-- What a trace is: a chain of events, each within the window of the one before, begun by a root event
-- or by the first event of a burst.
use frr_visible.Base.{
  sym, subst, ◌∙◌, ℕ, ◌+◌, ◌-◌, ◌≤◌, ◌≡◌, refl, List, [], ◌∷◌, ◌++◌, map, Bool, true, false, not,
  ◌&&◌, Option, none, some, if◌then◌else◌, ltb, length, arith, All, All-append, All-drop,
  Bool-cases, inl, inr,
}
use frr_visible.Base.Int.{ms_since}
use frr_visible.Base.Text.{Text, is_empty}
use frr_visible.Correlate.{
  Trace, Active, Correlator, Event, keep_last, trace_of, span_of, flush, expire, attach, consume,
  join, open_trace, event_root, churn_root,
}

-- Each event comes at most `w` after the one before it.
abbrev pub Linked : ℕ → ℕ → List Event → ℕ → Type 0
Linked w from [] last = from ≡ last
Linked w from (e ∷ es) last = (e.ts - from ≤ w) × Linked w e.ts es last

-- The events of a trace that is named `root`, starts at `start` and was last extended at `last`.
abbrev pub IsChain : ℕ → ℕ → ℕ → Text → Bool → List Event → Type 0
IsChain w start last root churn [] = ⊥
IsChain w start last root churn (e ∷ es) =
    (e.ts ≡ start)
    × (churn ≡ not e.root)
    × (root ≡ (if e.root then event_root e else churn_root e))
    × Linked w start es last

Linked-append :
    (w from last : ℕ) (es : List Event) (e : Event)
    → Linked w from es last
    → e.ts - last ≤ w
    → Linked w from (es ++ e ∷ []) e.ts
Linked-append w from last [] e h g = (rw h g, refl)
Linked-append w from last (x ∷ es) e h g = (h.0, Linked-append w x.ts last es e h.1 g)

IsChain-append :
    (w start last : ℕ) (root : Text) (churn : Bool) (es : List Event) (e : Event)
    → IsChain w start last root churn es
    → e.ts - last ≤ w
    → IsChain w start e.ts root churn (es ++ e ∷ [])
IsChain-append w start last root churn [] e h g = absurd h
IsChain-append w start last root churn (x ∷ es) e h g =
    (h.0, h.1, h.2, Linked-append w start last es e h.3 g)

abbrev pub IsOpen : ℕ → Active → Type 0
IsOpen w a = IsChain w a.start a.last a.root a.churn a.events

abbrev pub IsOpen? : ℕ → Option Active → Type 0
IsOpen? w none = Unit {0}
IsOpen? w (some a) = IsOpen w a

-- A finished trace shows a chain of events; a burst that no root event began has three at least.
pub record IsCausal (w : ℕ) (t : Trace) : Type 0 where
  pub events : List Event
  pub last : ℕ
  pub churn : Bool
  pub chain : IsChain w t.start last t.root churn events
  pub burst : churn ≡ true → 3 ≤ length events
  pub shown : t.spans ≡ map (span_of t.start) events
  pub spanned : t.span_ms ≡ ms_since last t.start

keep_last-All :
    (w n : ℕ) (ts : List Trace) → All (IsCausal w) ts → All (IsCausal w) (keep_last n ts)
unfolding keep_last
keep_last-All w n ts h = elim (Bool-cases (ltb n (length ts))) [
  | inl over ↦ rw over (All-drop (IsCausal w) (length ts - n) ts h)
  | inr fits ↦ rw fits h
]

trace_of-IsCausal :
    (w id : ℕ) (node : Text) (a : Active)
    → IsOpen w a
    → (a.churn && ltb (length a.events) 3) ≡ false
    → IsCausal w (trace_of node id a)
unfolding trace_of
trace_of-IsCausal w id node a h kept = record {
  events = a.events;
  last = a.last;
  churn = a.churn;
  chain = h;
  burst = λ c. ground arith;
  shown = refl;
  spanned = refl;
}

-- The open trace and the finished ones are chains.
pub record IsWindowed (c : Correlator) : Type 0 where
  pub current : IsOpen? c.window c.active
  pub finished : All (IsCausal c.window) c.ring

flush-finished :
    (a : Active) (c : Correlator)
    → IsOpen c.window a
    → All (IsCausal c.window) c.ring
    → All (IsCausal c.window) (flush a c).ring
unfolding flush
flush-finished a c h fin = elim (Bool-cases (is_empty a.events)) [
  | inl none_yet ↦ rw none_yet fin
  | inr some_yet ↦ rw some_yet (elim (Bool-cases (a.churn && ltb (length a.events) 3)) [
    | inl lone ↦ rw lone fin
    | inr kept ↦
        let t : Trace = trace_of c.node (c.seq + 1) a in
        rw kept (
          keep_last-All c.window c.max (c.ring ++ t ∷ []) (
            All-append (IsCausal c.window) c.ring (t ∷ []) fin
              (trace_of-IsCausal c.window (c.seq + 1) c.node a h kept, tt)))
  ])
]

window-flush : (a : Active) (c : Correlator) → (flush a c).window ≡ c.window
unfolding flush
window-flush a c = ground arith

-- Closing keeps the chains, and what stays open is within the limit.
pub expire-IsWindowed :
    (limit now : ℕ) (o : Option Active) (c : Correlator)
    → c.active ≡ o
    → IsWindowed c
    → IsWindowed (expire limit now o c)
unfolding expire
expire-IsWindowed limit now none c e h = h
expire-IsWindowed limit now (some a) c e h = elim (Bool-cases (ltb limit (now - a.last))) [
  | inl late ↦ rw late (record {
    current = tt;
    finished =
        rw (window-flush a c)
          (flush-finished a c (subst (IsOpen? c.window) e h.current) h.finished);
  })
  | inr soon ↦ rw soon h
]

-- What expire leaves open was extended no longer ago than the limit.
pub soon-expire :
    (limit now : ℕ) (o : Option Active) (c : Correlator) (a : Active)
    → c.active ≡ o
    → (expire limit now o c).active ≡ some a
    → now - a.last ≤ limit
unfolding expire
soon-expire limit now none c a e h = absurd (none_is_not_some (sym e ∙ h))
  where
    none_is_not_some : none ≡ some a → ⊥
    none_is_not_some p = cc
soon-expire limit now (some b) c a e h = ground arith

pub attach-IsWindowed :
    (now : ℕ) (e : Event) (o : Option Active) (c : Correlator)
    → c.active ≡ o
    → ((a : Active) → o ≡ some a → e.ts - a.last ≤ c.window)
    → IsWindowed c
    → IsWindowed (attach now e o c)
unfolding attach join open_trace
attach-IsWindowed now e none c eq near h =
    elim (Bool-cases (if e.root then false else ltb (now - c.started) c.warmup)) [
      | inl warm ↦ rw warm h
      | inr begun ↦
          rw begun (record { current = (refl, ground arith, refl, refl); finished = h.finished })
    ]
attach-IsWindowed now e (some a) c eq near h = record {
  current =
      IsChain-append c.window a.start a.last a.root a.churn a.events e
        (subst (IsOpen? c.window) eq h.current) (near a refl);
  finished = h.finished;
}

window-expire :
    (limit now : ℕ) (o : Option Active) (c : Correlator) → (expire limit now o c).window ≡ c.window
unfolding expire
window-expire limit now none c = refl
window-expire limit now (some a) c = ground (arith, window-flush a c)

pub consume-IsWindowed :
    (now : ℕ) (e : Event) (c : Correlator) → IsWindowed c → IsWindowed (consume now e c)
unfolding consume
consume-IsWindowed now e c h =
    attach-IsWindowed now e _ (expire c.window e.ts c.active c) refl
      (λ a p.
        rw (window-expire c.window e.ts c.active c) (soon-expire c.window e.ts c.active c a refl p))
      (expire-IsWindowed c.window e.ts c.active c refl h)
