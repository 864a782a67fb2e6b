-- ===== src/Correlate/Run.antt =====
-- Every state that the correlator can reach: ingesters emit, and Run receives and ticks, in any order.
use frr_visible.Base.{
  ℕ, ◌-◌, ◌≤◌, ◌<◌, ◌≡◌, refl, List, [], ◌∷◌, ◌++◌, false, ap, ◌∙◌, Option, none, some,
  if◌then◌else◌, ltb, length, length-append, arith, Bool-cases, inl, inr, ◌⊎◌, ltb→lt,
}
use frr_visible.Base.Text.{Text}
use frr_visible.Correlate.{
  Trace, Active, Correlator, Event, new, expire, attach, consume, receive, received, tick, enqueue,
  join, open_trace, capacity,
}
use frr_visible.Correlate.Ring.{IsRecent, IsRecent-new, expire-IsRecent, consume-IsRecent}
use frr_visible.Correlate.Window.{IsWindowed, expire-IsWindowed, consume-IsWindowed}

pub data Step : Correlator → Correlator → Type 0 where
  emits : (e : Event) (c : Correlator) → Step c (enqueue e c)
  receives : (now : ℕ) (c : Correlator) → Step c (receive now c)
  ticks : (now : ℕ) (c : Correlator) → Step c (tick now c)

pub data Reach (s : Correlator) : Correlator → Type 0 where
  here : Reach s s
  next : {c d : Correlator} → Reach s c → Step c d → Reach s d

pub record IsSound (c : Correlator) : Type 0 where
  pub queue : length c.ch ≤ capacity
  pub recent : IsRecent c
  pub windowed : IsWindowed c

enqueue-IsSound : (e : Event) (c : Correlator) → IsSound c → IsSound (enqueue e c)
unfolding enqueue
enqueue-IsSound e c h = elim (Bool-cases (ltb (length c.ch) capacity)) [
  | inl room ↦ rw room (record {
    queue = omega (arith, length-append c.ch (e ∷ []), ltb→lt _ _ room);
    recent = h.recent;
    windowed = record { current = h.windowed.current; finished = h.windowed.finished };
  })
  | inr none_left ↦ rw none_left h
]

ch-expire : (limit now : ℕ) (o : Option Active) (c : Correlator) → (expire limit now o c).ch ≡ c.ch
unfolding expire frr_visible.Correlate.flush
ch-expire limit now none c = refl
ch-expire limit now (some a) c = ground arith

ch-attach :
    (now : ℕ) (e : Event) (o : Option Active) (c : Correlator) → (attach now e o c).ch ≡ c.ch
unfolding attach
ch-attach now e none c = ground arith
ch-attach now e (some a) c = refl

ch-consume : (now : ℕ) (e : Event) (c : Correlator) → (consume now e c).ch ≡ c.ch
unfolding consume
ch-consume now e c = ch-attach now e _ _ ∙ ch-expire c.window e.ts c.active c

received-IsSound :
    (now : ℕ) (q : List Event) (c : Correlator) → c.ch ≡ q → IsSound c → IsSound (received now q c)
received-IsSound now [] c eq h = h
received-IsSound now (e ∷ rest) c eq h =
    let d : Correlator = record c { ch = rest } in
    record {
      queue =
          rw (ch-consume now e d) (omega (arith, h.queue, ap (λ (q : List Event). length q) eq));
      recent = consume-IsRecent now e d h.recent;
      windowed =
          consume-IsWindowed now e d
            (record { current = h.windowed.current; finished = h.windowed.finished });
    }

Step-IsSound : {c d : Correlator} → Step c d → IsSound c → IsSound d
Step-IsSound (emits e c) h = enqueue-IsSound e c h
Step-IsSound (receives now c) h = unfold receive in received-IsSound now c.ch c refl h
Step-IsSound (ticks now c) h =
    unfold tick in
    record {
      queue = rw (ch-expire c.idle now c.active c) h.queue;
      recent = expire-IsRecent c.idle now c.active c h.recent;
      windowed = expire-IsWindowed c.idle now c.active c refl h.windowed;
    }

IsSound-new : (node : Text) (now : ℕ) → IsSound (new node now)
IsSound-new node now = record {
  queue = unfold new in omega arith;
  recent = IsRecent-new node now;
  windowed = unfold new in record { current = tt; finished = tt };
}

-- In every state that any order of emits, receives and ticks reaches from the start: the channel is
-- within its capacity; the ring holds the last min(seq, max) finished traces, numbered without a gap;
-- every finished trace and the open one is a chain of events, each within the window of the one
-- before, named and timed by its first event, and a trace that no root event began has three events.
pub Reach-IsSound : (node : Text) (now : ℕ) {c : Correlator} → Reach (new node now) c → IsSound c
Reach-IsSound node now here = IsSound-new node now
Reach-IsSound node now (next r s) = Step-IsSound s (Reach-IsSound node now r)

-- How `consume` can end: the event is the last one of the open trace, or the event was dropped.
abbrev pub Joined : Event → Correlator → Type 0
Joined e d = (a : Active) × (es : List Event) × (d.active ≡ some a) × (a.events ≡ es ++ e ∷ [])

pub record IsWarmupDrop (now : ℕ) (e : Event) (c d : Correlator) : Type 0 where
  pub follow : e.root ≡ false
  pub warming : now - c.started < c.warmup
  pub nothing_open : d.active ≡ none

started-expire :
    (limit now : ℕ) (o : Option Active) (c : Correlator)
    → ((expire limit now o c).started ≡ c.started) × ((expire limit now o c).warmup ≡ c.warmup)
unfolding expire frr_visible.Correlate.flush
started-expire limit now none c = (refl, refl)
started-expire limit now (some a) c = (ground arith, ground arith)

attach_cases :
    (now : ℕ) (e : Event) (o : Option Active) (c : Correlator)
    → c.active ≡ o
    → Joined e (attach now e o c) ⊎ IsWarmupDrop now e c (attach now e o c)
unfolding attach join open_trace
attach_cases now e none c eq =
    elim (Bool-cases (if e.root then false else ltb (now - c.started) c.warmup)) [
      | inl warm ↦
          rw warm
            (inr (record { follow = ground arith; warming = ground arith; nothing_open = eq }))
      | inr begun ↦ rw begun (inl (join e (open_trace e), [], refl, refl))
    ]
attach_cases now e (some a) c eq = inl (join e a, a.events, refl, refl)

-- An event that Run receives ends the open trace as its last event, or it is dropped; it is dropped
-- only if it is no root event, the warm-up is not over and no trace is open.
pub consume_cases :
    (now : ℕ) (e : Event) (c : Correlator)
    → Joined e (consume now e c) ⊎ IsWarmupDrop now e c (consume now e c)
unfolding consume
consume_cases now e c =
    let d : Correlator = expire c.window e.ts c.active c in
    elim (attach_cases now e d.active d refl) [
      | inl joined ↦ inl joined
      | inr dropped ↦ inr (record {
        follow = dropped.follow;
        warming = omega (arith, dropped.warming, started-expire c.window e.ts c.active c);
        nothing_open = dropped.nothing_open;
      })
    ]
