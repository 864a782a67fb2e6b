-- ===== src/Tests/Planes.antt =====
-- internal/lineage and internal/correlate on concrete inputs.
use frr_visible.Base.{
  ℕ, ◌≡◌, refl, ◌↔◌, List, [], ◌∷◌, Bool, true, false, Option, none, some, ◌⊎◌, arith, ◌-◌, ◌<◌,
}
use frr_visible.Base.Text.{Text, lit, text_eq, text_eq_instance}
use frr_visible.Base.Map.{lookup}
use frr_visible.Lineage.{Tracker, Entry, Anomaly, new, observe, reconcile, is_gap}
use frr_visible.Lineage.History.{Observation, run, last_said, holds, holds-run}
use frr_visible.Lineage.Live.{IsLive, IsLive-new, observe-IsLive}
use frr_visible.Lineage.Gap.{reports, IsOverdue, reconcile_exact}
use frr_visible.Correlate.{Event, Correlator, emit, receive, tick, enqueue, consume}
use frr_visible.Correlate.Run.{
  here, next, emits, receives, ticks, IsSound, Reach-IsSound, Joined, IsWarmupDrop, consume_cases,
}

-- "p" and "q"
abbrev pfx : Text
pfx = b'p' ∷ []

abbrev other : Text
other = b'q' ∷ []

abbrev seconds : ℕ → Text
seconds n = []

-- Pushed by zebra at the time 1, seen in the kernel at 5 and gone from it at 9.
abbrev story : List Observation
story =
    record { now = 1; prefix = pfx; stage = 1; present = true; detail = [] }
    ∷ record { now = 5; prefix = pfx; stage = 2; present = true; detail = [] }
    ∷ record { now = 6; prefix = other; stage = 0; present = true; detail = [] }
    ∷ record { now = 9; prefix = pfx; stage = 2; present = false; detail = [] }
    ∷ []

holds-run_example : holds (run story (new 0)) pfx 1 ≡ last_said story pfx 1 (holds (new 0) pfx 1)
holds-run_example =
    holds-run story (new 0) pfx 1
      ((refl, omega arith), ((refl, omega arith), ((refl, omega arith), ((refl, omega arith), tt))))
      (omega arith)

story_end : holds (run story (new 0)) pfx 2 ≡ false
unfolding holds run observe new lookup frr_visible.Lineage.settle frr_visible.Lineage.witness
    frr_visible.Base.Map.insert text_eq
story_end = refl

abbrev pushed : Tracker
pushed = observe 1 pfx 1 true [] (new 0)

pushed-IsLive : IsLive pushed
pushed-IsLive = observe-IsLive 1 pfx 1 true [] (new 0) (IsLive-new 0)

reconcile_exact_example :
    (reports pfx (reconcile seconds 4000000000 pushed).1 ≡ true)
    ↔ ((e : Entry) × (lookup pfx pushed.routes ≡ some e) × IsOverdue pushed.grace 4000000000 e)
reconcile_exact_example = reconcile_exact seconds 4000000000 pushed pfx pushed-IsLive

overdue_reported : reports pfx (reconcile seconds 4000000000 pushed).1 ≡ true
unfolding reports reconcile observe new lookup frr_visible.Lineage.settle
    frr_visible.Base.Map.insert frr_visible.Lineage.witness text_eq frr_visible.Lineage.gap_anomaly
overdue_reported = refl

-- A root event and a follow-up, read from the channel, and a tick that ends the trace.
abbrev adj_down : Event
adj_down = record {
  bus = lit "ospf";
  kind = lit "adj-down";
  key = pfx;
  detail = [];
  root = true;
  ts = 10;
}

abbrev route_del : Event
route_del = record {
  bus = lit "fpm";
  kind = lit "route-del";
  key = other;
  detail = [];
  root = false;
  ts = 20;
}

abbrev started : Correlator
started = frr_visible.Correlate.new (lit "r1") 0

abbrev finished : Correlator
finished = tick 5000000000 (receive 21 (receive 20 (enqueue route_del (enqueue adj_down started))))

finished_seq : finished.seq ≡ 1
unfolding tick receive enqueue lit frr_visible.Correlate.new frr_visible.Correlate.expire consume
    frr_visible.Correlate.attach frr_visible.Correlate.join frr_visible.Correlate.flush
    frr_visible.Correlate.open_trace
finished_seq = refl

Reach-IsSound_example : IsSound finished
Reach-IsSound_example = Reach-IsSound (lit "r1") 0 (
    next
      (next (next (next (next here (emits adj_down _)) (emits route_del _)) (receives 20 _))
        (receives 21 _))
      (ticks 5000000000 _))

consume_cases_example :
    Joined route_del (consume 20 route_del started)
    ⊎ IsWarmupDrop 20 route_del started (consume 20 route_del started)
consume_cases_example = consume_cases 20 route_del started
