-- ===== src/Tests/Wiring.antt =====
-- cmd/frr-visible/main.go, internal/gnmiserver/server.go and the triggers of internal/ingest/ospf.go on
-- concrete inputs.
use frr_visible.Base.{
  ℕ, ◌+◌, ◌≡◌, refl, List, [], ◌∷◌, ◌++◌, true, false, Option, none, some, arith, length, inl,
}
use frr_visible.Base.Text.{Text, lit, is_empty, itoa, text_eq, text_eq_instance}
use frr_visible.Base.Map.{lookup, insert}
use frr_visible.State.{Notification, FullPath, Cache}
use frr_visible.Correlate.{Event, Trace, Correlator, tick, keep_last}
use frr_visible.Correlate.Episode.{receive_all, episode, episode_traced}
use frr_visible.Lineage.{Tracker, reconcile}
use frr_visible.Lineage.Live.{IsLive-new}
use frr_visible.Fpm.Routes.{Fpm, RouteAttrs, no_route_attrs, finish_route}
use frr_visible.Fpm.Routes.Afts.{prefix_of}
use frr_visible.Ospf.Triggers.{Output, System, start, signal, work, Reach, Calm}
use frr_visible.Ospf.Triggers
use frr_visible.Ospf.Triggers.Settled.{IsCurrent, signal-IsCurrent}
use frr_visible.GnmiServer.{Completed, query_path, GetRequest, get}
use frr_visible.GnmiServer.Answers.{Decided, wanted, get-Decided}
use frr_visible.Daemon.{Node, wired, lineage_round, perform}
use frr_visible.Daemon.Gap.{shows_gap}
use frr_visible.Daemon.Push.{push_traced}

-- A neighbor comes while the worker holds what it read before.
abbrev later_world : Output
later_world = some (
    (
      lit "10.0.0.1",
      record {
        nbr_state = lit "Full/DR";
        converged = lit "Full";
        iface_name = lit "eth0";
        iface_address = lit "10.0.0.2";
      }
          ∷ [],
    )
    ∷ [])

abbrev begun : System
begun = start wired (some none) none

abbrev busy : System
busy = record (work wired false (work wired false (signal begun))) { world = later_world }

abbrev four_steps : System → System
four_steps s = work wired false (work wired false (work wired false (work wired false s)))

signal-IsCurrent_example : IsCurrent (four_steps (signal busy))
signal-IsCurrent_example =
    signal-IsCurrent wired (some none) none {s = busy}
      (Reach.next
        (Reach.next
          (Reach.next (Reach.next Reach.here (Triggers.Step.signals begun))
            (Triggers.Step.works false _))
          (Triggers.Step.works false _))
        (Triggers.Step.changes later_world _))
      (Calm.works (Calm.works (Calm.works (Calm.works Calm.here)))) (inl (omega arith))

abbrev adj_down : Event
adj_down = record {
  bus = lit "ospf";
  kind = lit "adj-down";
  key = lit "10.0.0.1";
  detail = [];
  root = true;
  ts = 20;
}

abbrev route_del : Event
route_del = record adj_down { bus = lit "fpm"; kind = lit "route-del"; root = false; ts = 30 }

abbrev queued : Correlator
queued = record (frr_visible.Correlate.new (lit "r1") 0) { ch = adj_down ∷ route_del ∷ [] }

episode_traced_example : tick 5000000000 (receive_all (21 ∷ 31 ∷ []) queued) ≡ record queued {
  ch = [];
  active = none;
  seq = 1;
  ring = keep_last 50 ([] ++ episode queued adj_down (route_del ∷ []) 30 ∷ []);
}
unfolding frr_visible.Correlate.new
episode_traced_example =
    episode_traced queued adj_down (route_del ∷ []) 30 21 5000000000 (31 ∷ []) refl refl (inl refl)
      (omega arith, refl) refl (omega arith)

-- A cache that counts its notifications, and has one leaf for every path.
abbrev count_update : Notification → ℕ → ℕ × Option Text
count_update n c = (c + 1, none)

abbrev one_leaf : Notification
one_leaf = record {
  timestamp = 1;
  prefix = record { target = lit "frr"; origin = lit "host"; elem = [] };
  update = [];
  delete = [];
}

abbrev complete : Option FullPath → FullPath → Completed
complete prefix p = query_path (p.origin ∷ [])

abbrev leaves : ℕ → Text → List Text → List (Option Notification) × Option Text
leaves c target q = (some one_leaf ∷ none ∷ [], none)

abbrev cache : Cache ℕ
cache = record { target = lit "frr"; c = 7 }

abbrev whole : GetRequest
whole = record { prefix = none; path = [] }

get-Decided_example :
    Decided complete leaves 7 none (lit "frr") (wanted []) (get complete leaves cache whole)
get-Decided_example = get-Decided complete leaves cache whole

-- 10.1.0.0/16 in the main table.
abbrev fpm_state : Fpm
fpm_state = record { nh = []; vrf = [] }

abbrev rtm : List ℕ
rtm = 2 ∷ 16 ∷ 0 ∷ 0 ∷ 254 ∷ 11 ∷ 0 ∷ 1 ∷ 0 ∷ 0 ∷ 0 ∷ 0 ∷ []

abbrev route : RouteAttrs
route = record no_route_attrs { dst = 10 ∷ 1 ∷ 0 ∷ 0 ∷ [] }

abbrev seconds : ℕ → Text
seconds n = []

abbrev blank : Node ℕ
blank = record { cache = cache; cor = none; lin = frr_visible.Lineage.new 0; ospf = begun }

abbrev quiet : Correlator
quiet = frr_visible.Correlate.new (lit "r1") 0

abbrev pushed : Node ℕ
pushed =
    record (perform count_update 5 (finish_route none wired rtm false route fpm_state).1 blank) {
      cor = some quiet;
    }

one_report : length (reconcile seconds 4000000000 pushed.lin).1 ≡ 1
unfolding frr_visible.Lineage.new lookup insert reconcile perform finish_route
    frr_visible.Lineage.observe frr_visible.Lineage.witness frr_visible.Lineage.settle text_eq lit
    frr_visible.Fpm.Routes.format_prefix frr_visible.Net.ip_string itoa frr_visible.Gnmi.emit
    frr_visible.Gnmi.observe frr_visible.Fpm.Nexthops.push_labels
one_report = refl

route_has_prefix : is_empty (prefix_of rtm route) ≡ false
unfolding frr_visible.Fpm.Routes.format_prefix frr_visible.Net.ip_string itoa
route_has_prefix = refl

push_traced_example :
    (d : Correlator) × (t : Trace) × ((lineage_round seconds 4000000000
        (λ i. 4000000001)
        pushed).cor
      ≡ some d)
    × ((tick 8000000000 (receive_all (4000000002 ∷ []) d)).ring
        ≡ keep_last quiet.max (quiet.ring ++ t ∷ []))
    × (length t.spans ≡ length (reconcile seconds 4000000000 pushed.lin).1)
    × (shows_gap (prefix_of rtm route) t.spans ≡ true)
push_traced_example =
    push_traced count_update seconds none rtm route fpm_state 5 4000000000 8000000000
      (λ i. 4000000001) (4000000002 ∷ []) blank pushed quiet (IsLive-new 0) route_has_prefix
      (unfold frr_visible.Lineage.new lookup in refl) (unfold frr_visible.Lineage.new lookup in tt)
      (unfold frr_visible.Lineage.new in omega arith) refl refl
      (unfold frr_visible.Correlate.new in refl) (unfold frr_visible.Correlate.new in refl)
      (omega (arith, one_report)) (λ i. omega arith) (omega (arith, one_report))
      (unfold frr_visible.Correlate.new in omega arith)
