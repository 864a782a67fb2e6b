-- ===== src/Daemon/Push.antt =====
-- A prefix that zebra pushes and that the kernel never confirms, from the FPM message to the trace.
use frr_visible.Base.{
  ℕ, suc, ◌-◌, ◌≤◌, ◌<◌, ◌≡◌, refl, ap, ◌∙◌, List, [], ◌∷◌, ◌++◌, Option, none, some, true, false,
  length, All,
}
use frr_visible.Base.Text.{Text, is_empty, text_eq_instance}
use frr_visible.Base.Map.{lookup}
use frr_visible.Gnmi.{Effect, updates, emits, observes}
use frr_visible.State.{Notification}
use frr_visible.Correlate.{Correlator, Trace, capacity, keep_last, tick}
use frr_visible.Correlate.Episode.{receive_all}
use frr_visible.Lineage.{Tracker, reconcile}
use frr_visible.Lineage.Gap.{reports}
use frr_visible.Lineage.History.{held}
use frr_visible.Lineage.Live.{IsLive}
use frr_visible.Lineage.Told.{tell}
use frr_visible.Fpm.Routes.{Fpm, RouteAttrs, finish_route}
use frr_visible.Fpm.Routes.Afts.{prefix_of, Unflagged, finish_route_gap}
use frr_visible.Daemon.{Node, wired, report_all, perform, lineage_round}
use frr_visible.Daemon.Gap.{IsGapAnomaly, reconcile_loop-IsGapAnomaly, shows_gap, report_all_traced}

module _ {C : Type 0} (gnmi_update : Notification → C → C × Option Text) where
  -- The handler's calls tell the tracker what it is told by itself.
  lin-perform :
      (now : ℕ) (es : List Effect) (n : Node C)
      → (perform gnmi_update now es n).lin ≡ tell now es n.lin
  unfolding perform tell
  lin-perform now [] n = refl
  lin-perform now (updates o us ds ∷ es) n = lin-perform now es _
  lin-perform now (emits b k y d r ∷ es) n = lin-perform now es _
  lin-perform now (observes p s b d ∷ es) n = lin-perform now es _

  reconcile-IsGapAnomaly :
      (ds : ℕ → Text) (now : ℕ) (t : Tracker) → All IsGapAnomaly (reconcile ds now t).1
  unfolding reconcile
  reconcile-IsGapAnomaly ds now t = reconcile_loop-IsGapAnomaly ds t.grace now t.routes

  cor-lineage_round :
      (ds : ℕ → Text) (now : ℕ) (clock : ℕ → ℕ) (n : Node C) (c : Correlator)
      → n.cor ≡ some c
      → (lineage_round ds now clock n).cor ≡ report_all clock (reconcile ds now n.lin).1 (some c)
  unfolding lineage_round
  cor-lineage_round ds now clock n c e = ap (report_all clock (reconcile ds now n.lin).1) e

  -- A new-route message is handled at `pushed_at` in a node whose tracker is well formed, holds no kernel
  -- route for the message's prefix, which is valid, and has not reported it. Later, past the grace, the
  -- tracker's round comes, with no plane having said anything in between and the correlator having
  -- nothing open or waiting. If the round's reports fit in the channel and come within the window of
  -- one another, then after they are received and the idle time is over, the newest finished trace has
  -- one span for each report of the round, and one of them says that the prefix has an install gap.
  pub push_traced :
      (ds : ℕ → Text) (links : Option (List (ℕ × Text))) (rtm : List ℕ) (s : RouteAttrs) (f : Fpm)
      (pushed_at later closes : ℕ) (clock : ℕ → ℕ) (nows : List ℕ) (before n : Node C)
      (c : Correlator)
      → IsLive before.lin
      → is_empty (prefix_of rtm s) ≡ false
      → held (lookup (prefix_of rtm s) before.lin.routes) 2 ≡ false
      → Unflagged (lookup (prefix_of rtm s) before.lin.routes)
      → before.lin.grace < later - pushed_at
      → n.lin
        ≡ (perform gnmi_update pushed_at (finish_route links wired rtm false s f).1 before).lin
      → n.cor ≡ some c
      → c.active ≡ none
      → c.ch ≡ []
      → length (reconcile ds later n.lin).1 ≤ capacity
      → ((i : ℕ) → clock (suc i) - clock i ≤ c.window)
      → length nows ≡ length (reconcile ds later n.lin).1
      → c.idle < closes - clock (length (reconcile ds later n.lin).1 - 1)
      → (d : Correlator) × (t : Trace) × ((lineage_round ds later clock n).cor ≡ some d)
        × ((tick closes (receive_all nows d)).ring ≡ keep_last c.max (c.ring ++ t ∷ []))
        × (length t.spans ≡ length (reconcile ds later n.lin).1)
        × (shows_gap (prefix_of rtm s) t.spans ≡ true)
  push_traced ds links rtm s f pushed_at later closes clock nows before n c live valid unconfirmed
        unflagged late same at quiet empty room near all idle =
      let p = prefix_of rtm s in
      let out = (reconcile ds later n.lin).1 in
      let told = same ∙ lin-perform pushed_at (finish_route links wired rtm false s f).1 before in
      let said : reports p out ≡ true =
        ap (λ t. reports p (reconcile ds later t).1) told
        ∙ finish_route_gap ds links wired rtm s f pushed_at later before.lin live refl valid
            unconfirmed unflagged late in
      let r =
        report_all_traced p clock out c nows closes (reconcile-IsGapAnomaly ds later n.lin) said
          quiet empty room near all idle in
      (r.0, r.1, cor-lineage_round ds later clock n c at ∙ r.2, r.3, r.4, r.5)
