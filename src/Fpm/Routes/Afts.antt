-- ===== src/Fpm/Routes/Afts.antt =====
-- internal/ingest/fpm.go and internal/lineage/lineage.go: what a route message tells the lineage
-- tracker, and what its reconcile makes of that.
use frr_visible.Base.{
  ℕ, ◌-◌, ◌<◌, ◌≡◌, ap, ◌∙◌, List, ◌++◌, Bool, true, false, not, Option, none, some, if◌then◌else◌,
  ◌==◌, arith,
}
use frr_visible.Base.Text.{Text, lit, is_empty, text_eq_iff, text_eq_instance}
use frr_visible.Base.Map.{lookup}
use frr_visible.Base.Bytes.{byte_at}
use frr_visible.Gnmi.{Wiring, observe, emit}
use frr_visible.Lineage.{
  Tracker, Entry, Hop, fpm, kernel, present, witness, entry_or_new, reconcile,
}
use frr_visible.Lineage.History.{lookup-settle, held}
use frr_visible.Lineage.Live.{IsLive, observe-IsLive}
use frr_visible.Lineage.Gap.{reports, reconcile_exact}
use frr_visible.Lineage.Told.{tell, tell-append, tell-emit, tell-observe}
use frr_visible.Fpm.Routes.{Fpm, RouteAttrs, finish_route, aft_updates, format_prefix}

tell-aft :
    (now : ℕ) (vrf af p s : Text) (labels : List ℕ) (del : Bool) (t : Tracker)
    → tell now (aft_updates vrf af p s labels del) t ≡ t
unfolding tell aft_updates
tell-aft now vrf af p s labels del t = ground arith

abbrev pub prefix_of : List ℕ → RouteAttrs → Text
prefix_of rtm s = (format_prefix (byte_at rtm 0) s.dst (byte_at rtm 1)).0

-- With a tracker wired, the calls of a route message come to one observation of its prefix.
tell-finish_route :
    (links : Option (List (ℕ × Text))) (w : Wiring) (rtm : List ℕ) (del : Bool) (s : RouteAttrs)
    (f : Fpm) (now : ℕ) (t : Tracker)
    → w.lin ≡ true
    → is_empty (prefix_of rtm s) ≡ false
    → (d : Text) × (tell now (finish_route links w rtm del s f).1 t
        ≡ frr_visible.Lineage.observe now (prefix_of rtm s) 1 (not del) d t)
unfolding finish_route
tell-finish_route links w rtm del s f now t hw hp =
    let table = if s.rta_tbl == 0 then byte_at rtm 4 else s.rta_tbl in
    let fp = format_prefix (byte_at rtm 0) s.dst (byte_at rtm 1) in
    let r = frr_visible.Fpm.Routes.route_nexthop f.nh (byte_at rtm 7) s in
    let nh_str = frr_visible.Fpm.Routes.nexthop_text r in
    let vn = frr_visible.Vrf.name links table f.vrf in
    let detail : Text = lit "vrf=" ++ (vn.0 ++ (lit " nh=" ++ nh_str)) in
    (
      detail,
      rw hp (
          tell-append now
            (emit w (lit "fpm") (if del then lit "route-del" else lit "route-add") fp.0 detail
              false)
            (observe w fp.0 1 (not del) detail ++ aft_updates vn.0 fp.1 fp.0 nh_str r.labels del) t
          ∙ ap
              (λ u.
                tell now
                  (observe w fp.0 1 (not del) detail
                    ++ aft_updates vn.0 fp.1 fp.0 nh_str r.labels del)
                  u)
              (tell-emit now w _ _ fp.0 detail false t)
          ∙ tell-append now (observe w fp.0 1 (not del) detail)
              (aft_updates vn.0 fp.1 fp.0 nh_str r.labels del) t
          ∙ tell-aft now vn.0 fp.1 fp.0 nh_str r.labels del _
          ∙ tell-observe now w fp.0 1 (not del) detail t hw),
    )

abbrev pub Unflagged : Option Entry → Type 0
Unflagged none = Unit {0}
Unflagged (some e) = e.flagged ≡ false

-- The entry that an FPM push leaves under its prefix.
pushed_entry :
    (now : ℕ) (p d : Text) (t : Tracker)
    → is_empty p ≡ false
    → held (lookup p t.routes) 2 ≡ false
    → Unflagged (lookup p t.routes)
    → (e : Entry) × (lookup p (frr_visible.Lineage.observe now p 1 true d t).routes ≡ some e)
      × (present e 1 ≡ true)
      × (present e 2 ≡ false)
      × (e.flagged ≡ false)
      × ((e.hops 1).ts ≡ now)
unfolding frr_visible.Lineage.observe witness
pushed_entry now p d t hp hk hf =
    let h : Hop = record { present = true; ts = now; detail = d } in
    let e : Entry = witness (entry_or_new p (lookup p t.routes)) 1 h in
    (
      e,
      ground (arith, lookup-settle p e true t.routes p, text_eq_iff p p),
      ground arith,
      ground arith,
      ground arith,
      ground arith,
    )

grace-observe :
    (now : ℕ) (p : Text) (s : ℕ) (b : Bool) (d : Text) (t : Tracker)
    → (frr_visible.Lineage.observe now p s b d t).grace ≡ t.grace
unfolding frr_visible.Lineage.observe
grace-observe now p s b d t = ground arith

-- From a well-formed tracker that is wired, holds no kernel route for the prefix and has not reported
-- it: after a new-route message with a valid prefix, the first reconcile that runs later than the
-- grace reports
-- the prefix, if no plane says anything in between.
pub finish_route_gap :
    (ds : ℕ → Text) (links : Option (List (ℕ × Text))) (w : Wiring) (rtm : List ℕ) (s : RouteAttrs)
    (f : Fpm) (now later : ℕ) (t : Tracker)
    → IsLive t
    → w.lin ≡ true
    → is_empty (prefix_of rtm s) ≡ false
    → held (lookup (prefix_of rtm s) t.routes) 2 ≡ false
    → Unflagged (lookup (prefix_of rtm s) t.routes)
    → t.grace < later - now
    → reports
        (prefix_of rtm s)
        (reconcile ds later (tell now (finish_route links w rtm false s f).1 t)).1
      ≡ true
finish_route_gap ds links w rtm s f now later t live hw hp hk hf hg =
    let p : Text = prefix_of rtm s in
    let told = tell-finish_route links w rtm false s f now t hw hp in
    let e = pushed_entry now p (told.0) t hp hk hf in
    rw (told.1) (
      (reconcile_exact ds later (frr_visible.Lineage.observe now p 1 true (told.0) t) p
          (observe-IsLive now p 1 true (told.0) t live)).1
        (
          e.0,
          e.1,
          record {
            pushed = e.2;
            unconfirmed = e.3;
            unreported = e.4;
            overdue = omega (arith, grace-observe now p 1 true (told.0) t, e.5);
          },
        ))
