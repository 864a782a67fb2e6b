-- ===== src/Netlink/Routes/Confirm.antt =====
-- internal/ingest/netlink.go and internal/lineage/lineage.go: what the reconcile and the snapshot of the
-- tracker make of a kernel route that is added or deleted.
use frr_visible.Base.{
  ℕ, ◌-◌, ◌<◌, ◌≡◌, refl, sym, ap, ◌∙◌, [], Bool, true, false, not, ◌||◌, some, if◌then◌else◌, ◌==◌,
  arith, Bool-cases, inl, inr,
}
use frr_visible.Base.Text.{Text, lit, is_empty, text_eq_iff, text_eq_instance}
use frr_visible.Base.Map.{lookup}
use frr_visible.Gnmi.{Wiring}
use frr_visible.Lineage
use frr_visible.Lineage.{
  Tracker, Entry, Hop, fpm, kernel, present, proto_of, witness, entry_or_new, reconcile, row_of,
}
use frr_visible.Lineage.History.{lookup-settle}
use frr_visible.Lineage.Live.{IsLive, observe-IsLive}
use frr_visible.Lineage.Gap.{reports, reconcile_exact}
use frr_visible.Lineage.Told.{tell}
use frr_visible.Netlink.Routes.{RouteUpdate, route_prefix, route_proto, add_detail, route_step}
use frr_visible.Netlink.Routes.Kernel.{
  IsRead, is_del, route_prefix_present, told_detail, tell-route_step, proto_of-add_detail,
  route_proto-zebra,
}

-- The entry that an observation of the kernel stage leaves.
abbrev kernel_entry : ℕ → Text → Bool → Text → Tracker → Entry
kernel_entry now p b d t =
    let h : Hop = record { present = b; ts = now; detail = d } in
    witness (entry_or_new p (lookup p t.routes)) 2 h

lookup-observe_kernel :
    (now : ℕ) (p : Text) (b : Bool) (d : Text) (t : Tracker)
    → is_empty p ≡ false
    → (b || present (kernel_entry now p b d t) 1) ≡ true
    → lookup p (Lineage.observe now p 2 b d t).routes ≡ some (kernel_entry now p b d t)
unfolding Lineage.observe
lookup-observe_kernel now p b d t hp keeps =
    ground (arith, lookup-settle p (kernel_entry now p b d t) b t.routes p, text_eq_iff p p)

grace-observe_kernel :
    (now : ℕ) (p : Text) (b : Bool) (d : Text) (t : Tracker)
    → (Lineage.observe now p 2 b d t).grace ≡ t.grace
unfolding Lineage.observe
grace-observe_kernel now p b d t = ground arith

confirmed_entry :
    (now : ℕ) (p d : Text) (t : Tracker)
    → let e = kernel_entry now p true d t in (present e 2 ≡ true) × (e.kproto ≡ proto_of d)
unfolding witness
confirmed_entry now p d t = (refl, refl)

deleted_entry :
    (now : ℕ) (p d : Text) (t : Tracker) (e : Entry)
    → lookup p t.routes ≡ some e
    → let x = kernel_entry now p false d t in
      (present x 1 ≡ present e 1)
      × ((present x 2 ≡ false) × ((x.flagged ≡ e.flagged) × ((x.hops 1).ts ≡ (e.hops 1).ts)))
unfolding witness
deleted_entry now p d t e at = rw at (refl, (refl, (refl, refl)))

-- What Snapshot says of a confirmed entry.
confirmed_gap :
    (e : Entry) (proto : ℕ)
    → present e 2 ≡ true
    → e.kproto ≡ route_proto proto
    → (row_of e).gap ≡ (if present e 1 then [] else if proto == 11 then lit "orphan-kernel" else [])
unfolding row_of
confirmed_gap e proto h k = ground (arith, route_proto-zebra proto)

not_reported :
    (ds : ℕ → Text) (later : ℕ) (t : Tracker) (p : Text) (e : Entry)
    → IsLive t
    → lookup p t.routes ≡ some e
    → present e 2 ≡ true
    → reports p (reconcile ds later t).1 ≡ false
not_reported ds later t p e live at held = elim (Bool-cases (reports p (reconcile ds later t).1)) [
  | inr no_report ↦ no_report
  | inl report ↦
      let (e', at', gap) = (reconcile_exact ds later t p live).0 report in
      absurd (clash e' (sym at ∙ at') gap.unconfirmed)
]
  where
    clash : (e' : Entry) → some e ≡ some e' → present e' 2 ≡ false → ⊥
    clash e' same gone = cc

module _ (w : Wiring) (wired : w.lin ≡ true) (now : ℕ) (t : Tracker) (live : IsLive t) where
  tell-IsLive : (u : RouteUpdate) → IsRead u → IsLive (tell now (route_step w u) t)
  tell-IsLive u read =
      rw (tell-route_step w wired now t u read)
        (observe-IsLive now (route_prefix u.route) 2 (not (is_del u)) (told_detail u) t live)

  added :
      (u : RouteUpdate)
      → IsRead u
      → is_del u ≡ false
      → tell now (route_step w u) t
        ≡ Lineage.observe now (route_prefix u.route) 2 true (add_detail u.route) t
  added u read add = ground (arith, tell-route_step w wired now t u read)

  added_at :
      (u : RouteUpdate)
      → IsRead u
      → is_del u ≡ false
      → lookup (route_prefix u.route) (tell now (route_step w u) t).routes
        ≡ some (kernel_entry now (route_prefix u.route) true (add_detail u.route) t)
  added_at u read add =
      ap (λ x. lookup (route_prefix u.route) x.routes) (added u read add)
      ∙ lookup-observe_kernel now (route_prefix u.route) true (add_detail u.route) t
          (route_prefix_present u.route) refl

  -- With a tracker wired and a well-formed one, an IPv4 or IPv6 route that the kernel adds is confirmed:
  -- a reconcile of the tracker as the message leaves it, with nothing observed in between, does not
  -- report its prefix, however late it comes, and the tracker then holds an entry for the prefix whose
  -- snapshot row has a gap, an orphan one, exactly if no FPM push is held for it and its protocol is
  -- 11, zebra.
  pub route_add_confirms :
      (u : RouteUpdate)
      → IsRead u
      → is_del u ≡ false
      → let p = route_prefix u.route in
        let t' = tell now (route_step w u) t in
        ((ds : ℕ → Text) (later : ℕ) → reports p (reconcile ds later t').1 ≡ false)
        × ((e : Entry) × (lookup p t'.routes ≡ some e)
            × ((row_of e).gap ≡ (
                if present e 1
                then []
                else if u.route.protocol == 11
                then lit "orphan-kernel"
                else [])))
  route_add_confirms u read add =
      let c = confirmed_entry now (route_prefix u.route) (add_detail u.route) t in
      (
        λ ds later. not_reported ds later _ _ _ (tell-IsLive u read) (added_at u read add) (c.0),
        (
          _,
          added_at u read add,
          confirmed_gap _ u.route.protocol (c.0) (c.1 ∙ proto_of-add_detail u.route),
        ),
      )

  deleted :
      (u : RouteUpdate)
      → IsRead u
      → is_del u ≡ true
      → tell now (route_step w u) t
        ≡ Lineage.observe now (route_prefix u.route) 2 false (told_detail u) t
  deleted u read del = ground (arith, tell-route_step w wired now t u read)

  -- With a tracker wired and a well-formed one, a prefix that FPM pushed and that the kernel deletes by an
  -- IPv4 or IPv6 message is reported: when the tracker held the prefix as pushed and not yet reported, a
  -- reconcile that runs later than the grace after the push reports it.
  pub route_del_reports :
      (u : RouteUpdate) (e : Entry)
      → IsRead u
      → is_del u ≡ true
      → lookup (route_prefix u.route) t.routes ≡ some e
      → present e 1 ≡ true
      → e.flagged ≡ false
      → (ds : ℕ → Text) (later : ℕ) → t.grace < later - (e.hops 1).ts
      → reports (route_prefix u.route) (reconcile ds later (tell now (route_step w u) t)).1 ≡ true
  route_del_reports u e read del at pushed unflagged ds later late =
      let p = route_prefix u.route in
      let d = told_detail u in
      let t' = Lineage.observe now p 2 false d t in
      let same = deleted_entry now p d t e at in
      let found : lookup p t'.routes ≡ some (kernel_entry now p false d t) =
        lookup-observe_kernel now p false d t (route_prefix_present u.route) (same.0 ∙ pushed) in
      ap (λ x. reports p (reconcile ds later x).1) (deleted u read del)
      ∙ (reconcile_exact ds later t' p (observe-IsLive now p 2 false d t live)).1 (
        _,
        found,
        record {
          pushed = same.0 ∙ pushed;
          unconfirmed = same.1.0;
          unreported = same.1.1.0 ∙ unflagged;
          overdue = ground (arith, same.1.1.1, grace-observe_kernel now p false d t);
        },
      )
