-- ===== src/Netlink/Routes/Kernel.antt =====
-- internal/ingest/netlink.go and internal/lineage/lineage.go: the kernel's route messages as the third
-- stage of the tracker. The detail that routeLoop writes is the one that protoOf reads.
use frr_visible.Base.{
  ℕ, ◌≡◌, refl, [], ◌∷◌, ◌++◌, All, Bool, true, false, not, ◌||◌, Option, none, some, if◌then◌else◌,
  ◌==◌, arith,
}
use frr_visible.Base.Text.{
  Text, lit, itoa, is_empty, after_index, text_eq, text_eq_iff, text_eq_instance,
}
use frr_visible.Base.Text.Lacks.{
  Lacks, IsDigit, itoa-IsDigit, itoa-Lacks, cut_byte-append, after_index-append, is_empty-append,
}
use frr_visible.Net.{ip_string}
use frr_visible.Gnmi.{Wiring}
use frr_visible.Lineage
use frr_visible.Lineage.{
  Tracker, Entry, Hop, fpm, kernel, present, proto_of, first_word, witness, entry_or_new, reconcile,
  row_of,
}
use frr_visible.Lineage.Told.{tell, tell-emit-observe}
use frr_visible.Netlink.Routes.{
  Route, RouteUpdate, IpNet, net_string, dst_text, route_prefix, route_proto, add_detail,
  route_step, route_add, route_del,
}

route_proto-Lacks : (p : ℕ) → Lacks b' ' (route_proto p)
unfolding route_proto lit
route_proto-Lacks p = ground (arith, itoa-Lacks b' ' p)

after_index-proto : (s : Text) → after_index (lit "proto=") (lit "proto=" ++ s) ≡ some s
unfolding lit
after_index-proto s = after_index-append b'p' (lit "roto=") s

first_word-append : (p s : Text) → Lacks b' ' p → first_word (p ++ (lit " nh=" ++ s)) ≡ p
unfolding first_word lit
first_word-append p s h = rw (first_word, cut_byte-append b' ' p (lit "nh=" ++ s) h)

-- protoOf reads the protocol back from the detail of an added route.
pub proto_of-add_detail : (r : Route) → proto_of (add_detail r) ≡ route_proto r.protocol
unfolding proto_of
proto_of-add_detail r =
    rw (proto_of, after_index-proto _) (first_word-append _ _ (route_proto-Lacks r.protocol))

digits-ne-zebra : (s : Text) → All IsDigit s → text_eq s (lit "zebra") ≡ false
unfolding text_eq lit
digits-ne-zebra [] d = refl
digits-ne-zebra (c ∷ s) d = ground (arith, d.0)

-- Of the names, only that of protocol 11 is zebra.
pub route_proto-zebra : (p : ℕ) → text_eq (route_proto p) (lit "zebra") ≡ (p == 11)
unfolding route_proto lit
route_proto-zebra p = ground (
  arith,
  digits-ne-zebra (itoa p) (itoa-IsDigit p),
  text_eq_iff (lit "zebra") (lit "zebra"),
  text_eq_iff (lit "kernel") (lit "zebra"),
  text_eq_iff (lit "boot") (lit "zebra"),
  text_eq_iff (lit "static") (lit "zebra"),
  text_eq_iff (lit "bgp") (lit "zebra"),
  text_eq_iff (lit "ospf") (lit "zebra"),
)

-- Every route has a prefix.
pub route_prefix_present : (r : Route) → is_empty (route_prefix r) ≡ false
unfolding route_prefix net_string lit
route_prefix_present r = present_text r.family r.dst
  where
    present_text : (f : ℕ) (d : Option IpNet) → is_empty (dst_text f d) ≡ false
    present_text f none = ground arith
    present_text f (some n) = is_empty-append (ip_string n.ip) b'/' (itoa n.ones)

-- A message of one of the two families that the loop reads.
abbrev pub IsRead : RouteUpdate → Type 0
IsRead u = (u.route.family == 2 || u.route.family == 10) ≡ true

abbrev pub is_del : RouteUpdate → Bool
is_del u = u.type == 25

abbrev pub told_detail : RouteUpdate → Text
told_detail u = if is_del u then lit "table=" ++ itoa u.route.table else add_detail u.route

module _ (w : Wiring) (wired : w.lin ≡ true) (now : ℕ) (t : Tracker) where
  tell-route_del :
      (p table : Text)
      → tell now (route_del w p table) t ≡ Lineage.observe now p 2 false (lit "table=" ++ table) t
  unfolding route_del tell
  tell-route_del p table = tell-emit-observe now w _ _ p _ false p 2 false _ t wired

  tell-route_add :
      (p table : Text) (r : Route)
      → tell now (route_add w p table r) t ≡ Lineage.observe now p 2 true (add_detail r) t
  unfolding route_add tell
  tell-route_add p table r = tell-emit-observe now w _ _ p _ false p 2 true _ t wired

  -- With a tracker wired, a route message comes to one observation of its prefix.
  pub tell-route_step :
      (u : RouteUpdate)
      → IsRead u
      → tell now (route_step w u) t
        ≡ Lineage.observe now (route_prefix u.route) 2 (not (is_del u)) (told_detail u) t
  unfolding route_step
  tell-route_step u read = ground (
    arith,
    route_prefix_present u.route,
    tell-route_del (route_prefix u.route) (itoa u.route.table),
    tell-route_add (route_prefix u.route) (itoa u.route.table) u.route,
  )
