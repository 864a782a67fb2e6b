-- ===== src/Lldp/Cached/Reconcile.antt =====
-- internal/ingest/lldp.go: a whole reconcile, from what lldpcli prints to the cache.
use frr_visible.Base.{
  ◌≡◌, refl, ◌∙◌, inl, inr, [], ◌∷◌, Bool, true, false, ◌&&◌, Option, none, some, if◌then◌else◌,
  arith, Bool-cases,
}
use frr_visible.Base.Text.{Text, lit, is_empty, text_eq, text_eq_instance}
use frr_visible.Base.Map.{Map, lookup, insert, IsDistinct, insert-IsDistinct}
use frr_visible.Lldp.{
  Json, other, str, arr, obj, Items, nil, cons, Fields, end, field, get, as_map, as_str, first_obj,
  or_end, parse_iface, object_loop, array_loop, interfaces, neighbors_of, parse_lldp, reconcile,
  Neighbor, Lldp, present_loop, gone_loop, reconcile_with,
}
use frr_visible.Lldp.Cached.{is_some, is_none, or_else, cached, current, cached-append}
use frr_visible.Lldp.Cached.Loops.{cached-gone_loop, cached-present_loop, seen-present_loop}

present_loop-IsDistinct :
    (cur : Map Text Neighbor) (seen : Map Text Text)
    → IsDistinct seen
    → IsDistinct (present_loop cur seen).0
unfolding present_loop
present_loop-IsDistinct [] seen h = h
present_loop-IsDistinct ((i, nb) ∷ cur) seen h = ground (
  arith,
  present_loop-IsDistinct cur seen h,
  present_loop-IsDistinct cur (insert i nb.chassis_id seen)
      (insert-IsDistinct i nb.chassis_id seen h),
)

object_loop-IsDistinct :
    (fs : Fields) (res : Map Text Neighbor) → IsDistinct res → IsDistinct (object_loop fs res)
unfolding object_loop
object_loop-IsDistinct end res h = h
object_loop-IsDistinct (field name v fs) res h =
    object_loop-IsDistinct fs _
      (insert-IsDistinct name (parse_iface name (or_end (as_map v))) res h)

array_loop-IsDistinct :
    (xs : Items) (res : Map Text Neighbor) → IsDistinct res → IsDistinct (array_loop xs res)
unfolding array_loop
array_loop-IsDistinct nil res h = h
array_loop-IsDistinct (cons e xs) res h =
    let m = or_end (as_map e) in
    let name = as_str (get (lit "name") m) in
    elim (Bool-cases (is_empty name)) [
      | inl blank ↦ rw blank (array_loop-IsDistinct xs _ (object_loop-IsDistinct m res h))
      | inr named ↦
          rw named (array_loop-IsDistinct xs _ (insert-IsDistinct name (parse_iface name m) res h))
    ]

parse_lldp-IsDistinct : (root : Option Fields) → IsDistinct (parse_lldp root)
unfolding parse_lldp
parse_lldp-IsDistinct none = tt
parse_lldp-IsDistinct (some root) = go (first_obj (get (lit "lldp") root))
  where
    of_interfaces : (v : Json) → IsDistinct (interfaces v)
    of_interfaces other = tt
    of_interfaces (str s) = tt
    of_interfaces (arr xs) = array_loop-IsDistinct xs [] tt
    of_interfaces (obj fs) = object_loop-IsDistinct fs [] tt

    go : (o : Option Fields) → IsDistinct (neighbors_of o)
    go none = tt
    go (some lldp) = of_interfaces (get (lit "interface") lldp)

-- What becomes of the entry `id` of an interface, where the snapshot has `new` for the interface and the
-- one before had `old`.
abbrev pub kept : Option Text → Option Text → Text → Bool → Bool
kept (some d) old id b = if text_eq d id then true else b
kept none old id b = if is_some old id then false else b

kept_by_loops :
    (new old : Option Text) (id : Text) (b : Bool)
    → (if is_some old id && is_none new then false else if is_some new id then true else b)
      ≡ kept new old id b
kept_by_loops none old id b = ground arith
kept_by_loops (some d) old id b = ground arith

known_only : (ifn : Text) (o : Option Text) → or_else o (lookup {V = Text} ifn []) ≡ o
unfolding lookup
known_only ifn none = refl
known_only ifn (some x) = refl

-- After a reconcile by an ingester that knew no interface twice, it knows the chassis id of each interface
-- of the snapshot, and no other. An entry of the cache is there if the snapshot has it; it is deleted if
-- the snapshot has no neighbor for its interface and the one before had it; and it stays as it was
-- otherwise, so also when the interface has got another neighbor.
pub reconcile-cached :
    (root : Option Fields) (l : Lldp) (ifn id : Text) (b : Bool)
    → IsDistinct l.seen
    → let r = reconcile (some root) l in
      IsDistinct r.0.seen
      × (lookup ifn r.0.seen ≡ current (parse_lldp root) ifn)
      × (cached ifn id r.1 b ≡ kept (current (parse_lldp root) ifn) (lookup ifn l.seen) id b)
unfolding reconcile reconcile_with
reconcile-cached root l ifn id b h =
    let cur = parse_lldp root in
    let hc = parse_lldp-IsDistinct root in
    let known = seen-present_loop ifn cur [] hc ∙ known_only ifn (current cur ifn) in
    (
      present_loop-IsDistinct cur [] tt,
      known,
      cached-append ifn id (present_loop cur []).1 (gone_loop l.seen (present_loop cur []).0) b
          ∙ cached-gone_loop ifn id l.seen (present_loop cur []).0 _ h
          ∙ rw (known, cached-present_loop ifn id cur [] b hc)
              (kept_by_loops _ (lookup ifn l.seen) id b),
    )
