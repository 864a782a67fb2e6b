-- ===== src/Lldp/Cached.antt =====
-- internal/ingest/lldp.go: what the calls of a reconcile leave of a neighbor in the cache.
pub mod Loops
pub mod Reconcile
use frr_visible.Base.{
  ◌≡◌, refl, subst, sym, ap, ◌∙◌, inl, inr, List, [], ◌∷◌, ◌++◌, Bool, true, false, ◌&&◌, ◌||◌,
  Option, none, some, if◌then◌else◌, arith, Bool-cases,
}
use frr_visible.Base.Text.{Text, lit, is_empty, text_eq, text_eq_iff, text_eq_instance}
use frr_visible.Base.Map.{Map, lookup, insert, lookup-insert, IsDistinct, insert-IsDistinct}
use frr_visible.Gnmi.{GnmiPath, Update, Effect, updates, emits, observes, with_leaf, leaf_update}
use frr_visible.PathTrace.Lookups.{dissect}
use frr_visible.Lldp.{
  Json, other, str, arr, obj, Items, nil, cons, Fields, end, field, get, as_map, as_str, first_obj,
  or_end, parse_iface, object_loop, array_loop, interfaces, neighbors_of, parse_lldp, reconcile,
  Neighbor, Lldp, lldp_elems, nbr_updates, present_loop, gone_loop, gone_calls, reconcile_with,
}

abbrev pub is_some : Option Text → Text → Bool
is_some none s = false
is_some (some t) s = text_eq t s

abbrev pub or_else : Option Text → Option Text → Option Text
or_else none o = o
or_else (some x) o = some x

abbrev pub is_none : Option Text → Bool
is_none none = true
is_none (some x) = false

-- The path lies at or below the entry of the neighbor `id` on the interface.
unfoldable pub is_entry : Text → Text → GnmiPath → Bool
is_entry ifn id p =
    is_some (lookup (lit "name") (dissect p).0) ifn && is_some (lookup (lit "id") (dissect p).0) id

unfoldable pub any_update : Text → Text → List Update → Bool
any_update ifn id [] = false
any_update ifn id (u ∷ us) = is_entry ifn id u.path || any_update ifn id us

unfoldable pub any_path : Text → Text → List GnmiPath → Bool
any_path ifn id [] = false
any_path ifn id (p ∷ ps) = is_entry ifn id p || any_path ifn id ps

-- Whether the cache has the entry after a call, and after the calls in order.
abbrev pub after_call : Text → Text → Effect → Bool → Bool
after_call ifn id (updates o ups dels) b =
    if any_update ifn id ups then true else if any_path ifn id dels then false else b
after_call ifn id (emits bus kind key detail root) b = b
after_call ifn id (observes prefix stage present detail) b = b

unfoldable pub cached : Text → Text → List Effect → Bool → Bool
cached ifn id [] b = b
cached ifn id (c ∷ cs) b = cached ifn id cs (after_call ifn id c b)

-- The chassis id that a snapshot has for the interface, where it has one.
abbrev pub nonblank : Text → Option Text
nonblank id = if is_empty id then none else some id

abbrev pub id_of : Option Neighbor → Option Text
id_of none = none
id_of (some nb) = nonblank nb.chassis_id

abbrev pub current : Map Text Neighbor → Text → Option Text
current cur ifn = id_of (lookup ifn cur)

is_entry-lldp_elems :
    (ifn id i d leaf : Text)
    → is_entry ifn id (lldp_elems i d leaf) ≡ (text_eq i ifn && text_eq d id)
unfolding is_entry lldp_elems with_leaf dissect lit lookup insert text_eq
is_entry-lldp_elems ifn id i d [] = refl
is_entry-lldp_elems ifn id i d (c ∷ leaf) = refl

module _ (ifn id : Text) where
  -- The neighbor's updates write the entry, and its deletion takes the entry out.
  pub after-nbr_updates :
      (i : Text) (nb : Neighbor) (b : Bool)
      → after_call ifn id (nbr_updates i nb) b
        ≡ (if text_eq i ifn && text_eq nb.chassis_id id then true else b)
  unfolding nbr_updates leaf_update any_update any_path
  after-nbr_updates i nb b = ground (
    arith,
    is_entry-lldp_elems ifn id i nb.chassis_id (lit "chassis-id"),
    is_entry-lldp_elems ifn id i nb.chassis_id (lit "port-id"),
    is_entry-lldp_elems ifn id i nb.chassis_id (lit "system-name"),
    is_entry-lldp_elems ifn id i nb.chassis_id (lit "system-description"),
    is_entry-lldp_elems ifn id i nb.chassis_id (lit "management-address"),
  )

  pub cached-append :
      (cs ds : List Effect) (b : Bool)
      → cached ifn id (cs ++ ds) b ≡ cached ifn id ds (cached ifn id cs b)
  unfolding cached
  cached-append [] ds b = refl
  cached-append (c ∷ cs) ds b = cached-append cs ds (after_call ifn id c b)

  pub cached-gone_calls :
      (i d : Text) (o : Option Text) (b : Bool)
      → cached ifn id (gone_calls i d o) b
        ≡ (if text_eq i ifn && (text_eq d id && is_none o) then false else b)
  unfolding cached any_update any_path
  cached-gone_calls i d (some x) b = ground arith
  cached-gone_calls i d none b = ground (arith, is_entry-lldp_elems ifn id i d [])
