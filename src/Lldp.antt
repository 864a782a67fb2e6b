-- ===== src/Lldp.antt =====
-- internal/ingest/lldp.go: the LLDP neighbors, reconciled from a snapshot of lldpcli. The output of the
-- command is an argument, after json.Unmarshal; a value that is no string, array or object is `other`,
-- as is the nil that a missing key reads as. A nil map reads as an empty one.
pub mod Shapes
pub mod Cached
use frr_visible.Base.{List, [], ◌∷◌, ◌++◌, Bool, true, false, Option, none, some, if◌then◌else◌}
use frr_visible.Base.Text.{Text, lit, is_empty, text_eq, text_eq_instance}
use frr_visible.Base.Map.{Map, lookup, insert}
use frr_visible.Gnmi.{GnmiPath, elem, keyed, with_leaf, leaf_update, Effect, updates}

-- any, as encoding/json fills it; the fields of an object stand in the order in which a range visits
-- them.
mutual
  pub data Json : Type 0 where
    other : Json
    str : Text → Json
    arr : Items → Json
    obj : Fields → Json

  pub data Items : Type 0 where
    nil : Items
    cons : Json → Items → Items

  pub data Fields : Type 0 where
    end : Fields
    field : Text → Json → Fields → Fields

unfoldable pub get : Text → Fields → Json
get k end = other
get k (field j v fs) = let rest = get k fs in if text_eq j k then v else rest

unfoldable pub has : Text → Fields → Bool
has k end = false
has k (field j v fs) = if text_eq j k then true else has k fs

unfoldable pub as_map : Json → Option Fields
as_map other = none
as_map (str s) = none
as_map (arr xs) = none
as_map (obj fs) = some fs

abbrev pub or_end : Option Fields → Fields
or_end none = end
or_end (some fs) = fs

abbrev first_item : Items → Option Fields
first_item nil = none
first_item (cons x xs) = as_map x

unfoldable pub first_obj : Json → Option Fields
unfolding as_map
first_obj other = none
first_obj (str s) = none
first_obj (arr xs) = first_item xs
first_obj (obj fs) = some fs

unfoldable mutual
  pub as_str : Json → Text
  as_str other = []
  as_str (str s) = s
  as_str (arr xs) = first_str xs
  as_str (obj fs) = []

  pub first_str : Items → Text
  first_str nil = []
  first_str (cons x xs) = as_str x

-- lldpNbr
pub record Neighbor : Type 0 where
  pub ifname : Text
  pub chassis_id : Text
  pub port_id : Text
  pub sys_name : Text
  pub sys_descr : Text
  pub mgmt_ip : Text

abbrev value_or : Option Fields → Text → Text
value_or none old = old
value_or (some id) old = as_str (get (lit "value") id)

unfoldable pub fill_chassis : Fields → Neighbor → Neighbor
unfolding as_map
fill_chassis ch nb = record nb {
  chassis_id = value_or (as_map (get (lit "id") ch)) nb.chassis_id;
  sys_descr = as_str (get (lit "descr") ch);
  mgmt_ip = as_str (get (lit "mgmt-ip") ch);
}

-- The chassis that is keyed by the system's name: the first one.
abbrev keyed_chassis : Fields → Neighbor → Neighbor
keyed_chassis end nb = nb
keyed_chassis (field name cv fs) nb =
    fill_chassis (or_end (as_map cv)) (record nb { sys_name = name })

abbrev chassis_of : Option Fields → Neighbor → Neighbor
chassis_of none nb = nb
chassis_of (some ch) nb =
    if has (lit "id") ch
    then fill_chassis ch (record nb { sys_name = as_str (get (lit "name") ch) })
    else keyed_chassis ch nb

abbrev port_of : Option Fields → Neighbor → Neighbor
port_of none nb = nb
port_of (some port) nb =
    let id = value_or (as_map (get (lit "id") port)) nb.port_id in
    record nb { port_id = if is_empty id then as_str (get (lit "descr") port) else id }

abbrev named_id : Neighbor → Neighbor
named_id nb = if is_empty nb.chassis_id then record nb { chassis_id = nb.sys_name } else nb

unfoldable pub parse_iface : Text → Fields → Neighbor
parse_iface ifname ifm = named_id (
    port_of (as_map (get (lit "port") ifm)) (
      chassis_of (as_map (get (lit "chassis") ifm)) (record {
        ifname = ifname;
        chassis_id = [];
        port_id = [];
        sys_name = [];
        sys_descr = [];
        mgmt_ip = [];
      })))

-- The object that is keyed by the interface's name.
unfoldable pub object_loop : Fields → Map Text Neighbor → Map Text Neighbor
object_loop end res = res
object_loop (field name v fs) res =
    object_loop fs (insert name (parse_iface name (or_end (as_map v))) res)

unfoldable pub array_loop : Items → Map Text Neighbor → Map Text Neighbor
array_loop nil res = res
array_loop (cons e xs) res =
    let m = or_end (as_map e) in
    let name = as_str (get (lit "name") m) in
    array_loop xs
      (if is_empty name then object_loop m res else insert name (parse_iface name m) res)

abbrev pub interfaces : Json → Map Text Neighbor
interfaces other = []
interfaces (str s) = []
interfaces (arr xs) = array_loop xs []
interfaces (obj fs) = object_loop fs []

abbrev pub neighbors_of : Option Fields → Map Text Neighbor
neighbors_of none = []
neighbors_of (some lldp) = interfaces (get (lit "interface") lldp)

-- `none` is a failed unmarshal.
unfoldable pub parse_lldp : Option Fields → Map Text Neighbor
parse_lldp none = []
parse_lldp (some root) = neighbors_of (first_obj (get (lit "lldp") root))

unfoldable pub lldp_elems : Text → Text → Text → GnmiPath
unfolding with_leaf
lldp_elems ifname id leaf =
    with_leaf
      (elem "lldp"
        ∷ elem "interfaces"
        ∷ keyed "interface" ((lit "name", ifname) ∷ [])
        ∷ elem "neighbors"
        ∷ keyed "neighbor" ((lit "id", id) ∷ [])
        ∷ [])
      leaf

-- LLDP; `seen` has the chassis id by interface.
pub record Lldp : Type 0 where
  pub seen : Map Text Text

unfoldable pub nbr_updates : Text → Neighbor → Effect
nbr_updates ifn nb =
    updates (lit "openconfig")
      (leaf_update (lldp_elems ifn nb.chassis_id (lit "chassis-id")) nb.chassis_id
        ∷ leaf_update (lldp_elems ifn nb.chassis_id (lit "port-id")) nb.port_id
        ∷ leaf_update (lldp_elems ifn nb.chassis_id (lit "system-name")) nb.sys_name
        ∷ leaf_update (lldp_elems ifn nb.chassis_id (lit "system-description")) nb.sys_descr
        ∷ leaf_update (lldp_elems ifn nb.chassis_id (lit "management-address")) nb.mgmt_ip
        ∷ [])
      []

-- The loop over the current neighbors: the new `seen` and the calls.
unfoldable pub present_loop : Map Text Neighbor → Map Text Text → Map Text Text × List Effect
present_loop [] seen = (seen, [])
present_loop ((ifn, nb) ∷ cur) seen =
    let skipped = present_loop cur seen in
    let (seen', calls) = present_loop cur (insert ifn nb.chassis_id seen) in
    if is_empty nb.chassis_id then skipped else (seen', nbr_updates ifn nb ∷ calls)

abbrev pub gone_calls : Text → Text → Option Text → List Effect
gone_calls ifn id (some _) = []
gone_calls ifn id none = updates (lit "openconfig") [] (lldp_elems ifn id [] ∷ []) ∷ []

-- The loop over the neighbors seen last time.
unfoldable pub gone_loop : Map Text Text → Map Text Text → List Effect
gone_loop [] seen = []
gone_loop ((ifn, id) ∷ old) seen = gone_calls ifn id (lookup ifn seen) ++ gone_loop old seen

unfoldable pub reconcile_with : Map Text Neighbor → Lldp → Lldp × List Effect
reconcile_with cur l =
    let (seen, calls) = present_loop cur [] in
    (record { seen = seen }, calls ++ gone_loop l.seen seen)

-- `none` is a command that failed.
unfoldable pub reconcile : Option (Option Fields) → Lldp → Lldp × List Effect
reconcile none l = (l, [])
reconcile (some root) l = reconcile_with (parse_lldp root) l
