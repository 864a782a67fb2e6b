-- ===== src/Lldp/Shapes.antt =====
-- internal/ingest/lldp.go: the three shapes in which lldpcli renders the interfaces.
use frr_visible.Base.{◌≡◌, refl, ◌∙◌, [], false, Option, some}
use frr_visible.Base.Text.{Text, lit, is_empty, text_eq, text_eq_instance}
use frr_visible.Base.Map.{Map, insert}
use frr_visible.Lldp.{
  Json, str, arr, obj, Items, nil, cons, Fields, end, field, get, first_obj, as_map, as_str, or_end,
  Neighbor, parse_iface, object_loop, array_loop, parse_lldp,
}

-- The interfaces of an object as an array of objects with one field each.
unfoldable pub singles : Fields → Items
singles end = nil
singles (field name v fs) = cons (obj (field name v end)) (singles fs)

-- The interfaces of an object as an array of objects that hold their name.
unfoldable pub with_names : Fields → Items
with_names end = nil
with_names (field name v fs) =
    cons (obj (field (lit "name") (str name) (or_end (as_map v)))) (with_names fs)

-- Names of interfaces, none of which is blank or "name".
abbrev pub AreNames : Fields → Type 0
AreNames end = Unit {0}
AreNames (field name v fs) =
    (is_empty name ≡ false) × (text_eq name (lit "name") ≡ false) × AreNames fs

object_loop-field :
    (name : Text) (v : Json) (fs : Fields) (res : Map Text Neighbor)
    → object_loop fs (insert name (parse_iface name (or_end (as_map v))) res)
      ≡ object_loop (field name v fs) res
unfolding object_loop
object_loop-field name v fs res = refl

name_of-single :
    (name : Text) (v : Json)
    → text_eq name (lit "name") ≡ false
    → as_str (get (lit "name") (field name v end)) ≡ []
unfolding get as_str
name_of-single name v h = rw h refl

array_loop-single :
    (name : Text) (v : Json) (xs : Items) (res : Map Text Neighbor)
    → text_eq name (lit "name") ≡ false
    → array_loop (cons (obj (field name v end)) xs) res
      ≡ array_loop xs (insert name (parse_iface name (or_end (as_map v))) res)
unfolding array_loop object_loop as_map
array_loop-single name v xs res h = rw (name_of-single name v h) refl

array_loop-singles :
    (fs : Fields) (res : Map Text Neighbor)
    → AreNames fs
    → array_loop (singles fs) res ≡ object_loop fs res
unfolding singles
array_loop-singles end res h = unfold array_loop object_loop in refl
array_loop-singles (field name v fs) res h =
    array_loop-single name v (singles fs) res (h.1)
    ∙ array_loop-singles fs (insert name (parse_iface name (or_end (as_map v))) res) (h.2)
    ∙ object_loop-field name v fs res

-- parseIface does not look at the name.
parse_iface-name :
    (ifname name : Text) (m : Fields)
    → parse_iface ifname (field (lit "name") (str name) m) ≡ parse_iface ifname m
unfolding parse_iface get text_eq lit
parse_iface-name ifname name m = refl

get-name :
    (name : Text) (m : Fields) → as_str (get (lit "name") (field (lit "name") (str name) m)) ≡ name
unfolding get text_eq lit as_str
get-name name m = refl

array_loop-named :
    (name : Text) (m : Fields) (xs : Items) (res : Map Text Neighbor)
    → is_empty name ≡ false
    → array_loop (cons (obj (field (lit "name") (str name) m)) xs) res
      ≡ array_loop xs (insert name (parse_iface name m) res)
unfolding array_loop as_map
array_loop-named name m xs res h = rw (get-name name m, h, parse_iface-name name name m) refl

array_loop-with_names :
    (fs : Fields) (res : Map Text Neighbor)
    → AreNames fs
    → array_loop (with_names fs) res ≡ object_loop fs res
unfolding with_names
array_loop-with_names end res h = unfold array_loop object_loop in refl
array_loop-with_names (field name v fs) res h =
    array_loop-named name (or_end (as_map v)) (with_names fs) res (h.0)
    ∙ array_loop-with_names fs (insert name (parse_iface name (or_end (as_map v))) res) (h.2)
    ∙ object_loop-field name v fs res

-- What lldpcli prints, with this value for the interfaces.
abbrev pub printed : Json → Option Fields
printed v = some (field (lit "lldp") (obj (field (lit "interface") v end)) end)

-- The three shapes of the same interfaces, an object by name, an array of objects with one field, and an
-- array of objects that hold the name, are read as the same neighbors, where no name is blank or "name".
pub parse_lldp_shapes :
    (fs : Fields)
    → AreNames fs
    → (parse_lldp (printed (arr (singles fs))) ≡ parse_lldp (printed (obj fs)))
      × (parse_lldp (printed (arr (with_names fs))) ≡ parse_lldp (printed (obj fs)))
unfolding parse_lldp get first_obj text_eq lit
parse_lldp_shapes fs h = (array_loop-singles fs [] h, array_loop-with_names fs [] h)
