-- ===== src/Subtest.antt =====
-- cmd/subtest/main.go: the request that the test client sends, and what it prints of the responses. A
-- list of responses ends where Recv returns an error. The two modes are constants of the gNMI
-- messages, and `show_other` is fmt's %v on a value that is no string and no integer.
pub mod Printed
use frr_visible.Base.{
  ℕ, suc, ◌+◌, ◌≡◌, refl, List, [], ◌∷◌, ◌++◌, Bool, true, false, Option, none, some, if◌then◌else◌,
  length, map, String,
}
use frr_visible.Base.Int.{ℤ, pos, negsuc}
use frr_visible.Base.Map.{Map}
use frr_visible.Base.Text.{Text, lit, is_empty, itoa, split}
use frr_visible.Gnmi.{PathElem, GnmiPath}
use frr_visible.State.{FullPath}
use frr_visible.GnmiServer.{Request, subscribe}

pub record Flags : Type 0 where
  pub target : Text
  pub origin : Text
  pub path : Text
  pub once : Bool

plain_elems : List Text → GnmiPath
plain_elems [] = []
plain_elems (part ∷ parts) =
    let elems = plain_elems parts in
    if is_empty part then elems else record { name = part; key = [] } ∷ elems

unfoldable pub parse_path : Text → GnmiPath
unfolding plain_elems
parse_path s = plain_elems (split s b'/')

unfoldable pub request : ℕ → ℕ → Flags → Request
unfolding parse_path
request stream_mode once_mode f = subscribe (record {
  prefix = some (record { target = f.target; origin = f.origin; elem = [] });
  mode = if f.once then once_mode else stream_mode;
  subscription = record { target = []; origin = []; elem = parse_path f.path } ∷ [];
})

unfoldable pub prefix_elems : Option FullPath → GnmiPath
prefix_elems none = []
prefix_elems (some p) = p.elem

abbrev pub origin_text : Option FullPath → Text
origin_text none = []
origin_text (some p) = if is_empty p.origin then [] else p.origin ++ lit ":"

keys_text : Map Text Text → Text
keys_text [] = []
keys_text ((k, v) ∷ m) = lit "[" ++ (k ++ (lit "=" ++ (v ++ (lit "]" ++ keys_text m))))

elems_text : GnmiPath → Text
unfolding keys_text
elems_text [] = []
elems_text (e ∷ es) = lit "/" ++ (e.name ++ (keys_text e.key ++ elems_text es))

unfoldable pub path_str : Option FullPath → Option FullPath → Text
unfolding prefix_elems elems_text
path_str prefix p = origin_text prefix ++ elems_text (prefix_elems prefix ++ prefix_elems p)

pub data SentValue (V : Type 0) : Type 0 where
  string_val : Text → SentValue V
  uint_val : ℕ → SentValue V
  int_val : ℤ → SentValue V
  other_val : V → SentValue V

abbrev int_text : ℤ → Text
int_text (pos n) = itoa n
int_text (negsuc n) = lit "-" ++ itoa (suc n)

pub record SentUpdate (V : Type 0) : Type 0 where
  pub path : Option FullPath
  pub val : Option (SentValue V)

pub data Response (V : Type 0) : Type 0 where
  update : Option FullPath → List (SentUpdate V) → List (Option FullPath) → Response V
  sync_response : Response V
  other_response : Response V

module _ {V : Type 0} (show_other : V → Text) where
  unfoldable pub val_str : Option (SentValue V) → Text
  val_str none = lit "<nil>"
  val_str (some (string_val s)) = s
  val_str (some (uint_val n)) = itoa n
  val_str (some (int_val z)) = int_text z
  val_str (some (other_val v)) = show_other v

  abbrev pub update_line : Option FullPath → SentUpdate V → Text
  update_line prefix u = lit "UPDATE " ++ (path_str prefix u.path ++ (lit " = " ++ val_str u.val))

  abbrev pub delete_line : Option FullPath → Option FullPath → Text
  delete_line prefix d = lit "DELETE " ++ path_str prefix d

  abbrev pub sync_line : ℕ → ℕ → Text
  sync_line updates deletes =
      lit "--- sync_response (updates="
      ++ (itoa updates ++ (lit " deletes=" ++ (itoa deletes ++ lit ") ---")))

  -- The loop over Recv, with the two counters. A line is printed without its newline.
  unfoldable pub print_loop : Bool → ℕ → ℕ → List (Response V) → List Text
  unfolding val_str path_str
  print_loop once updates deletes [] = []
  print_loop once updates deletes (update prefix us ds ∷ rs) =
      map (update_line prefix) us
      ++ (map (delete_line prefix) ds
          ++ print_loop once (updates + length us) (deletes + length ds) rs)
  print_loop once updates deletes (sync_response ∷ rs) =
      let more = print_loop once updates deletes rs in
      sync_line updates deletes ∷ (if once then [] else more)
  print_loop once updates deletes (other_response ∷ rs) = print_loop once updates deletes rs

  unfoldable pub print : Bool → List (Response V) → List Text
  unfolding print_loop
  print once rs = print_loop once 0 0 rs
