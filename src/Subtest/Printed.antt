-- ===== src/Subtest/Printed.antt =====
-- cmd/subtest/main.go: what the client prints up to a sync_response, the paths it reads and prints, and
-- its request at the server of internal/gnmiserver/server.go.
use frr_visible.Base.{
  ℕ, ◌+◌, ◌≡◌, refl, sym, ap, ◌∙◌, List, [], ◌∷◌, ◌++◌, Bool, true, false, Option, none, some,
  if◌then◌else◌, length, map, arith, All, append_assoc, Bool-cases, inl, inr, length-append,
  append-nil,
}
use frr_visible.Base.Text.{Text, lit, is_empty, split, join}
use frr_visible.Base.Text.Lacks.{Lacks, split-join}
use frr_visible.Gnmi.{PathElem, GnmiPath}
use frr_visible.State.{FullPath}
use frr_visible.GnmiServer.{recv, fill}
use frr_visible.Subtest.{
  Flags, parse_path, plain_elems, request, path_str, elems_text, keys_text, prefix_elems,
  SentUpdate, Response, update, sync_response, other_response, update_line, delete_line, sync_line,
  print_loop, print,
}

-- An element that a slash-separated path can name.
abbrev pub IsPlain : PathElem → Type 0
IsPlain e = (is_empty e.name ≡ false) × Lacks b'/' e.name × (e.key ≡ [])

names_of : GnmiPath → List Text
names_of [] = []
names_of (e ∷ es) = e.name ∷ names_of es

elems_text-join :
    (n : Text) (es : GnmiPath)
    → All IsPlain es
    → n ++ elems_text es ≡ join (n ∷ names_of es) (b'/' ∷ [])
unfolding elems_text join keys_text names_of lit
elems_text-join n [] h = append-nil n
elems_text-join n (e ∷ es) h = rw (h.0.2) (ap (λ t. n ++ b'/' ∷ t) (elems_text-join e.name es h.1))

names-Lacks : (es : GnmiPath) → All IsPlain es → All (Lacks b'/') (names_of es)
unfolding names_of
names-Lacks [] h = tt
names-Lacks (e ∷ es) h = (h.0.1, names-Lacks es h.1)

plain_elems-names : (es : GnmiPath) → All IsPlain es → plain_elems (names_of es) ≡ es
unfolding names_of plain_elems
plain_elems-names [] h = refl
plain_elems-names (e ∷ es) h =
    rw (h.0.0, plain_elems-names es h.1)
      (ap (λ k. record { name = e.name; key = k } ∷ es) (sym h.0.2))

-- parsePath reads the text that pathStr prints of a path without keys, whose names are not empty and
-- have no slash.
pub parse_path-path_str :
    (p : FullPath) → All IsPlain p.elem → parse_path (path_str none (some p)) ≡ p.elem
unfolding parse_path path_str prefix_elems plain_elems
parse_path-path_str p h =
    ap (λ t. plain_elems (split t b'/')) (elems_text-join [] p.elem h)
    ∙ ap plain_elems (split-join b'/' [] (names_of p.elem) (tt, names-Lacks p.elem h))
    ∙ plain_elems-names p.elem h

module _ {V : Type 0} where
  abbrev pub IsNoSync : Response V → Type 0
  IsNoSync sync_response = ⊥
  IsNoSync (update prefix us ds) = Unit
  IsNoSync other_response = Unit

  unfoldable pub updates_of : List (Response V) → List (SentUpdate V)
  updates_of [] = []
  updates_of (update prefix us ds ∷ rs) = us ++ updates_of rs
  updates_of (sync_response ∷ rs) = updates_of rs
  updates_of (other_response ∷ rs) = updates_of rs

  unfoldable pub deletes_of : List (Response V) → List (Option FullPath)
  deletes_of [] = []
  deletes_of (update prefix us ds ∷ rs) = ds ++ deletes_of rs
  deletes_of (sync_response ∷ rs) = deletes_of rs
  deletes_of (other_response ∷ rs) = deletes_of rs

module _ {V : Type 0} (show_other : V → Text) where
  -- The lines of the responses, each with its updates in front of its deletes.
  unfoldable pub lines_of : List (Response V) → List Text
  lines_of [] = []
  lines_of (update prefix us ds ∷ rs) =
      map (update_line show_other prefix) us
      ++ (map (delete_line show_other prefix) ds ++ lines_of rs)
  lines_of (sync_response ∷ rs) = lines_of rs
  lines_of (other_response ∷ rs) = lines_of rs

  print_loop-append :
      (once : Bool) (u d : ℕ) (rs after : List (Response V))
      → All IsNoSync rs
      → print_loop show_other once u d (rs ++ after)
        ≡ lines_of rs
          ++ print_loop show_other once
              (u + length (updates_of rs))
              (d + length (deletes_of rs))
              after
  unfolding print_loop lines_of updates_of deletes_of
  print_loop-append once u d [] after h =
      let hu : u + 0 ≡ u = omega arith in let hd : d + 0 ≡ d = omega arith in rw (hu, hd) refl
  print_loop-append once u d (sync_response ∷ rs) after h = absurd h.0
  print_loop-append once u d (other_response ∷ rs) after h = print_loop-append once u d rs after h.1
  print_loop-append once u d (update prefix us ds ∷ rs) after h =
      let hu : u + (length us + length (updates_of rs)) ≡ u + length us + length (updates_of rs) =
        omega arith in
      let hd : d + (length ds + length (deletes_of rs)) ≡ d + length ds + length (deletes_of rs) =
        omega arith in
      rw
        (
          print_loop-append once (u + length us) (d + length ds) rs after h.1,
          length-append us (updates_of rs),
          length-append ds (deletes_of rs),
          hu,
          hd,
        )
        (simp append_assoc)

  -- In ONCE mode the client prints, of any responses up to the first sync_response, a line for each
  -- update and each delete, in their order, and then the numbers of both, and nothing of what follows.
  pub print_once :
      (rs after : List (Response V))
      → All IsNoSync rs
      → print show_other true (rs ++ sync_response ∷ after)
        ≡ lines_of rs ++ sync_line show_other (length (updates_of rs)) (length (deletes_of rs)) ∷ []
  unfolding print
  print_once rs after h =
      print_loop-append true 0 0 rs (sync_response ∷ after) h
      ∙ (let hu : 0 + length (updates_of rs) ≡ length (updates_of rs) = omega arith in
          let hd : 0 + length (deletes_of rs) ≡ length (deletes_of rs) = omega arith in
          rw (hu, hd) refl)

-- The server takes the request as it is, with its own target where the client's flag is empty.
pub recv-request :
    (target : Text) (stream_mode once_mode : ℕ) (f : Flags)
    → recv target (record { req = request stream_mode once_mode f; failure = none }) ≡ record {
      req =
          request stream_mode once_mode
            (record f { target = if is_empty f.target then target else f.target });
      failure = none;
    }
unfolding recv fill request
recv-request target stream_mode once_mode f = elim (Bool-cases (is_empty f.target)) [
  | inl empty ↦ rw empty refl
  | inr given ↦ rw given refl
]
