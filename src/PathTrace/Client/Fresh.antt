-- ===== src/PathTrace/Client/Fresh.antt =====
-- cmd/pathtrace-exporter/main.go: what get answers does not depend on the connections that are kept.
use frr_visible.Base.{
  ◌≡◌, refl, sym, ap, ◌∙◌, List, [], ◌∷◌, Option, none, some, map, Bool-cases, if_true, if_false,
  inl, inr,
}
use frr_visible.Base.Text.{Text, text_eq, text_eq_instance, text_eq_iff}
use frr_visible.Base.Map.{Map, lookup, lookup-insert}
use frr_visible.Gnmi.{Update}
use frr_visible.State.{FullPath, Notification}
use frr_visible.GnmiServer.{GetRequest}
use frr_visible.PathTrace.Client.{keep, cached, client, asked, get, dialed}

module _ {Conn : Type 0} (inventory : Map Text Text) (dial : Text → Option Conn)
    (ask : Conn → GetRequest → Option (List Notification)) where
  -- Every kept connection is the one that dialing its node gives.
  abbrev pub IsDialed : Map Text Conn → Type 0
  IsDialed m =
      (node : Text) (c : Conn) → lookup node m ≡ some c → dialed inventory dial ask node ≡ some c

  keep-IsDialed :
      (node : Text) (m : Map Text Conn) (o : Option Conn)
      → dialed inventory dial ask node ≡ o
      → IsDialed m
      → ((keep inventory dial ask node m o).0 ≡ o) × IsDialed (keep inventory dial ask node m o).1
  keep-IsDialed node m none e h = (refl, h)
  keep-IsDialed node m (some c) e h = (
    refl,
    (λ n d hd. elim (Bool-cases (text_eq node n)) [
      | inl same ↦
          ap (dialed inventory dial ask) (sym ((text_eq_iff node n).0 same))
          ∙ e
          ∙ sym (if_true (text_eq node n) (some c) (lookup n m) same)
          ∙ sym (lookup-insert node n c m)
          ∙ hd
      | inr other ↦ h n d (
          sym (if_false (text_eq node n) (some c) (lookup n m) other)
          ∙ sym (lookup-insert node n c m)
          ∙ hd)
    ]),
  )

  cached-IsDialed :
      (node : Text) (m : Map Text Conn) (o : Option Conn)
      → lookup node m ≡ o
      → IsDialed m
      → ((cached inventory dial ask node m o).0 ≡ dialed inventory dial ask node)
        × IsDialed (cached inventory dial ask node m o).1
  cached-IsDialed node m none e h = keep-IsDialed node m (dialed inventory dial ask node) refl h
  cached-IsDialed node m (some c) e h = (sym (h node c e), h)

  -- A get answers what a new connection to the node would answer, and keeps the invariant.
  get-IsDialed :
      (node : Text) (p : FullPath) (m : Map Text Conn)
      → IsDialed m
      → ((get inventory dial ask node p m).0
          ≡ asked inventory dial ask p (dialed inventory dial ask node))
        × IsDialed (get inventory dial ask node p m).1
  unfolding get client
  get-IsDialed node p m h =
      let (same, kept) = cached-IsDialed node m (lookup node m) refl h in
      (ap (asked inventory dial ask p) same, kept)

  unfoldable pub get_all : List (Text × FullPath) → Map Text Conn → List (List Update)
  get_all [] m = []
  get_all ((node, p) ∷ rs) m = let (us, m') = get inventory dial ask node p m in us ∷ get_all rs m'

  get_all-IsDialed :
      (rs : List (Text × FullPath)) (m : Map Text Conn)
      → IsDialed m
      → get_all rs m ≡ map (λ r. asked inventory dial ask r.1 (dialed inventory dial ask r.0)) rs
  unfolding get_all
  get_all-IsDialed [] m h = refl
  get_all-IsDialed ((node, p) ∷ rs) m h =
      let (same, kept) = get-IsDialed node p m h in rw (same, get_all-IsDialed rs _ kept) refl

  -- From no connections, any sequence of gets answers as if each dialed its node anew: a get of a node
  -- that is not in the inventory, cannot be dialed or does not answer gives no updates.
  pub get_all-dialed :
      (rs : List (Text × FullPath))
      → get_all rs [] ≡ map (λ r. asked inventory dial ask r.1 (dialed inventory dial ask r.0)) rs
  unfolding lookup
  get_all-dialed rs = get_all-IsDialed rs [] (λ node c e. cc)
