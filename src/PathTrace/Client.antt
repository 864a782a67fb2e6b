-- ===== src/PathTrace/Client.antt =====
-- cmd/pathtrace-exporter/main.go: client and get, with the connections that `client` keeps. A connection
-- is a `Conn`; `dial` is grpc.NewClient with NewGNMIClient, `none` for an error, and `ask` is the Get of a
-- connection within its timeout.
pub mod Fresh
use frr_visible.Base.{
  ℕ, ◌≡◌, refl, sym, ap, ◌∙◌, List, [], ◌∷◌, ◌++◌, Bool, true, false, Option, none, some,
  if◌then◌else◌, arith, Bool-cases, inl, inr,
}
use frr_visible.Base.Text.{Text, lit, is_empty, cut_byte, text_eq, text_eq_instance, text_eq_iff}
use frr_visible.Base.Map.{Map, lookup, insert, lookup-insert}
use frr_visible.Gnmi.{Update}
use frr_visible.State.{FullPath, Notification}
use frr_visible.GnmiServer.{GetRequest}

-- inventory[node], with "" where it is missing.
abbrev pub or_blank : Option Text → Text
or_blank none = []
or_blank (some a) = a

abbrev has_byte : ℕ → Text → Bool
has_byte b s = elim (cut_byte b s) [ none ↦ false | some parts ↦ true ]

unfoldable pub dial_address : Text → Text
unfolding cut_byte
dial_address addr = if has_byte b':' addr then addr else addr ++ lit ":9339"

unfoldable pub updates_of : List Notification → List Update
updates_of [] = []
updates_of (n ∷ ns) = n.update ++ updates_of ns

module _ {Conn : Type 0} (inventory : Map Text Text) (dial : Text → Option Conn)
    (ask : Conn → GetRequest → Option (List Notification)) where
  abbrev pub keep : Text → Map Text Conn → Option Conn → Option Conn × Map Text Conn
  keep node clients none = (none, clients)
  keep node clients (some c) = (some c, insert node c clients)

  -- A new connection to a node of the inventory.
  unfoldable pub dialed : Text → Option Conn
  unfolding dial_address
  dialed node =
      let addr = or_blank (lookup node inventory) in
      if is_empty addr then none else dial (dial_address addr)

  abbrev pub cached : Text → Map Text Conn → Option Conn → Option Conn × Map Text Conn
  cached node clients (some c) = (some c, clients)
  cached node clients none = keep node clients (dialed node)

  unfoldable pub client : Text → Map Text Conn → Option Conn × Map Text Conn
  unfolding dialed
  client node clients = cached node clients (lookup node clients)

  abbrev pub get_request : FullPath → GetRequest
  get_request p = record { prefix = none; path = p ∷ [] }

  abbrev answered : Option (List Notification) → List Update
  answered none = []
  answered (some ns) = updates_of ns

  abbrev pub asked : FullPath → Option Conn → List Update
  asked p none = []
  asked p (some c) = answered (ask c (get_request p))

  unfoldable pub get : Text → FullPath → Map Text Conn → List Update × Map Text Conn
  unfolding client updates_of
  get node p clients = let (c, clients') = client node clients in (asked p c, clients')
