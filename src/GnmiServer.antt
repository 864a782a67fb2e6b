-- ===== src/GnmiServer.antt =====
-- internal/gnmiserver/server.go: Get, and Recv of the stream that fills in the target. The openconfig
-- library is an argument: `complete_path` is path.CompletePath, and `query` gives the leaves that
-- Query visits, `none` for a leaf that is no notification, with the error that it returns.
pub mod Answers
use frr_visible.Base.{ℕ, String, List, [], ◌∷◌, ◌++◌, Option, none, some, if◌then◌else◌}
use frr_visible.Base.Text.{Text, lit, is_empty}
use frr_visible.State.{FullPath, Notification, Cache}

pub record SubscriptionList : Type 0 where
  pub prefix : Option FullPath
  pub mode : ℕ
  pub subscription : List FullPath

-- A SubscribeRequest: GetSubscribe is not nil, or it is.
pub data Request : Type 0 where
  subscribe : SubscriptionList → Request
  poll : Request

-- What Recv of the stream returns: a request, and an error or none.
pub record Received : Type 0 where
  pub req : Request
  pub failure : Option Text

abbrev or_blank : Option FullPath → FullPath
or_blank none = record { target = []; origin = []; elem = [] }
or_blank (some p) = p

unfoldable pub fill : Text → FullPath → FullPath
fill target p = if is_empty p.target then record p { target = target } else p

abbrev filled : Text → Request → Request
filled target (subscribe sub) =
    subscribe (record sub { prefix = some (fill target (or_blank sub.prefix)) })
filled target poll = poll

abbrev recv_checked : Text → Option Text → Received → Received
recv_checked target none r = record r { req = filled target r.req }
recv_checked target (some e) r = r

unfoldable pub recv : Text → Received → Received
unfolding fill
recv target r = recv_checked target r.failure r

pub record GetRequest : Type 0 where
  pub prefix : Option FullPath
  pub path : List FullPath

pub data Answer : Type 0 where
  found : List Notification → Answer
  invalid_argument : Text → Answer
  not_found : Text → Answer

-- What CompletePath returns.
pub data Completed : Type 0 where
  query_path : List Text → Completed
  bad_path : Text → Completed

abbrev pub prefix_target : Option FullPath → Text
prefix_target none = []
prefix_target (some p) = p.target

-- The leaves that are notifications.
unfoldable pub notifications : List (Option Notification) → List Notification
notifications [] = []
notifications (none ∷ ls) = notifications ls
notifications (some n ∷ ls) = n ∷ notifications ls

-- No path stands for the whole tree.
abbrev pub paths_of : List FullPath → List FullPath
paths_of [] = record { target = []; origin = []; elem = [] } ∷ []
paths_of (p ∷ ps) = p ∷ ps

-- An error is returned at once.
abbrev pub or_return : Answer → (List Notification → Answer) → Answer
or_return (found ns) rest = rest ns
or_return (invalid_argument e) rest = invalid_argument e
or_return (not_found e) rest = not_found e

module _ {C : Type 0} (complete_path : Option FullPath → FullPath → Completed)
    (query : C → Text → List Text → List (Option Notification) × Option Text) where
  abbrev pub visited : List Notification → List (Option Notification) × Option Text → Answer
  visited notifs (leaves, none) = found (notifs ++ notifications leaves)
  visited notifs (leaves, some e) = not_found e

  -- One path, with the notifications of the paths before it.
  unfoldable pub get_path : C → Option FullPath → Text → FullPath → List Notification → Answer
  unfolding notifications
  get_path c prefix target p notifs = elim (complete_path prefix p) [
    | bad_path e ↦ invalid_argument e
    | query_path q ↦ visited notifs (query c target q)
  ]

  unfoldable pub get_loop : C → Option FullPath → Text → List FullPath → List Notification → Answer
  unfolding get_path
  get_loop c prefix target [] notifs = found notifs
  get_loop c prefix target (p ∷ ps) notifs =
      or_return (get_path c prefix target p notifs) (λ notifs'. get_loop c prefix target ps notifs')

  unfoldable pub get : Cache C → GetRequest → Answer
  unfolding get_loop
  get s req =
      let given = prefix_target req.prefix in
      let target = if is_empty given then s.target else given in
      get_loop s.c req.prefix target (paths_of req.path) []

pub record ModelData : Type 0 where
  pub name : Text
  pub organization : Text
  pub version : Text

pub data Encoding : Type 0 where
  json_ietf : Encoding
  proto : Encoding

abbrev open_config : String → ModelData
open_config n = record { name = lit n; organization = lit "OpenConfig"; version = [] }

abbrev private_origin : String → ModelData
private_origin n = record { name = lit n; organization = lit "frr-visible"; version = lit "0.1.0" }

-- The version, the models and the encodings that Capabilities answers.
unfoldable pub capabilities : Text × List ModelData × List Encoding
capabilities = (
  lit "0.10.0",
  open_config "openconfig-interfaces"
      ∷ open_config "openconfig-network-instance"
      ∷ open_config "openconfig-lldp"
      ∷ private_origin "frr"
      ∷ private_origin "host"
      ∷ [],
  json_ietf ∷ proto ∷ [],
)
