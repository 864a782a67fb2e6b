-- ===== src/Netlink/Links.antt =====
-- internal/ingest/netlink.go: the interfaces and their counters. Flags, indexes and counters are
-- numbers; `link_type` is what the netlink library's Type says of a link.
use frr_visible.Base.{ℕ, List, [], ◌∷◌, ◌++◌, true, Option, none, some, if◌then◌else◌, ◌==◌}
use frr_visible.Base.Text.{Text, lit, text_eq}
use frr_visible.Base.Bytes.{has_bit}
use frr_visible.Gnmi.{Effect, updates, leaf_update, uint_val_of, Wiring, emit}
use frr_visible.Netlink.Paths.{iface_elems, counter_update}

-- netlink.LinkOperState
pub data OperState : Type 0 where
  unknown : OperState
  not_present : OperState
  down : OperState
  lower_layer_down : OperState
  testing : OperState
  dormant : OperState
  up : OperState

pub record Statistics : Type 0 where
  pub rx_bytes : ℕ
  pub tx_bytes : ℕ
  pub rx_packets : ℕ
  pub tx_packets : ℕ
  pub rx_errors : ℕ
  pub tx_errors : ℕ
  pub rx_dropped : ℕ
  pub tx_dropped : ℕ

-- netlink.Link with its attributes.
pub record Link : Type 0 where
  pub name : Text
  pub flags : ℕ
  pub oper_state : OperState
  pub link_type : Text
  pub index : ℕ
  pub mtu : ℕ
  pub statistics : Option Statistics

pub record LinkUpdate : Type 0 where
  pub type : ℕ
  pub link : Link

unfoldable pub oper_status : OperState → Text
oper_status up = lit "UP"
oper_status down = lit "DOWN"
oper_status lower_layer_down = lit "LOWER_LAYER_DOWN"
oper_status dormant = lit "DORMANT"
oper_status testing = lit "TESTING"
oper_status not_present = lit "NOT_PRESENT"
oper_status unknown = lit "UNKNOWN"

unfoldable pub write_link_state : Link → List Effect
unfolding iface_elems oper_status
write_link_state l =
    updates (lit "openconfig")
      (leaf_update (iface_elems l.name (lit "name")) l.name
        ∷ leaf_update (iface_elems l.name (lit "admin-status"))
            (if has_bit 1 l.flags then lit "UP" else lit "DOWN")
        ∷ leaf_update (iface_elems l.name (lit "oper-status")) (oper_status l.oper_state)
        ∷ leaf_update (iface_elems l.name (lit "type")) l.link_type
        ∷ record { path = iface_elems l.name (lit "ifindex"); val = uint_val_of l.index }
        ∷ record { path = iface_elems l.name (lit "mtu"); val = uint_val_of l.mtu }
        ∷ [])
      []
    ∷ []

-- unix.RTM_DELLINK
abbrev pub rtm_dellink : ℕ
rtm_dellink = 17

unfoldable pub link_step : Wiring → LinkUpdate → List Effect
unfolding write_link_state oper_status iface_elems
link_step w u =
    let name = u.link.name in
    let oper = oper_status u.link.oper_state in
    if u.type == rtm_dellink
    then updates (lit "openconfig") [] (iface_elems name [] ∷ [])
      ∷ emit w (lit "netlink") (lit "link-down") name (lit "link removed") true
    else write_link_state u.link
      ++ emit w (lit "netlink") (if text_eq oper (lit "UP") then lit "link-up" else lit "link-down")
          name (lit "oper=" ++ oper) true

unfoldable pub link_loop : Wiring → List LinkUpdate → List Effect
unfolding link_step
link_loop w [] = []
link_loop w (u ∷ us) = link_step w u ++ link_loop w us

abbrev counters : Text → Statistics → List Effect
counters name s =
    updates (lit "openconfig")
      (counter_update name (lit "in-octets") s.rx_bytes
        ∷ counter_update name (lit "out-octets") s.tx_bytes
        ∷ counter_update name (lit "in-pkts") s.rx_packets
        ∷ counter_update name (lit "out-pkts") s.tx_packets
        ∷ counter_update name (lit "in-errors") s.rx_errors
        ∷ counter_update name (lit "out-errors") s.tx_errors
        ∷ counter_update name (lit "in-discards") s.rx_dropped
        ∷ counter_update name (lit "out-discards") s.tx_dropped
        ∷ [])
      []
    ∷ []

abbrev counters_of : Text → Option Statistics → List Effect
counters_of name none = []
counters_of name (some s) = counters name s

unfoldable pub counters_loop : List Link → List Effect
unfolding counter_update
counters_loop [] = []
counters_loop (l ∷ ls) = counters_of l.name l.statistics ++ counters_loop ls

-- `links` is what LinkList returns, `none` its error.
unfoldable pub sample_counters : Option (List Link) → List Effect
unfolding counters_loop
sample_counters none = []
sample_counters (some ls) = counters_loop ls

unfoldable pub links_loop : List Link → List Effect
unfolding write_link_state
links_loop [] = []
links_loop (l ∷ ls) = write_link_state l ++ links_loop ls
