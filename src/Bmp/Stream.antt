-- ===== src/Bmp/Stream.antt =====
-- internal/ingest/bmp.go: `handle`, the loop over the messages of one connection, and routeMon. The
-- connection is the list of all bytes that bgpd sends; `links n` is what LinkList returns during
-- message `n`.
pub mod Total
use frr_visible.Base.{
  ℕ, zero, suc, ◌+◌, ◌-◌, List, [], ◌∷◌, ◌++◌, Bool, true, false, not, ◌||◌, Option, none, some,
  if◌then◌else◌, ltb, ◌==◌, length, drop,
}
use frr_visible.Base.Outcome.{Outcome, ret, panic, stuck, ◌>>=◌}
use frr_visible.Base.Bytes.{byte_at, slice, be32}
use frr_visible.Base.Text.{Text}
use frr_visible.Gnmi.{Effect, Wiring}
use frr_visible.Bmp.Wire.{per_peer, per_peer_len, PerPeer}
use frr_visible.Bmp.Updates.{parse_update}
use frr_visible.Bmp.Peers.{Bmp, peer_state}

abbrev route_mon_of : Option PerPeer → Wiring → List ℕ → Outcome (List Effect)
route_mon_of none w body = ret []
route_mon_of (some h) w body = parse_update w h.peer (drop per_peer_len body)

unfoldable pub route_mon : Wiring → List ℕ → Outcome (List Effect)
route_mon w body = route_mon_of (per_peer body) w body

-- bmpPeerUp, bmpPeerDown, bmpRouteMon; other types are skipped.
unfoldable pub handle_message :
    Option (List (ℕ × Text)) → Wiring → ℕ → List ℕ → Bmp → Outcome (Bmp × List Effect)
unfolding route_mon
handle_message links w type body b =
    if type == 3
    then peer_state links body true b
    else if type == 2
    then peer_state links body false b
    else if type == 0
    then route_mon w body >>= (λ es. ret (b, es))
    else ret (b, [])

-- bmpHdrLen
abbrev pub bmp_hdr_len : ℕ
bmp_hdr_len = 6

-- No full header, a version that is not 3, a bad length, or a body that is cut short.
unfoldable pub stream_ends : List ℕ → Bool
stream_ends bytes =
    ltb (length bytes) bmp_hdr_len
    || (not (byte_at bytes 0 == 3)
        || (ltb (be32 bytes 1) bmp_hdr_len || ltb (length bytes) (be32 bytes 1)))

module _ (links : ℕ → Option (List (ℕ × Text))) (w : Wiring) where
  unfoldable pub handle : ℕ → ℕ → List ℕ → Bmp → Outcome (Bmp × List Effect)
  handle zero n bytes b = stuck
  handle (suc fuel) n bytes b = elim (stream_ends bytes) [
    | true ↦ ret (b, [])
    | false ↦
        handle_message (links n) w (byte_at bytes 5) (slice bmp_hdr_len (be32 bytes 1) bytes) b
        >>= λ r. handle fuel (n + 1) (drop (be32 bytes 1) bytes) r.0 >>= λ q. ret (q.0, r.1 ++ q.1)
  ]

  -- Each round takes six bytes at least.
  unfoldable pub handle_conn : List ℕ → Bmp → Outcome (Bmp × List Effect)
  handle_conn bytes b = handle (suc (length bytes)) 0 bytes b
