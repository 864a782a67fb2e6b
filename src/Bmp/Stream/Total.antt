-- ===== src/Bmp/Stream/Total.antt =====
-- internal/ingest/bmp.go: termination of the loop over a BMP connection.
use frr_visible.Base.{
  ℕ, zero, suc, ◌+◌, ◌<◌, ◌≡◌, ◌≢◌, List, true, false, Option, none, some, length, drop, arith,
  length-drop, Bool-cases, inl, inr, ◌++◌,
}
use frr_visible.Base.Outcome.{ret, stuck, ◌>>=◌, bind-ne-stuck}
use frr_visible.Base.Bytes.{byte_at, slice, be32}
use frr_visible.Base.Text.{Text}
use frr_visible.Gnmi.{Wiring}
use frr_visible.Bmp.Wire.{PerPeer, per_peer}
use frr_visible.Bmp.Peers.{Bmp}
use frr_visible.Bmp.Peers.Learn.{peer_state-ne-stuck}
use frr_visible.Bmp.Updates.Attributes.{parse_update-ne-stuck}
use frr_visible.Bmp.Stream.{handle, handle_conn, handle_message, route_mon_of, stream_ends}

route_mon_of-ne-stuck :
    (h : Option PerPeer) (w : Wiring) (body : List ℕ) → route_mon_of h w body ≢ stuck
route_mon_of-ne-stuck none w body = λ e. cc
route_mon_of-ne-stuck (some h) w body = parse_update-ne-stuck w h.peer (drop 42 body)

handle_message-ne-stuck :
    (links : Option (List (ℕ × Text))) (w : Wiring) (type : ℕ) (body : List ℕ) (b : Bmp)
    → handle_message links w type body b ≢ stuck
unfolding handle_message
handle_message-ne-stuck links w type body b = ground (
  arith,
  route_mon_of-ne-stuck (per_peer body) w body,
  peer_state-ne-stuck links body true b,
  peer_state-ne-stuck links body false b,
)

module _ (links : ℕ → Option (List (ℕ × Text))) (w : Wiring) where
  round :
      (fuel n : ℕ) (bytes : List ℕ) (b : Bmp)
      → stream_ends bytes ≡ false
      → handle links w (suc fuel) n bytes b ≡ (
          handle_message (links n) w (byte_at bytes 5) (slice 6 (be32 bytes 1) bytes) b >>= λ r.
          handle links w fuel (n + 1) (drop (be32 bytes 1) bytes) r.0 >>= λ q.
          ret (q.0, r.1 ++ q.1))
  unfolding handle
  round fuel n bytes b h = rw (h, handle)

  handle-ne-stuck :
      (fuel n : ℕ) (bytes : List ℕ) (b : Bmp)
      → length bytes < fuel
      → handle links w fuel n bytes b ≢ stuck
  handle-ne-stuck zero n bytes b h = absurd (omega arith)
  handle-ne-stuck (suc fuel) n bytes b h = elim (Bool-cases (stream_ends bytes)) [
    | inl done ↦ unfold handle in rw (done, handle) (λ e. cc)
    | inr more ↦ rw (round fuel n bytes b more) (
        bind-ne-stuck _ _
          (handle_message-ne-stuck (links n) w (byte_at bytes 5) (slice 6 (be32 bytes 1) bytes) b)
          (λ r.
            bind-ne-stuck _ _
              (handle-ne-stuck fuel (n + 1) (drop (be32 bytes 1) bytes) r.0 (shrinks more))
              (λ q e. cc)))
  ]
    where
      shrinks : stream_ends bytes ≡ false → length (drop (be32 bytes 1) bytes) < fuel
      shrinks more = unfold stream_ends in ground (arith, length-drop (be32 bytes 1) bytes)

  -- On every sequence of bytes, the loop over a connection ends: with a result or with a panic.
  pub handle_conn_ends : (bytes : List ℕ) (b : Bmp) → handle_conn links w bytes b ≢ stuck
  unfolding handle_conn
  handle_conn_ends bytes b = handle-ne-stuck (suc (length bytes)) 0 bytes b (omega arith)
