-- ===== src/Bmp/Wire.antt =====
-- internal/ingest/bmp.go: perPeer, formatRD, formatMAC, parseRTs, mpNextHop and parseVPNNLRI. A byte
-- slice is a list; the guards of the source keep each index inside.
pub mod Encode
pub mod Distinguishers
use frr_visible.Base.{
  ℕ, zero, suc, ◌+◌, ◌-◌, ◌*◌, ◌/◌, ◌%◌, List, [], ◌∷◌, ◌++◌, Bool, true, false, not, ◌&&◌, ◌||◌,
  Option, none, some, if◌then◌else◌, ltb, leb, ◌==◌, length, take, drop,
}
use frr_visible.Base.Bytes.{byte_at, slice, be16, be32, has_bit}
use frr_visible.Base.Text.{Text, lit, itoa, hex2, is_empty}
use frr_visible.Net.{Ip, ip_string, all_zero, copied}

-- bmpPerPeerLen
abbrev pub per_peer_len : ℕ
per_peer_len = 42

unfoldable pub format_rd : List ℕ → Text
format_rd b =
    let kind = be16 b 0 in
    if ltb (length b) 8
    then []
    else if kind == 0
    then itoa (be16 b 2) ++ (lit ":" ++ itoa (be32 b 4))
    else if kind == 1
    then ip_string (slice 2 6 b) ++ (lit ":" ++ itoa (be16 b 6))
    else if kind == 2
    then itoa (be32 b 2) ++ (lit ":" ++ itoa (be16 b 6))
    else []

unfoldable pub format_mac : List ℕ → Text
format_mac b =
    if ltb (length b) 6
    then []
    else hex2 (byte_at b 0)
      ++ (lit ":"
          ++ (hex2 (byte_at b 1)
              ++ (lit ":"
                  ++ (hex2 (byte_at b 2)
                      ++ (lit ":"
                          ++ (hex2 (byte_at b 3)
                              ++ (lit ":"
                                  ++ (hex2 (byte_at b 4) ++ (lit ":" ++ hex2 (byte_at b 5))))))))))

pub record PerPeer : Type 0 where
  pub peer : Ip
  pub peer_as : ℕ
  pub ptype : ℕ
  pub rd : Text

-- `none` is ok = false.
unfoldable pub per_peer : List ℕ → Option PerPeer
per_peer body =
    if ltb (length body) per_peer_len
    then none
    else some (record {
      peer = if has_bit 128 (byte_at body 1) then slice 10 26 body else slice 22 26 body;
      peer_as = be32 body 26;
      ptype = byte_at body 0;
      rd = if all_zero (slice 2 10 body) then [] else format_rd (slice 2 10 body);
    })

-- One extended community: its route target, if it is one that the source knows.
unfoldable pub route_target : List ℕ → List Text
route_target c =
    if not (byte_at c 1 == 2)
    then []
    else if byte_at c 0 == 0
    then (itoa (be16 c 2) ++ (lit ":" ++ itoa (be32 c 4))) ∷ []
    else if byte_at c 0 == 1
    then (ip_string (slice 2 6 c) ++ (lit ":" ++ itoa (be16 c 6))) ∷ []
    else if byte_at c 0 == 2
    then (itoa (be32 c 2) ++ (lit ":" ++ itoa (be16 c 6))) ∷ []
    else []

unfoldable pub parse_rts : List ℕ → List Text
unfolding route_target
parse_rts (a ∷ b ∷ c ∷ d ∷ e ∷ f ∷ g ∷ h ∷ v) =
    route_target (a ∷ b ∷ c ∷ d ∷ e ∷ f ∷ g ∷ h ∷ []) ++ parse_rts v
parse_rts _ = []

unfoldable pub mp_next_hop : List ℕ → Bool → Ip
mp_next_hop nhb is_vpn =
    let n = length nhb in
    if is_vpn
    then (if leb 12 n then slice 8 12 nhb else [])
    else if n == 4 || n == 16
    then nhb
    else if n == 12 || n == 24
    then slice 8 12 nhb
    else []

-- The loop over the label stack: the last label read, and the index behind it.
unfoldable pub label_loop : List ℕ → ℕ → ℕ → ℕ × ℕ
label_loop (a ∷ b ∷ c ∷ rest) i label =
    let label' = (a * 65536 + b * 256 + c) / 16 in
    let more = label_loop rest (i + 3) label' in if c % 2 == 1 then (label', i + 3) else more
label_loop _ i label = (label, i)

pub record Nlri : Type 0 where
  pub rd : Text
  pub prefix : Text
  pub label : ℕ
  pub consumed : ℕ

abbrev pub no_nlri : Nlri
no_nlri = record { rd = []; prefix = []; label = 0; consumed = 0 }

-- parseVPNNLRI behind the label stack, which ends at `i`.
unfoldable pub nlri_at : ℕ → ℕ → List ℕ → ℕ → ℕ → Nlri
nlri_at bits total data' label i = if ltb (length data') (i + 8) then no_nlri else record {
  rd = format_rd (slice i (i + 8) data');
  prefix = ip_string (copied 4 (drop (i + 8) data')) ++ (lit "/" ++ itoa (bits - (i + 8) * 8));
  label = label;
  consumed = 1 + total;
}

unfoldable pub parse_vpn_nlri : List ℕ → Nlri
unfolding label_loop nlri_at
parse_vpn_nlri p =
    let bits = byte_at p 0 in
    let total = (bits + 7) / 8 in
    let data' = slice 1 (1 + total) p in
    let (label, i) = label_loop data' 0 0 in
    if ltb (length p) 1
    then no_nlri
    else if ltb (length p) (1 + total)
    then no_nlri
    else nlri_at bits total data' label i
