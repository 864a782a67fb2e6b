-- ===== src/Bmp/Wire/Encode.antt =====
-- parseVPNNLRI against the wire form of a labeled VPN-IPv4 route, and what it makes of a label that has
-- no bottom-of-stack bit.
use native.Mathlib.Nat.{zero-add}
use frr_visible.Base.{
  ℕ, zero, suc, ◌+◌, ◌-◌, ◌*◌, ◌/◌, ◌%◌, ◌<◌, ◌≤◌, ◌≡◌, refl, sym, ap, ◌∙◌, subst, List, [], ◌∷◌,
  ◌++◌, false, ltb, length, take, drop, All, arith, length-append, take-length-append,
  drop-length-append,
}
use frr_visible.Base.Bytes.{slice}
use frr_visible.Base.Text.{lit, itoa}
use frr_visible.Net.{ip_string, copied}
use frr_visible.Bmp.Wire.{Nlri, parse_vpn_nlri, nlri_at, label_loop, format_rd}

-- One label of the stack: 20 bits and three traffic-class bits.
pub record Label : Type 0 where
  pub label : ℕ
  pub tc : ℕ

abbrev pub IsLabel : Label → Type 0
IsLabel l = (l.label < 1048576) × (l.tc < 8)

abbrev label_word : Label → ℕ → ℕ
label_word l bos = l.label * 16 + l.tc * 2 + bos

abbrev label_bytes : ℕ → List ℕ → List ℕ
label_bytes w rest = (w / 65536) ∷ (w / 256 % 256) ∷ (w % 256) ∷ rest

-- A stack that ends in `last`, the only entry with the bottom-of-stack bit, before `rest`.
unfoldable pub encode_labels : List Label → Label → List ℕ → List ℕ
encode_labels [] last rest = label_bytes (label_word last 1) rest
encode_labels (l ∷ ls) last rest = label_bytes (label_word l 0) (encode_labels ls last rest)

-- A labeled route: its label stack, route distinguisher, prefix length and the prefix's bytes.
pub record Route : Type 0 where
  pub above : List Label
  pub last : Label
  pub rd : List ℕ
  pub plen : ℕ
  pub bytes : List ℕ

pub record IsRoute (r : Route) : Type 0 where
  pub labels : All IsLabel r.above
  pub bottom : IsLabel r.last
  pub rd_size : length r.rd ≡ 8
  pub plen_max : r.plen ≤ 32
  pub size : length r.bytes ≡ (r.plen + 7) / 8

abbrev stack_size : Route → ℕ
stack_size r = 3 * length r.above + 3

unfoldable pub route_data : Route → List ℕ
route_data r = encode_labels r.above r.last (r.rd ++ r.bytes)

unfoldable pub encode_route : Route → List ℕ
encode_route r = (stack_size r * 8 + 64 + r.plen) ∷ route_data r

-- What the decoder should make of it.
unfoldable pub decoded : Route → Nlri
decoded r = record {
  rd = format_rd r.rd;
  prefix = ip_string (copied 4 r.bytes) ++ (lit "/" ++ itoa r.plen);
  label = r.last.label;
  consumed = length (encode_route r);
}

label_last :
    (l : Label) (rest : List ℕ) (i lab : ℕ)
    → IsLabel l
    → label_loop (label_bytes (label_word l 1) rest) i lab ≡ (l.label, i + 3)
unfolding label_loop
label_last l rest i lab h = ground arith

label_inner :
    (l : Label) (rest : List ℕ) (i lab : ℕ)
    → IsLabel l
    → label_loop (label_bytes (label_word l 0) rest) i lab ≡ label_loop rest (i + 3) l.label
unfolding label_loop
label_inner l rest i lab h =
    let e : (l.label * 16 + l.tc * 2 + 0) / 65536 * 65536
          + (l.label * 16 + l.tc * 2 + 0) / 256 % 256 * 256
          + (l.label * 16 + l.tc * 2 + 0) % 256
        ≡ l.label * 16 + l.tc * 2 =
      omega arith in
    ground arith

label_loop-encode :
    (ls : List Label) (last : Label) (rest : List ℕ) (i lab : ℕ)
    → All IsLabel ls
    → IsLabel last
    → label_loop (encode_labels ls last rest) i lab ≡ (last.label, i + (3 * length ls + 3))
unfolding encode_labels
label_loop-encode [] last rest i lab h hl = label_last last rest i lab hl ∙ ground arith
label_loop-encode (l ∷ ls) last rest i lab h hl =
    label_inner l (encode_labels ls last rest) i lab h.0
    ∙ label_loop-encode ls last rest (i + 3) l.label h.1 hl
    ∙ ground arith

drop-labels :
    (ls : List Label) (last : Label) (rest : List ℕ)
    → drop (3 * length ls + 3) (encode_labels ls last rest) ≡ rest
unfolding encode_labels
drop-labels [] last rest = refl
drop-labels (l ∷ ls) last rest =
    let e : suc (suc (suc (3 * length ls + 3))) ≡ 3 * length (l ∷ ls) + 3 = omega arith in
    subst (λ n. drop n (encode_labels (l ∷ ls) last rest) ≡ rest) e (drop-labels ls last rest)

length-labels :
    (ls : List Label) (last : Label) (rest : List ℕ)
    → length (encode_labels ls last rest) ≡ 3 * length ls + 3 + length rest
unfolding encode_labels
length-labels [] last rest = omega arith
length-labels (l ∷ ls) last rest = omega (arith, length-labels ls last rest)

length-data :
    (r : Route) → IsRoute r → length (route_data r) ≡ (stack_size r * 8 + 64 + r.plen + 7) / 8
unfolding route_data
length-data r h = omega (
  arith,
  length-labels r.above r.last (r.rd ++ r.bytes),
  length-append r.rd r.bytes,
  h.rd_size,
  h.size,
)

-- The bytes behind the stack.
drop-data : (r : Route) → drop (stack_size r) (route_data r) ≡ r.rd ++ r.bytes
unfolding route_data
drop-data r = drop-labels r.above r.last (r.rd ++ r.bytes)

drop-drop : (m n : ℕ) (xs : List ℕ) → drop (m + n) xs ≡ drop n (drop m xs)
drop-drop zero n xs = rw zero-add
drop-drop (suc m) n [] = let e : suc m + n ≡ suc (m + n) = omega arith in rw e (sym (drop-nil n))
  where
    drop-nil : (k : ℕ) → drop {A = ℕ} k [] ≡ []
    drop-nil zero = refl
    drop-nil (suc k) = refl
drop-drop (suc m) n (x ∷ xs) =
    let e : suc m + n ≡ suc (m + n) = omega arith in rw e (drop-drop m n xs)

rd-data : (r : Route) → IsRoute r → slice (stack_size r) (stack_size r + 8) (route_data r) ≡ r.rd
rd-data r h =
    let e : stack_size r + 8 - stack_size r ≡ length r.rd = omega (arith, h.rd_size) in
    rw (e, drop-data r) (take-length-append r.rd r.bytes)

bytes-data : (r : Route) → IsRoute r → drop (stack_size r + 8) (route_data r) ≡ r.bytes
bytes-data r h =
    drop-drop (stack_size r) 8 (route_data r)
    ∙ rw (drop-data r) (
        subst (λ n. drop n (r.rd ++ r.bytes) ≡ r.bytes) h.rd_size (drop-length-append r.rd r.bytes))

nlri_at-data :
    (r : Route) (total : ℕ)
    → IsRoute r
    → 1 + total ≡ length (encode_route r)
    → nlri_at (stack_size r * 8 + 64 + r.plen) total (route_data r) r.last.label (stack_size r)
      ≡ decoded r
unfolding nlri_at decoded
nlri_at-data r total h e =
    let long : ltb (length (route_data r)) (stack_size r + 8) ≡ false =
      ground (arith, length-data r h) in
    let bits : stack_size r * 8 + 64 + r.plen - (stack_size r + 8) * 8 ≡ r.plen = omega arith in
    rw long (rw (rd-data r h, bytes-data r h, bits, e))

abbrev bits_of : Route → ℕ
bits_of r = stack_size r * 8 + 64 + r.plen

sliced :
    (r : Route) (rest : List ℕ)
    → IsRoute r
    → take (1 + (bits_of r + 7) / 8 - 1) (route_data r ++ rest) ≡ route_data r
sliced r rest h =
    let e : 1 + (bits_of r + 7) / 8 - 1 ≡ length (route_data r) = omega (arith, length-data r h) in
    rw e (take-length-append (route_data r) rest)

labels-data : (r : Route) → IsRoute r → label_loop (route_data r) 0 0 ≡ (r.last.label, stack_size r)
unfolding route_data
labels-data r h =
    label_loop-encode r.above r.last (r.rd ++ r.bytes) 0 0 h.labels h.bottom ∙ ground arith

-- On the wire form of a labeled VPN-IPv4 route with a proper label stack and a prefix of at most 32
-- bits, followed by anything, the decoder returns the route's distinguisher, its prefix, the bottom
-- label of its stack, and the length of the wire form.
pub parse_vpn_nlri-encode :
    (r : Route) (rest : List ℕ) → IsRoute r → parse_vpn_nlri (encode_route r ++ rest) ≡ decoded r
unfolding parse_vpn_nlri encode_route
parse_vpn_nlri-encode r rest h =
    let long : ltb (length (encode_route r ++ rest)) 1 ≡ false = ground arith in
    let fits : ltb (length (encode_route r ++ rest)) (1 + (bits_of r + 7) / 8) ≡ false =
      ground (arith, length-append (route_data r) rest, length-data r h) in
    let size : 1 + (bits_of r + 7) / 8 ≡ length (encode_route r) = omega (arith, length-data r h) in
    rw (long, fits)
      (rw (sliced r rest h) (rw (labels-data r h) (nlri_at-data r ((bits_of r + 7) / 8) h size)))

-- An NLRI whose first label has no bottom-of-stack bit, as withdrawals carry it (RFC 8277 sends
-- 0x800000), whose next three bytes end in an odd one, and which has eight bytes more at least: the
-- decoder takes those three bytes for a label too, and reads the distinguisher behind them.
pub parse_vpn_nlri_shifted :
    (bits a b c d e f : ℕ) (tail : List ℕ)
    → c % 2 ≡ 0
    → f % 2 ≡ 1
    → length tail + 6 ≡ (bits + 7) / 8
    → 8 ≤ length tail
    → (parse_vpn_nlri (bits ∷ a ∷ b ∷ c ∷ d ∷ e ∷ f ∷ tail)).rd ≡ format_rd (take 8 tail)
unfolding parse_vpn_nlri label_loop nlri_at
parse_vpn_nlri_shifted bits a b c d e f tail hc hf hl h8 =
    let whole : slice 1 (1 + (bits + 7) / 8) (bits ∷ a ∷ b ∷ c ∷ d ∷ e ∷ f ∷ tail)
        ≡ a ∷ b ∷ c ∷ d ∷ e ∷ f ∷ tail =
      subst (λ n. take n (a ∷ b ∷ c ∷ d ∷ e ∷ f ∷ tail) ≡ a ∷ b ∷ c ∷ d ∷ e ∷ f ∷ tail)
        (exact (1 + (bits + 7) / 8 - 1) (omega arith)) (take_all (a ∷ b ∷ c ∷ d ∷ e ∷ f ∷ tail)) in
    rw whole (ground arith)
  where
    exact : (n : ℕ) → length tail + 6 ≡ n → length (a ∷ b ∷ c ∷ d ∷ e ∷ f ∷ tail) ≡ n
    exact n p = omega (arith, p)

    take_all : (xs : List ℕ) → take (length xs) xs ≡ xs
    take_all [] = refl
    take_all (x ∷ xs) = ap (λ r. x ∷ r) (take_all xs)
