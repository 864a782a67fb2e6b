-- ===== src/Net.antt =====
-- net.IP of Go's standard library, as far as the ingesters render addresses. An IP is a list of bytes,
-- and the empty list is the nil IP (the ingesters only make non-nil IPs of at least one byte).
use frr_visible.Base.{
  ℕ, zero, suc, ◌+◌, ◌-◌, ◌*◌, List, [], ◌∷◌, ◌++◌, Bool, true, ◌&&◌, ◌||◌, Option, none, some,
  if◌then◌else◌, ltb, leb, ◌==◌, length, take, drop,
}
use frr_visible.Base.Text.{Text, lit, itoa, hex2, hex16, is_empty}
use frr_visible.Base.Bytes.{byte_at, be16}

abbrev pub Ip : Type 0
Ip = List ℕ

unfoldable pub all_zero : List ℕ → Bool
all_zero [] = true
all_zero (b ∷ bs) = b == 0 && all_zero bs

-- (IP).To4: the four bytes of an IPv4 address, in either form.
unfoldable pub to4 : Ip → Option Ip
unfolding all_zero
to4 ip =
    if length ip == 4
    then some ip
    else if length ip == 16
        && (all_zero (take 10 ip) && (byte_at ip 10 == 255 && byte_at ip 11 == 255))
    then some (drop 12 ip)
    else none

unfoldable pub dotted : Ip → Text
dotted ip =
    itoa (byte_at ip 0)
    ++ (lit "."
        ++ (itoa (byte_at ip 1)
            ++ (lit "." ++ (itoa (byte_at ip 2) ++ (lit "." ++ itoa (byte_at ip 3))))))

-- The length of the run of zero groups that starts at group `i`.
zero_run : ℕ → ℕ → Ip → ℕ
zero_run zero i ip = 0
zero_run (suc n) i ip = let r = zero_run n (i + 1) ip in if be16 ip (2 * i) == 0 then r + 1 else 0

-- The first longest run of at least two zero groups, as (start, length); the search goes on at `i`.
best_run : ℕ → ℕ → ℕ → ℕ → Ip → ℕ × ℕ
unfolding zero_run
best_run zero i start len ip = (start, len)
best_run (suc n) i start len ip =
    let l = zero_run (suc n) i ip in
    let better = leb 2 l && ltb len l in
    best_run n (i + 1) (if better then i else start) (if better then l else len) ip

-- The groups from `i` on; `skip` groups of the compressed run are still to be passed over.
groups : ℕ → ℕ → ℕ → ℕ → ℕ → Ip → Text
groups zero i skip start len ip = []
groups (suc n) i zero start len ip =
    if i == start && ltb 0 len
    then lit "::" ++ groups n (i + 1) (len - 1) start len ip
    else (if i == 0 || (ltb 0 len && i == start + len) then [] else lit ":")
      ++ (hex16 (be16 ip (2 * i)) ++ groups n (i + 1) 0 start len ip)
groups (suc n) i (suc skip) start len ip = groups n (i + 1) skip start len ip

-- The IPv6 text form with its longest run of zero groups compressed.
unfoldable pub colons : Ip → Text
unfolding best_run groups
colons ip = let (start, len) = best_run 8 0 8 0 ip in groups 8 0 0 start len ip

unfoldable pub hex_bytes : List ℕ → Text
hex_bytes [] = []
hex_bytes (b ∷ bs) = hex2 b ++ hex_bytes bs

-- (IP).String
unfoldable pub ip_string : Ip → Text
unfolding to4 dotted colons hex_bytes
ip_string ip = if is_empty ip then lit "<nil>" else elim (to4 ip) [
  | some v4 ↦ dotted v4
  | none ↦ if length ip == 16 then colons ip else lit "?" ++ hex_bytes ip
]

-- (IP).IsUnspecified: 0.0.0.0 in either form, or ::.
unfoldable pub is_unspecified : Ip → Bool
unfolding to4 all_zero
is_unspecified ip = elim (to4 ip) [ some v4 ↦ all_zero v4 | none ↦ length ip == 16 && all_zero ip ]

-- copy(ip, src) into `n` zero bytes.
unfoldable pub copied : ℕ → List ℕ → Ip
copied zero src = []
copied (suc n) [] = 0 ∷ copied n []
copied (suc n) (b ∷ src) = b ∷ copied n src
