-- ===== src/Bmp/Updates/Attributes.antt =====
-- internal/ingest/bmp.go: the walk of parseUpdate over the path attributes, against their wire form.
use frr_visible.Base.{
  append_assoc, ℕ, zero, suc, ◌+◌, ◌-◌, ◌/◌, ◌%◌, ◌<◌, ◌≤◌, ◌≡◌, ◌≢◌, refl, ap, ◌∙◌, List, [], ◌∷◌,
  ◌++◌, Bool, true, false, ◌&&◌, if◌then◌else◌, ltb, ◌==◌, length, take, drop, arith, length-append,
  take-length-append, drop-length-append, Bool-cases, inl, inr, Option, none, some,
}
use frr_visible.Base.Outcome.{ret, panic, stuck, ◌>>=◌, bind-ne-stuck}
use frr_visible.Base.Bytes.{byte_at, slice, be16, has_bit}
use frr_visible.Base.Text.{Text}
use frr_visible.Net.{Ip}
use frr_visible.Gnmi.{Wiring}
use frr_visible.Bmp.Wire.{parse_rts}
use frr_visible.Bmp.Updates.{
  PathAttrs, path_attr, path_attrs, attr_size, no_path_attrs, handle_attrs, handle_mp, parse_update,
}
use frr_visible.Bmp.Updates.Loops.{mp_nlris-ne-stuck}

-- An attribute on the wire; bit 0x10 of the flags says whether its length has two bytes.
pub record Attribute : Type 0 where
  pub flags : ℕ
  pub type : ℕ
  pub value : List ℕ

abbrev is_extended : Attribute → Bool
is_extended a = has_bit 16 a.flags

abbrev header_size : Attribute → ℕ
header_size a = if is_extended a then 4 else 3

unfoldable pub encode_attribute : Attribute → List ℕ
encode_attribute a =
    let n = length a.value in
    a.flags ∷ a.type ∷ (if is_extended a then (n / 256) ∷ (n % 256) ∷ a.value else n ∷ a.value)

unfoldable pub encode_attributes : List Attribute → List ℕ
encode_attributes [] = []
encode_attributes (a ∷ r) = encode_attribute a ++ encode_attributes r

-- The value of the last attribute of a type, or what there was before.
unfoldable pub last_value : {A : Type 0} → (List ℕ → A) → ℕ → List Attribute → A → A
last_value read type [] before = before
last_value read type (a ∷ r) before =
    last_value read type r (if a.type == type then read a.value else before)

-- MP_REACH_NLRI, MP_UNREACH_NLRI and the extended communities.
abbrev pub read_attributes : List Attribute → PathAttrs → PathAttrs
read_attributes rs s = record {
  mp_reach = last_value some 14 rs s.mp_reach;
  mp_unreach = last_value some 15 rs s.mp_unreach;
  rts = last_value parse_rts 16 rs s.rts;
}

read-path_attr :
    (a : Attribute) (r : List Attribute) (s : PathAttrs)
    → read_attributes r (path_attr a.type a.value s) ≡ read_attributes (a ∷ r) s
unfolding path_attr last_value
read-path_attr a r s = elim (Bool-cases (a.type == 14)) [
  | inl reach ↦
      let no_unreach : (a.type == 15) ≡ false = ground arith in
      let no_communities : (a.type == 16) ≡ false = ground arith in
      rw (reach, no_unreach, no_communities) refl
  | inr no_reach ↦ elim (Bool-cases (a.type == 15)) [
    | inl unreach ↦
        let no_communities : (a.type == 16) ≡ false = ground arith in
        rw (no_reach, unreach, no_communities) refl
    | inr no_unreach ↦ elim (Bool-cases (a.type == 16)) [
      | inl communities ↦ rw (no_reach, no_unreach, communities) refl
      | inr other ↦ rw (no_reach, no_unreach, other) refl
    ]
  ]
]

module _ (a : Attribute) (rest : List ℕ) where
  size-attribute : attr_size (encode_attribute a ++ rest) ≡ (header_size a, length a.value)
  unfolding attr_size encode_attribute
  size-attribute = ground arith

  value-attribute :
      slice (header_size a) (header_size a + length a.value) (encode_attribute a ++ rest) ≡ a.value
  unfolding encode_attribute
  value-attribute = elim (Bool-cases (is_extended a)) [
    | inl long ↦ rw long (tail 4)
    | inr short ↦ rw short (tail 3)
  ]
    where
      tail : (k : ℕ) → take (k + length a.value - k) (a.value ++ rest) ≡ a.value
      tail k =
          let e : k + length a.value - k ≡ length a.value = omega arith in
          rw e (take-length-append a.value rest)

  length-attribute : length (encode_attribute a) ≡ header_size a + length a.value
  unfolding encode_attribute
  length-attribute = ground arith

  rest-attribute : drop (header_size a + length a.value) (encode_attribute a ++ rest) ≡ rest
  rest-attribute = rw (← length-attribute) (drop-length-append (encode_attribute a) rest)

  flags-attribute : byte_at (encode_attribute a ++ rest) 0 ≡ a.flags
  unfolding encode_attribute
  flags-attribute = refl

  type-attribute : byte_at (encode_attribute a ++ rest) 1 ≡ a.type
  unfolding encode_attribute
  type-attribute = refl

-- The attribute at the front, header and value.
abbrev front : List ℕ → ℕ
front mem = (attr_size mem).0 + (attr_size mem).1

round :
    (f : ℕ) (mem : List ℕ) (len : ℕ) (s : PathAttrs)
    → ltb len 3 ≡ false
    → (has_bit 16 (byte_at mem 0) && ltb (length mem) 4) ≡ false
    → ltb len (front mem) ≡ false
    → path_attrs (suc f) mem len s
      ≡ path_attrs f
          (drop (front mem) mem)
          (len - front mem)
          (path_attr (byte_at mem 1) (slice (attr_size mem).0 (front mem) mem) s)
unfolding path_attrs
round f mem len s h1 h2 h3 = rw (h1, path_attrs) (rw (h2, path_attrs) (rw (h3, path_attrs)))

-- Beyond the attributes, `rest` is what else the message holds.
round_attribute :
    (f : ℕ) (a : Attribute) (rest : List ℕ) (n : ℕ) (s : PathAttrs)
    → path_attrs (suc f) (encode_attribute a ++ rest) (length (encode_attribute a) + n) s
      ≡ path_attrs f rest n (path_attr a.type a.value s)
round_attribute f a rest n s =
    let e = size-attribute a rest in
    let size = length-attribute a rest in
    let whole = length-append (encode_attribute a) rest in
    round f (encode_attribute a ++ rest) (length (encode_attribute a) + n) s (long size)
      (fits size whole) (rw e (enough size))
    ∙ rw e (
        rw (rest-attribute a rest)
          (rw (value-attribute a rest) (rw (type-attribute a rest) (rw (left_over size)))))
  where
    long :
        length (encode_attribute a) ≡ header_size a + length a.value
        → ltb (length (encode_attribute a) + n) 3 ≡ false
    long size = ground arith

    fits :
        length (encode_attribute a) ≡ header_size a + length a.value
        → length (encode_attribute a ++ rest) ≡ length (encode_attribute a) + length rest
        → (has_bit 16 (byte_at (encode_attribute a ++ rest) 0)
            && ltb (length (encode_attribute a ++ rest)) 4)
          ≡ false
    fits size whole = ground (arith, flags-attribute a rest)

    enough :
        length (encode_attribute a) ≡ header_size a + length a.value
        → ltb (length (encode_attribute a) + n) (header_size a + length a.value) ≡ false
    enough size = ground arith

    left_over :
        length (encode_attribute a) ≡ header_size a + length a.value
        → length (encode_attribute a) + n - (header_size a + length a.value) ≡ n
    left_over size = omega (arith, size)

-- On the wire form of any list of path attributes, with one- or two-byte lengths, whatever follows it
-- in the message and given more fuel than the form has bytes, the walk ends at the end of the list with
-- the value of the last attribute of type 14, MP_REACH, that of the last of type 15, MP_UNREACH, and what
-- parseRTs makes of the value of the last of type 16, the extended communities; for a type that the list does not
-- have, it is what the walk began with.
pub path_attrs-encode :
    (rs : List Attribute) (f : ℕ) (rest : List ℕ) (s : PathAttrs)
    → length (encode_attributes rs) < f
    → path_attrs f (encode_attributes rs ++ rest) (length (encode_attributes rs)) s
      ≡ ret (read_attributes rs s)
unfolding encode_attributes
path_attrs-encode rs zero rest s h = absurd (omega arith)
path_attrs-encode [] (suc f) rest s h = unfold path_attrs last_value in refl
path_attrs-encode (a ∷ rs) (suc f) rest s h =
    rw (length-append (encode_attribute a) (encode_attributes rs)) (
      rw (append_assoc (encode_attribute a) (encode_attributes rs) rest) (
        round_attribute f a (encode_attributes rs ++ rest) (length (encode_attributes rs)) s
        ∙ path_attrs-encode rs f rest (path_attr a.type a.value s) (
            omega (
              arith,
              length-append (encode_attribute a) (encode_attributes rs),
              length-attribute a rest,
              header_pos a,
            ))
        ∙ ap ret (read-path_attr a rs s)))
  where
    header_pos : (a : Attribute) → 3 ≤ header_size a
    header_pos a = ground arith

path_attrs-ne-stuck :
    (f : ℕ) (mem : List ℕ) (len : ℕ) (s : PathAttrs) → len < f → path_attrs f mem len s ≢ stuck
path_attrs-ne-stuck zero mem len s h = absurd (omega arith)
path_attrs-ne-stuck (suc f) mem len s h = elim (Bool-cases (ltb len 3)) [
  | inl done ↦ unfold path_attrs in rw (done, path_attrs) (λ e. cc)
  | inr more ↦ elim (Bool-cases (has_bit 16 (byte_at mem 0) && ltb (length mem) 4)) [
    | inl over ↦ unfold path_attrs in rw (more, path_attrs) (rw (over, path_attrs) (λ e. cc))
    | inr inside ↦ elim (Bool-cases (ltb len (front mem))) [
      | inl cut ↦
          unfold path_attrs in
          rw (more, path_attrs) (rw (inside, path_attrs) (rw (cut, path_attrs) (λ e. cc)))
      | inr fits ↦ rw (round f mem len s more inside fits) (
          path_attrs-ne-stuck f (drop (front mem) mem) (len - front mem)
            (path_attr (byte_at mem 1) (slice (attr_size mem).0 (front mem) mem) s)
            (unfold attr_size in ground arith))
    ]
  ]
]

handle_mp-ne-stuck :
    (w : Wiring) (peer : Ip) (v : List ℕ) (rts : List Text) (withdraw : Bool)
    → handle_mp w peer v rts withdraw ≢ stuck
unfolding handle_mp
handle_mp-ne-stuck w peer v rts withdraw =
    let vpn = be16 v 0 == 1 && byte_at v 2 == 128 in
    let p1 = drop 1 (drop 3 v) in
    let p2 = drop (byte_at (drop 3 v) 0) p1 in
    ground (
      arith,
      mp_nlris-ne-stuck w peer [] rts withdraw vpn (drop 3 v),
      mp_nlris-ne-stuck w peer
          (frr_visible.Bmp.Wire.mp_next_hop (take (byte_at (drop 3 v) 0) p1) vpn) rts withdraw vpn
          (drop 1 p2),
    )

handle_attrs-ne-stuck : (w : Wiring) (peer : Ip) (s : PathAttrs) → handle_attrs w peer s ≢ stuck
unfolding handle_attrs
handle_attrs-ne-stuck w peer s =
    bind-ne-stuck _ _ (reach s.mp_reach)
      (λ reached. bind-ne-stuck _ _ (unreach s.mp_unreach) (λ withdrawn e. cc))
  where
    reach :
        (o : Option (List ℕ))
        → frr_visible.Bmp.Updates.if_some o (λ v. handle_mp w peer v s.rts false) ≢ stuck
    reach none = λ e. cc
    reach (some v) = handle_mp-ne-stuck w peer v s.rts false

    unreach :
        (o : Option (List ℕ))
        → frr_visible.Bmp.Updates.if_some o (λ v. handle_mp w peer v [] true) ≢ stuck
    unreach none = λ e. cc
    unreach (some v) = handle_mp-ne-stuck w peer v [] true

-- On every message parseUpdate ends, with a result or with a panic.
pub parse_update-ne-stuck : (w : Wiring) (peer : Ip) (m : List ℕ) → parse_update w peer m ≢ stuck
unfolding parse_update
parse_update-ne-stuck w peer m =
    let p2 = drop (be16 (drop 19 m) 0) (drop 2 (drop 19 m)) in
    let walked : (path_attrs (suc (be16 p2 0)) (drop 2 p2) (be16 p2 0) no_path_attrs
          >>= handle_attrs w peer)
        ≢ stuck =
      bind-ne-stuck _ _
        (path_attrs-ne-stuck (suc (be16 p2 0)) (drop 2 p2) (be16 p2 0) no_path_attrs (omega arith))
        (handle_attrs-ne-stuck w peer) in
    ground (arith, walked)

short_header :
    (f flags type x : ℕ) (s : PathAttrs)
    → has_bit 16 flags ≡ true
    → path_attrs (suc f) (flags ∷ type ∷ x ∷ []) 3 s ≡ panic
unfolding path_attrs
short_header f flags type x s h = ground arith

-- A BGP UPDATE with no withdrawn routes, whose path attributes are three bytes that begin with the
-- extended-length flag and end the message, makes parseUpdate panic.
pub parse_update_panics :
    (w : Wiring) (peer : Ip) (hdr : List ℕ) (flags type x : ℕ)
    → length hdr ≡ 18
    → has_bit 16 flags ≡ true
    → parse_update w peer (hdr ++ 2 ∷ 0 ∷ 0 ∷ 0 ∷ 3 ∷ flags ∷ type ∷ x ∷ []) ≡ panic
unfolding parse_update
parse_update_panics w peer hdr flags type x h hf =
    let tail : List ℕ = 2 ∷ 0 ∷ 0 ∷ 0 ∷ 3 ∷ flags ∷ type ∷ x ∷ [] in
    let behind : drop 19 (hdr ++ tail) ≡ 0 ∷ 0 ∷ 0 ∷ 3 ∷ flags ∷ type ∷ x ∷ [] =
      drop_header hdr tail 18 h in
    let kind : byte_at (hdr ++ tail) 18 ≡ 2 = byte_header hdr 2 (drop 1 tail) 18 h in
    let long : ltb (length (hdr ++ tail)) 19 ≡ false = ground (arith, length-append hdr tail) in
    rw (long, kind)
      (rw behind
        (ap (λ o. o >>= handle_attrs w peer) (short_header 3 flags type x no_path_attrs hf)))
  where
    drop_header :
        (xs : List ℕ) (ys : List ℕ) (n : ℕ) → length xs ≡ n → drop (suc n) (xs ++ ys) ≡ drop 1 ys
    drop_header [] ys zero e = refl
    drop_header [] ys (suc n) e = absurd (omega arith)
    drop_header (z ∷ xs) ys zero e = absurd (omega arith)
    drop_header (z ∷ xs) ys (suc n) e = drop_header xs ys n (omega arith)

    byte_header :
        (xs : List ℕ) (y : ℕ) (ys : List ℕ) (n : ℕ) → length xs ≡ n → byte_at (xs ++ y ∷ ys) n ≡ y
    byte_header [] y ys zero e = refl
    byte_header [] y ys (suc n) e = absurd (omega arith)
    byte_header (z ∷ xs) y ys zero e = absurd (omega arith)
    byte_header (z ∷ xs) y ys (suc n) e = byte_header xs y ys n (omega arith)
