-- ===== src/Bmp/Updates/Evpn/Fields.antt =====
-- internal/ingest/bmp.go: the fields that handleEVPN reads at fixed places of a route's value.
use frr_visible.Base.{
  ℕ, zero, suc, ◌+◌, ◌-◌, ◌*◌, ◌/◌, ◌≤◌, ◌≡◌, refl, ap, subst, ◌∙◌, ◌⊎◌, inl, inr, List, [], ◌∷◌,
  ◌++◌, ◌&&◌, if◌then◌else◌, ltb, leb, length, get_or, take, drop, arith, length-append, if_true,
  take-length-append,
}
use frr_visible.Base.Bytes.{byte_at, slice}
use frr_visible.Base.Text.{Text, is_empty}
use frr_visible.Net.{ip_string}
use frr_visible.Bmp.Writes.{sized_ip, prefix_ip_len}

module _ {ℓ} {A : Type ℓ} where
  drop_past :
      (xs ys : List A) (m k n : ℕ) → length xs ≡ m → m + k ≡ n → drop n (xs ++ ys) ≡ drop k ys
  drop_past [] ys m k n h e = ap (λ i. drop i ys) (omega (arith, h, e))
  drop_past (x ∷ xs) ys m k zero h e = absurd (omega (arith, h, e))
  drop_past (x ∷ xs) ys m k (suc n) h e = drop_past xs ys (length xs) k n refl (omega (arith, h, e))

  pub take_front : (xs ys : List A) (n : ℕ) → length xs ≡ n → take n (xs ++ ys) ≡ xs
  take_front xs ys n h = subst (λ i. take i (xs ++ ys) ≡ xs) h (take-length-append xs ys)

  pub get_or_past :
      (xs ys : List A) (m k n : ℕ) (d : A)
      → length xs ≡ m
      → m + k ≡ n
      → get_or (xs ++ ys) n d ≡ get_or ys k d
  get_or_past [] ys m k n d h e = ap (λ i. get_or ys i d) (omega (arith, h, e))
  get_or_past (x ∷ xs) ys m k zero d h e = absurd (omega (arith, h, e))
  get_or_past (x ∷ xs) ys m k (suc n) d h e =
      get_or_past xs ys (length xs) k n d refl (omega (arith, h, e))

-- The distinguisher at the front.
pub slice-rd : (rd rest : List ℕ) → length rd ≡ 8 → slice 0 8 (rd ++ rest) ≡ rd
slice-rd rd rest h = take_front rd rest 8 h

-- What stands behind the distinguisher, the segment and a byte.
pub behind :
    (rd segment : List ℕ) (b : ℕ) (rest : List ℕ)
    → length rd ≡ 8
    → length segment ≡ 14
    → drop 23 (rd ++ (segment ++ b ∷ rest)) ≡ rest
behind rd segment b rest hr hs =
    drop_past rd (segment ++ b ∷ rest) 8 15 23 hr refl
    ∙ drop_past segment (b ∷ rest) 14 1 15 hs refl

pub byte_behind :
    (rd segment : List ℕ) (b : ℕ) (rest : List ℕ) (k : ℕ)
    → length rd ≡ 8
    → length segment ≡ 14
    → byte_at (rd ++ (segment ++ b ∷ rest)) (23 + k) ≡ byte_at rest k
byte_behind rd segment b rest k hr hs =
    get_or_past rd (segment ++ b ∷ rest) 8 (15 + k) (23 + k) 0 hr (omega arith)
    ∙ get_or_past segment (b ∷ rest) 14 (suc k) (15 + k) 0 hs (omega arith)

slice_exact :
    (v front xs after : List ℕ) (i j : ℕ)
    → v ≡ front ++ (xs ++ after)
    → length front ≡ i
    → i + length xs ≡ j
    → slice i j v ≡ xs
slice_exact v front xs after i j e hi hj =
    ap (λ l. take (j - i) (drop i l)) e
    ∙ ap (take (j - i)) (drop_past front (xs ++ after) i 0 i hi (omega arith))
    ∙ take_front xs after (j - i) (omega (arith, hj))

-- The address that a length in bits stands in front of.
pub sized_ip-length :
    (v front ip after : List ℕ) (at bits : ℕ) (absent before : Text)
    → v ≡ front ++ (ip ++ after)
    → length front ≡ at
    → bits ≡ 8 * length ip
    → sized_ip v at bits absent before ≡ (if is_empty ip then absent else before ++ ip_string ip)
sized_ip-length v front [] after at bits absent before e h hb = rw hb refl
sized_ip-length v front (b ∷ ip) after at bits absent before e h hb =
    let n : ℕ = bits / 8 in
    let size : n ≡ suc (length ip) = omega (arith, hb) in
    let long : length v ≡ at + (suc (length ip) + length after) =
      ap (λ (l : List ℕ). length l) e
      ∙ omega (arith, length-append front ((b ∷ ip) ++ after), length-append (b ∷ ip) after, h) in
    if_true (ltb 0 n && leb (at + n) (length v)) _ _ (ground (arith, size, long))
    ∙ ap (λ xs. before ++ ip_string xs)
        (slice_exact v front (b ∷ ip) after at (at + n) e h (omega (arith, size)))

pub prefix_ip_len-ip :
    (rest : List ℕ) (read plen n : ℕ)
    → read ≡ plen
    → length rest ≡ n + (n + 3)
    → (n ≡ 4) × (plen ≤ 32) ⊎ (n ≡ 16) × (plen ≤ 128)
    → prefix_ip_len rest read ≡ n
prefix_ip_len-ip rest read plen n hp h (inl (e, le)) = ground arith
prefix_ip_len-ip rest read plen n hp h (inr (e, le)) = ground arith
