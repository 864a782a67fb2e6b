-- ===== src/Fpm/Stream.antt =====
-- internal/ingest/fpm.go: `handle`, the loop over the frames of one connection. The connection is the
-- list of all bytes that zebra sends before it closes. `links n` is what LinkList returns while the
-- frame `n` is handled.
use frr_visible.Base.{
  ℕ, zero, suc, ◌+◌, ◌/◌, ◌%◌, ◌<◌, ◌≡◌, refl, ap, ◌∙◌, subst, List, [], ◌∷◌, ◌++◌, Bool, true,
  false, ◌||◌, Option, if◌then◌else◌, ltb, ◌==◌, length, take, drop, All, arith, length-append,
  Bool-cases, inl, inr, take-length-append, drop-length-append, fun_ext,
}
use frr_visible.Base.Outcome.{Outcome, ret, panic, stuck, ◌>>=◌}
use frr_visible.Base.Bytes.{be16, byte_at, slice}
use frr_visible.Base.Text.{Text}
use frr_visible.Gnmi.{Effect, Wiring}
use frr_visible.Fpm.Routes.{Fpm, handle_netlink}

abbrev pub Links : Type 0
Links = ℕ → Option (List (ℕ × Text))

-- fpmHdrLen, fpmTypeNL
abbrev pub fpm_hdr_len : ℕ
fpm_hdr_len = 4

abbrev pub fpm_type_nl : ℕ
fpm_type_nl = 1

abbrev pub Result : Type 0
Result = Outcome (Fpm × List Effect)

-- The calls made so far, and the frames still to come.
abbrev pub after : (Fpm → Result) → List Effect → Fpm → Result
after rest calls f = rest f >>= λ r. ret (r.0, calls ++ r.1)

-- The connection is over: no full header, a bad length, or a body that is cut short.
unfoldable pub stream_ends : List ℕ → Bool
stream_ends bytes =
    ltb (length bytes) fpm_hdr_len
    || (ltb (be16 bytes 2) fpm_hdr_len || ltb (length bytes) (be16 bytes 2))

module _ (links : Links) (w : Wiring) where
  -- One frame: only a netlink frame is handled.
  unfoldable pub handle_frame : ℕ → ℕ → List ℕ → Fpm → Result
  handle_frame n type body f =
      if type == fpm_type_nl then handle_netlink (links n) w body f else ret (f, [])

  unfoldable pub handle : ℕ → ℕ → List ℕ → Fpm → Result
  handle zero n bytes f = stuck
  handle (suc fuel) n bytes f = elim (stream_ends bytes) [
    | true ↦ ret (f, [])
    | false ↦ handle_frame n (byte_at bytes 1) (slice fpm_hdr_len (be16 bytes 2) bytes) f >>= λ r.
        after (handle fuel (n + 1) (drop (be16 bytes 2) bytes)) r.1 r.0
  ]

  -- Each round takes four bytes at least.
  unfoldable pub handle_conn : List ℕ → Fpm → Result
  handle_conn bytes f = handle (suc (length bytes)) 0 bytes f

-- A frame on the wire, of any type and version.
pub record Frame : Type 0 where
  pub version : ℕ
  pub type : ℕ
  pub body : List ℕ

abbrev pub IsFrame : Frame → Type 0
IsFrame m = length m.body + 4 < 65536

unfoldable pub encode_frame : Frame → List ℕ
encode_frame m =
    let len = length m.body + 4 in m.version ∷ m.type ∷ (len / 256) ∷ (len % 256) ∷ m.body

unfoldable pub encode_frames : List Frame → List ℕ
encode_frames [] = []
encode_frames (m ∷ ms) = encode_frame m ++ encode_frames ms

-- The netlink frames in turn, each with the number that it has among all frames.
unfoldable pub deliver : Links → Wiring → ℕ → List Frame → Fpm → Result
deliver links w n [] f = ret (f, [])
deliver links w n (m ∷ ms) f =
    let skipped = deliver links w (n + 1) ms f in
    if m.type == 1
    then handle_netlink (links n) w m.body f
      >>= (λ r. deliver links w (n + 1) ms r.0 >>= (λ q. ret (q.0, r.1 ++ q.1)))
    else skipped

nothing_before : (o : Result) → (o >>= λ q. ret (q.0, [] ++ q.1)) ≡ o
nothing_before (ret q) = refl
nothing_before panic = refl
nothing_before stuck = refl

be16-frame : (m : Frame) (rest : List ℕ) → be16 (encode_frame m ++ rest) 2 ≡ length m.body + 4
unfolding encode_frame
be16-frame m rest = omega arith

length-frame : (m : Frame) → length (encode_frame m) ≡ length m.body + 4
unfolding encode_frame
length-frame m = omega arith

stream_ends-frame : (m : Frame) (rest : List ℕ) → stream_ends (encode_frame m ++ rest) ≡ false
unfolding stream_ends
stream_ends-frame m rest =
    ground (arith, be16-frame m rest, length-frame m, length-append (encode_frame m) rest)

body-frame :
    (m : Frame) (rest : List ℕ) → slice 4 (length m.body + 4) (encode_frame m ++ rest) ≡ m.body
unfolding encode_frame
body-frame m rest =
    subst (λ n. take n (m.body ++ rest) ≡ m.body) (omega arith) (take-length-append m.body rest)

rest-frame : (m : Frame) (rest : List ℕ) → drop (length m.body + 4) (encode_frame m ++ rest) ≡ rest
rest-frame m rest =
    subst (λ n. drop n (encode_frame m ++ rest) ≡ rest) (length-frame m)
      (drop-length-append (encode_frame m) rest)

type-frame : (m : Frame) (rest : List ℕ) → byte_at (encode_frame m ++ rest) 1 ≡ m.type
unfolding encode_frame
type-frame m rest = refl

module _ (links : Links) (w : Wiring) where
  pub round :
      (fuel n : ℕ) (bytes : List ℕ) (f : Fpm)
      → stream_ends bytes ≡ false
      → handle links w (suc fuel) n bytes f ≡ (
          handle_frame links w n (byte_at bytes 1) (slice 4 (be16 bytes 2) bytes) f >>= λ r.
          after (handle links w fuel (n + 1) (drop (be16 bytes 2) bytes)) r.1 r.0)
  unfolding handle
  round fuel n bytes f h = rw (h, handle)

  round_frame :
      (fuel n : ℕ) (m : Frame) (rest : List ℕ) (f : Fpm)
      → handle links w (suc fuel) n (encode_frame m ++ rest) f ≡ (
          handle_frame links w n m.type m.body f >>= λ r.
          after (handle links w fuel (n + 1) rest) r.1 r.0)
  round_frame fuel n m rest f =
      round fuel n (encode_frame m ++ rest) f (stream_ends-frame m rest)
      ∙ simp (be16-frame m rest, type-frame m rest, body-frame m rest, rest-frame m rest)

  -- A frame and what is delivered after it.
  frame_deliver :
      (n : ℕ) (m : Frame) (ms : List Frame) (f : Fpm)
      → (handle_frame links w n m.type m.body f >>= λ r. after (deliver links w (n + 1) ms) r.1 r.0)
        ≡ deliver links w n (m ∷ ms) f
  unfolding handle_frame deliver
  frame_deliver n m ms f = elim (Bool-cases (m.type == 1)) [
    | inl netlink ↦ rw netlink refl
    | inr other ↦ rw other (nothing_before (deliver links w (n + 1) ms f))
  ]

  handle-encode :
      (fuel n : ℕ) (ms : List Frame) (f : Fpm)
      → length (encode_frames ms) < fuel
      → handle links w fuel n (encode_frames ms) f ≡ deliver links w n ms f
  unfolding encode_frames
  handle-encode zero n ms f h = absurd (omega arith)
  handle-encode (suc fuel) n [] f h = unfold handle stream_ends deliver in refl
  handle-encode (suc fuel) n (m ∷ ms) f h =
      round_frame fuel n m (encode_frames ms) f
      ∙ ap (λ g. handle_frame links w n m.type m.body f >>= g)
          (fun_ext (λ r.
            ap (λ o. o >>= λ q. ret (q.0, r.1 ++ q.1))
              (handle-encode fuel (n + 1) ms r.0 (
                omega (arith, length-append (encode_frame m) (encode_frames ms), length-frame m)))))
      ∙ frame_deliver n m ms f

  -- On a connection that carries whole frames, each with a body that its 16-bit length can count, the
  -- loop handles the bodies of the frames of the netlink type, in order, skips the frames of every
  -- other type, and ends.
  pub handle_conn-encode :
      (ms : List Frame) (f : Fpm)
      → All IsFrame ms
      → handle_conn links w (encode_frames ms) f ≡ deliver links w 0 ms f
  unfolding handle_conn
  handle_conn-encode ms f h = handle-encode (suc (length (encode_frames ms))) 0 ms f (omega arith)
