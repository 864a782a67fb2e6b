-- ===== src/Fpm/Attrs/Labels.antt =====
-- internal/ingest/fpm.go: decodeMPLSStack against the kernel's wire form of a label stack.
use frr_visible.Base.{
  ℕ, ◌+◌, ◌*◌, ◌/◌, ◌%◌, ◌<◌, ◌≡◌, ap, ◌∙◌, List, [], ◌∷◌, ◌++◌, map, All, arith,
}
use frr_visible.Base.Bytes.{be32}
use frr_visible.Fpm.Attrs.{decode_mpls_stack}

-- One entry: the label in the top 20 bits, three traffic-class bits, bottom of stack, TTL.
pub record LabelEntry : Type 0 where
  pub label : ℕ
  pub tc : ℕ
  pub ttl : ℕ

abbrev pub IsLabelEntry : LabelEntry → Type 0
IsLabelEntry e = (e.label < 1048576) × (e.tc < 8) × (e.ttl < 256)

abbrev entry_word : LabelEntry → ℕ → ℕ
entry_word e bos = e.label * 4096 + e.tc * 512 + bos * 256 + e.ttl

abbrev word_bytes : ℕ → List ℕ → List ℕ
word_bytes w rest = (w / 16777216) ∷ (w / 65536 % 256) ∷ (w / 256 % 256) ∷ (w % 256) ∷ rest

-- A stack that ends in `last`, with the bottom-of-stack bit on that entry alone, before `rest`.
unfoldable pub encode_stack : List LabelEntry → LabelEntry → List ℕ → List ℕ
encode_stack [] last rest = word_bytes (entry_word last 1) rest
encode_stack (e ∷ es) last rest = word_bytes (entry_word e 0) (encode_stack es last rest)

be32-word_bytes : (w : ℕ) → w < 4294967296 → be32 (word_bytes w []) 0 ≡ w
be32-word_bytes w h = omega arith

decode-last :
    (e : LabelEntry) (rest : List ℕ)
    → IsLabelEntry e
    → decode_mpls_stack (word_bytes (entry_word e 1) rest) ≡ e.label ∷ []
unfolding decode_mpls_stack
decode-last e rest h = ground (arith, be32-word_bytes (entry_word e 1))

decode-inner :
    (e : LabelEntry) (rest : List ℕ)
    → IsLabelEntry e
    → decode_mpls_stack (word_bytes (entry_word e 0) rest) ≡ e.label ∷ decode_mpls_stack rest
unfolding decode_mpls_stack
decode-inner e rest h = ground (arith, be32-word_bytes (entry_word e 0))

-- Decoding gives the labels of the stack from the top, whatever the traffic classes and TTLs are, and
-- does not look at the bytes behind the bottom of the stack.
pub decode-encode_stack :
    (es : List LabelEntry) (last : LabelEntry) (rest : List ℕ)
    → All IsLabelEntry es
    → IsLabelEntry last
    → decode_mpls_stack (encode_stack es last rest) ≡ map (λ e. e.label) es ++ last.label ∷ []
unfolding encode_stack
decode-encode_stack [] last rest h hl = decode-last last rest hl
decode-encode_stack (e ∷ es) last rest h hl =
    decode-inner e (encode_stack es last rest) h.0
    ∙ ap (λ r. e.label ∷ r) (decode-encode_stack es last rest h.1 hl)
