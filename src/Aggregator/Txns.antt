-- ===== src/Aggregator/Txns.antt =====
-- cmd/trace-aggregator/main.go: fetchTxns, matchTxn, urlQuery and the stitching in loop. The records of
-- a Loki answer are arguments, after json.Unmarshal: `none` is a value that does not parse.
pub mod Latest
pub mod Query
use frr_visible.Base.{
  ℕ, ◌+◌, ◌-◌, ◌/◌, ◌%◌, List, [], ◌∷◌, ◌++◌, Bool, true, false, not, ◌&&◌, ◌||◌, Option, none,
  some, if◌then◌else◌, ltb, leb, ◌==◌,
}
use frr_visible.Base.Text.{Text, lit, is_empty, text_eq}
use frr_visible.Aggregator.{TxnRec, DTrace}

unfoldable pub keep_recs : List (Option TxnRec) → List TxnRec
keep_recs [] = []
keep_recs (none ∷ vs) = keep_recs vs
keep_recs (some r ∷ vs) =
    if not (is_empty r.id) && ltb 0 r.commit_ns then r ∷ keep_recs vs else keep_recs vs

-- A slice that nothing was appended to is nil.
abbrev unless_nil : List TxnRec → Option (List TxnRec)
unless_nil [] = none
unless_nil (r ∷ rs) = some (r ∷ rs)

-- `values` are those of all result streams; `sort_txns` is sort.Slice by the commit time.
unfoldable pub fetch_txns :
    (List TxnRec → List TxnRec) → Option (List (Option TxnRec)) → Option (List TxnRec)
unfolding keep_recs
fetch_txns sort_txns none = none
fetch_txns sort_txns (some values) = unless_nil (sort_txns (keep_recs values))

-- A round of pollTxns keeps the old anchors where it got nil.
abbrev pub poll_txns : Option (List TxnRec) → List TxnRec → List TxnRec
poll_txns none txns = txns
poll_txns (some fetched) txns = fetched

-- The two `continue` tests; the times are moved to the side where they add.
unfoldable pub is_candidate : Text → ℕ → ℕ → ℕ → TxnRec → Bool
is_candidate lab window skew st t =
    if not (is_empty lab) && not (text_eq t.lab lab)
    then false
    else if ltb (t.commit_ns + window) st || ltb (st + skew) t.commit_ns
    then false
    else true

abbrev pub latest : TxnRec → Option TxnRec → Option TxnRec
latest t none = some t
latest t (some best) = if ltb best.commit_ns t.commit_ns then some t else some best

unfoldable pub match_loop : Text → ℕ → ℕ → ℕ → List TxnRec → Option TxnRec → Option TxnRec
match_loop lab window skew st [] best = best
match_loop lab window skew st (t ∷ ts) best =
    match_loop lab window skew st ts
      (if is_candidate lab window skew st t then latest t best else best)

unfoldable pub match_txn : Text → ℕ → ℕ → List TxnRec → ℕ → Option TxnRec
unfolding match_loop
match_txn lab window skew txns st = match_loop lab window skew st txns none

-- The zero time lies before every commit, so no transaction fits it.
abbrev match_start : Text → ℕ → ℕ → List TxnRec → Option ℕ → Option TxnRec
match_start lab window skew txns none = none
match_start lab window skew txns (some st) = match_txn lab window skew txns st

abbrev attribute : Option TxnRec → DTrace → DTrace
attribute none d = d
attribute (some t) d = record d { txn = t.id; txn_act = t.action; txn_by = t.agent }

-- The stitching of one round of loop.
unfoldable pub stitch : Text → ℕ → ℕ → List TxnRec → List DTrace → List DTrace
unfolding match_txn
stitch lab window skew txns [] = []
stitch lab window skew txns (d ∷ ds) =
    attribute (match_start lab window skew txns d.start) d ∷ stitch lab window skew txns ds

abbrev pub is_plain : ℕ → Bool
is_plain c =
    (leb b'a' c && leb c b'z')
    || ((leb b'A' c && leb c b'Z')
        || ((leb b'0' c && leb c b'9') || (c == b'-' || (c == b'_' || (c == b'.' || c == b'~')))))

-- hexd
abbrev pub upper_hex : ℕ → ℕ
upper_hex d = if ltb d 10 then b'0' + d else b'A' + (d - 10)

unfoldable pub url_query : Text → Text
url_query [] = []
url_query (c ∷ s) =
    let rest = url_query s in
    if is_plain c then c ∷ rest else b'%' ∷ upper_hex (c / 16) ∷ upper_hex (c % 16) ∷ rest
