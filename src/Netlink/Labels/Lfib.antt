-- ===== src/Netlink/Labels/Lfib.antt =====
-- internal/ingest/netlink.go and cmd/pathtrace-exporter/main.go: an entry of the label table as the
-- path trace reads it.
use frr_visible.Base.{
  ℕ, ◌≡◌, refl, ap, ◌∙◌, ◌⊎◌, List, [], ◌∷◌, ◌++◌, append-nil, map, All, Bool, true, false, ◌&&◌,
  ◌||◌, Option, none, some, if◌then◌else◌, arith, inl, inr,
}
use frr_visible.Base.Text.{Text, lit, itoa, is_empty, split, join, text_eq, text_eq_instance}
use frr_visible.Base.Text.Lacks.{Lacks, itoa-Lacks, itoa_present, split-join}
use frr_visible.Gnmi.{Update, leaf_update, str_val}
use frr_visible.PathTrace.{Network, LfibAnswer, Round, stop, move, mpls_phase}
use frr_visible.PathTrace.Lookups.{dissect, lfib_loop, sval, mpls_lookup}
use frr_visible.Netlink.Paths.{mpls_elems}
use frr_visible.Netlink.Labels.{MplsRoute, ints_csv, out_labels, next_hop, out_iface, lfib_updates}

numerals-Lacks : (ls : List ℕ) → All (Lacks b',') (map itoa ls)
numerals-Lacks [] = tt
numerals-Lacks (x ∷ xs) = (itoa-Lacks b',' x (omega arith), numerals-Lacks xs)

ints_csv-join : (x : ℕ) (xs : List ℕ) → ints_csv (x ∷ xs) ≡ join (map itoa (x ∷ xs)) (b',' ∷ [])
unfolding ints_csv join lit
ints_csv-join x [] = append-nil _
ints_csv-join x (y ∷ ys) = ap (λ t. itoa x ++ b',' ∷ t) (ints_csv-join y ys)

-- The walk splits the text of the labels back into their numerals.
split-ints_csv : (x : ℕ) (xs : List ℕ) → split (ints_csv (x ∷ xs)) b',' ≡ map itoa (x ∷ xs)
split-ints_csv x xs =
    ap (λ s. split s b',') (ints_csv-join x xs)
    ∙ split-join b',' (itoa x) (map itoa xs) (numerals-Lacks (x ∷ xs))

ints_csv_present : (x : ℕ) (xs : List ℕ) → is_empty (ints_csv (x ∷ xs)) ≡ false
unfolding ints_csv
ints_csv_present x xs = ground (arith, itoa_present x)

leaf_of-mpls_elems :
    (label : ℕ) (leaf : Text) → is_empty leaf ≡ false → (dissect (mpls_elems label leaf)).1 ≡ leaf
unfolding dissect mpls_elems lit
leaf_of-mpls_elems label leaf h = rw h refl

-- The labels of an MPLSDestination, and none for any other destination.
abbrev pub labels_of : Option (List ℕ) → List ℕ
labels_of none = []
labels_of (some ls) = ls

out_labels-labels_of : (o : Option (List ℕ)) → out_labels o ≡ ints_csv (labels_of o)
unfolding ints_csv
out_labels-labels_of none = refl
out_labels-labels_of (some ls) = refl

-- The label stack of the packet after a round that moves it.
abbrev pub stack_after : Round → Option (List Text)
stack_after (stop h reached) = none
stack_after (move h next stack) = some stack

-- The hop of an answer with these labels.
mpls_phase-ints_csv :
    (net : Network) (node top : Text) (rest : List Text) (seq : ℕ) (ls : List ℕ) (nh iface : Text)
    → net.mpls_lookup node top ≡ record { out_label = ints_csv ls; nexthop = nh; iface = iface }
    → (is_empty ls && (is_empty nh && is_empty iface)) ≡ false
    → stack_after (mpls_phase net node top rest seq) ≡ some (map itoa ls ++ rest)
unfolding mpls_phase
mpls_phase-ints_csv net node top rest seq [] nh iface answers says =
    unfold ints_csv in rw answers (ground arith)
mpls_phase-ints_csv net node top rest seq (x ∷ xs) nh iface answers says =
    rw (answers, ints_csv_present x xs, split-ints_csv x xs) refl

-- Whether a leaf of this name is among the updates.
unfoldable pub mentions : Text → List Update → Bool
unfolding dissect
mentions leaf [] = false
mentions leaf (u ∷ us) = text_eq (dissect u.path).1 leaf || mentions leaf us

abbrev pub IsIn : List Update → Update → Type 0
IsIn [] u = ⊥
IsIn (v ∷ vs) u = (u ≡ v) ⊎ IsIn vs u

abbrev absorb : Text → Text → LfibAnswer → LfibAnswer
absorb leaf v r =
    if text_eq leaf (lit "out-label")
    then record r { out_label = v }
    else if text_eq leaf (lit "next-hop")
    then record r { nexthop = v }
    else if text_eq leaf (lit "interface")
    then record r { iface = v }
    else r

lfib_loop-leaf :
    (label : ℕ) (leaf v : Text) (us : List Update) (acc : LfibAnswer)
    → is_empty leaf ≡ false
    → lfib_loop (leaf_update (mpls_elems label leaf) v ∷ us) acc ≡ lfib_loop us (absorb leaf v acc)
unfolding lfib_loop leaf_update str_val sval
lfib_loop-leaf label leaf v us acc h = rw (leaf_of-mpls_elems label leaf h) refl

mentions-leaf :
    (name : Text) (label : ℕ) (leaf v : Text) (us : List Update)
    → is_empty leaf ≡ false
    → mentions name (leaf_update (mpls_elems label leaf) v ∷ us)
      ≡ (text_eq leaf name || mentions name us)
unfolding mentions leaf_update
mentions-leaf name label leaf v us h = rw (leaf_of-mpls_elems label leaf h) refl

if_same : (b : Bool) (x : Text) → (if b then x else x) ≡ x
if_same true x = refl
if_same false x = refl

module _ (link_name : ℕ → Option Text) (label : ℕ) (r : MplsRoute) where
  -- The fields of the answer that the updates mention, and those of `acc` for the others.
  abbrev told_by : List Update → LfibAnswer → LfibAnswer
  told_by us acc = record {
    out_label = if mentions (lit "out-label") us then out_labels r.new_dst else acc.out_label;
    nexthop = if mentions (lit "next-hop") us then next_hop r.via r.gw else acc.nexthop;
    iface = if mentions (lit "interface") us then out_iface link_name r.link_index else acc.iface;
  }

  -- The same for a list that starts with the leaf of this name.
  abbrev met : Text → List Update → LfibAnswer → LfibAnswer
  met leaf us acc = record {
    out_label =
        if text_eq leaf (lit "out-label") || mentions (lit "out-label") us
        then out_labels r.new_dst
        else acc.out_label;
    nexthop =
        if text_eq leaf (lit "next-hop") || mentions (lit "next-hop") us
        then next_hop r.via r.gw
        else acc.nexthop;
    iface =
        if text_eq leaf (lit "interface") || mentions (lit "interface") us
        then out_iface link_name r.link_index
        else acc.iface;
  }

  lfib_loop_heard :
      (leaf v : Text) (u : Update) (us : List Update) (acc : LfibAnswer)
      → ((a : LfibAnswer) → lfib_loop us a ≡ told_by us a)
      → u ≡ leaf_update (mpls_elems label leaf) v
      → is_empty leaf ≡ false
      → told_by us (absorb leaf v acc) ≡ met leaf us acc
      → lfib_loop (u ∷ us) acc ≡ told_by (u ∷ us) acc
  lfib_loop_heard leaf v u us acc rest e present same =
      rw
        (
          e,
          mentions-leaf (lit "out-label") label leaf v us present,
          mentions-leaf (lit "next-hop") label leaf v us present,
          mentions-leaf (lit "interface") label leaf v us present,
        )
        (lfib_loop-leaf label leaf v us acc present ∙ rest (absorb leaf v acc) ∙ same)

  lfib_loop_told :
      (us : List Update)
      → All (IsIn (lfib_updates link_name label r)) us
      → (acc : LfibAnswer) → lfib_loop us acc ≡ told_by us acc
  unfolding lfib_updates lit text_eq
  lfib_loop_told [] h acc = unfold lfib_loop mentions in refl
  lfib_loop_told (u ∷ us) h acc =
      let rest = lfib_loop_told us (h.1) in
      elim (h.0) [
        | inl e ↦ lfib_loop_heard (lit "in-label") _ u us acc rest e refl refl
        | inr (inl e) ↦
            lfib_loop_heard (lit "out-label") _ u us acc rest e refl
              (rw (if_same _ (out_labels r.new_dst)) refl)
        | inr (inr (inl e)) ↦
            lfib_loop_heard (lit "next-hop") _ u us acc rest e refl
              (rw (if_same _ (next_hop r.via r.gw)) refl)
        | inr (inr (inr (inl e))) ↦
            lfib_loop_heard (lit "interface") _ u us acc rest e refl
              (rw (if_same _ (out_iface link_name r.link_index)) refl)
        | inr (inr (inr (inr e))) ↦ elim e [ ]
      ]

  -- Every name of a leaf that mplsLookup reads is among the updates.
  abbrev IsWhole : List Update → Type 0
  IsWhole us =
      (mentions (lit "out-label") us ≡ true)
      × (mentions (lit "next-hop") us ≡ true)
      × (mentions (lit "interface") us ≡ true)

  -- The path trace reads the entry back: from updates that are all leaves that the ingester writes for the entry, in any order
  -- and with repetitions, and that name the three fields, mplsLookup returns the text of the pushed labels, the next hop and the
  -- interface.
  pub mpls_lookup-lfib_updates :
      (us : List Update)
      → All (IsIn (lfib_updates link_name label r)) us
      → IsWhole us
      → mpls_lookup us ≡ record {
        out_label = out_labels r.new_dst;
        nexthop = next_hop r.via r.gw;
        iface = out_iface link_name r.link_index;
      }
  unfolding mpls_lookup
  mpls_lookup-lfib_updates us h whole = lfib_loop_told us h _ ∙ rw (whole.0, whole.1, whole.2) refl

  -- A node that answers for the top label with updates that are all among those that snapshotMPLS
  -- writes for a kernel entry, and that have its out-label, its next hop and its interface, moves the
  -- packet on, and the labels of the stack are then the ones of the kernel's entry, in front of the
  -- rest, unless the entry has no label, no next hop and no interface.
  pub mpls_phase-lfib_updates :
      (net : Network) (node top : Text) (rest : List Text) (seq : ℕ) (us : List Update)
      → All (IsIn (lfib_updates link_name label r)) us
      → IsWhole us
      → net.mpls_lookup node top ≡ mpls_lookup us
      → (is_empty (labels_of r.new_dst)
          && (is_empty (next_hop r.via r.gw) && is_empty (out_iface link_name r.link_index)))
        ≡ false
      → stack_after (mpls_phase net node top rest seq)
        ≡ some (map itoa (labels_of r.new_dst) ++ rest)
  mpls_phase-lfib_updates net node top rest seq us h whole answers says =
      mpls_phase-ints_csv net node top rest seq (labels_of r.new_dst) _ _
        (answers ∙ mpls_lookup-lfib_updates us h whole ∙ rw (out_labels-labels_of r.new_dst) refl)
        says
