-- ===== src/Topology/Graph.antt =====
-- cmd/topology-exporter/main.go: which edges the graph has.
use frr_visible.Base.{
  ◌≡◌, refl, sym, ap, ◌∙◌, subst, inl, inr, List, [], ◌∷◌, Bool, true, false, ◌&&◌, ◌||◌, Option,
  none, some, if◌then◌else◌, arith, Bool-cases, if_true,
}
use frr_visible.Base.Text.{Text, lit, text_eq, text_eq_iff, text_eq_instance, text_gt}
use frr_visible.Base.Text.Order.{text_gt_asym}
use frr_visible.Base.Map.{Map, lookup, insert, lookup-insert, IsDistinct, insert-IsDistinct}
use frr_visible.Gnmi.{GnmiPath, Update}
use frr_visible.Topology.{
  Edge, Offer, add_edge, add_pseudo, is_there, edge_of, edge_key, keeps, put_edge, put_pseudo,
  is_node, accepts, offer, offer_all, node_offers, edges_of,
}

-- The edge that an offer names.
abbrev pub offered : Offer → Edge
offered (add_edge layer a b detail) = edge_of layer a b detail
offered (add_pseudo a b detail) = edge_of (lit "vlan") a b detail

some_eq {ℓ} : {A : Type ℓ} {x y : A} → some x ≡ some y → x ≡ y
some_eq e = cc

different_names :
    (a b : Text)
    → text_eq a b ≡ false
    → text_eq (if text_gt a b then b else a) (if text_gt a b then a else b) ≡ false
different_names a b h = ground (arith, h, text_eq_iff a b, text_eq_iff b a)

kept_is_there : (o : Option Edge) → keeps o ≡ true → is_there o ≡ true
kept_is_there none h = cc
kept_is_there (some e) h = refl

or_swap : (a b c : Bool) → (a || (b || c)) ≡ ((b || a) || c)
or_swap a b c = ground arith

or_false : (a : Bool) → (a || false) ≡ a
or_false true = refl
or_false false = refl

module _ (inventory : Map Text Text) where
  -- An edge under its key: between two names in order, and of nodes of the inventory outside the VLANs.
  pub record IsEdge (k : Text) (e : Edge) : Type 0 where
    pub key : k ≡ edge_key e
    pub ordered : text_gt e.src e.dst ≡ false
    pub different : text_eq e.src e.dst ≡ false
    pub nodes :
        (text_eq e.layer (lit "vlan") || (is_node inventory e.src && is_node inventory e.dst))
        ≡ true

  pub record IsGraph (edges : Map Text Edge) : Type 0 where
    pub distinct : IsDistinct edges
    pub each : (k : Text) (e : Edge) → lookup k edges ≡ some e → IsEdge k e

  insert-IsGraph :
      (e : Edge) (edges : Map Text Edge)
      → IsEdge (edge_key e) e
      → IsGraph edges
      → IsGraph (insert (edge_key e) e edges)
  insert-IsGraph e edges h g = record {
    distinct = insert-IsDistinct (edge_key e) e edges g.distinct;
    each = λ k x at. go k x (sym (lookup-insert (edge_key e) k e edges) ∙ at);
  }
    where
      go :
          (k : Text) (x : Edge)
          → (if text_eq (edge_key e) k then some e else lookup k edges) ≡ some x
          → IsEdge k x
      go k x at = elim (Bool-cases (text_eq (edge_key e) k)) [
        | inl same ↦
            let found : e ≡ x = some_eq (sym (if_true _ (some e) (lookup k edges) same) ∙ at) in
            subst (λ z. IsEdge z x) ((text_eq_iff (edge_key e) k).0 same)
              (subst (λ y. IsEdge (edge_key e) y) found h)
        | inr other ↦ g.each k x (sym (rw other refl) ∙ at)
      ]

  offered-IsEdge :
      (o : Offer) → accepts inventory o ≡ true → IsEdge (edge_key (offered o)) (offered o)
  unfolding accepts edge_of
  offered-IsEdge (add_edge layer a b detail) h = record {
    key = refl;
    ordered = ground (arith, text_gt_asym a b);
    different = different_names a b (ground (arith, h));
    nodes = ground (arith, h);
  }
  offered-IsEdge (add_pseudo a b detail) h = record {
    key = refl;
    ordered = ground (arith, text_gt_asym a b);
    different = different_names a b (ground (arith, h));
    nodes = ground (arith, text_eq_iff (lit "vlan") (lit "vlan"));
  }

  put_edge-IsGraph :
      (e : Edge) (edges : Map Text Edge)
      → IsEdge (edge_key e) e
      → IsGraph edges
      → IsGraph (put_edge e edges)
  unfolding put_edge
  put_edge-IsGraph e edges h g = ground (arith, insert-IsGraph e edges h g, g)

  put_pseudo-IsGraph :
      (e : Edge) (edges : Map Text Edge)
      → IsEdge (edge_key e) e
      → IsGraph edges
      → IsGraph (put_pseudo e edges)
  unfolding put_pseudo
  put_pseudo-IsGraph e edges h g = ground (arith, insert-IsGraph e edges h g, g)

  offer-IsGraph :
      (o : Offer) (edges : Map Text Edge) → IsGraph edges → IsGraph (offer inventory o edges)
  unfolding offer
  offer-IsGraph (add_edge layer a b detail) edges g =
      elim (Bool-cases (accepts inventory (add_edge layer a b detail))) [
        | inl taken ↦
            rw taken (put_edge-IsGraph _ edges (offered-IsEdge (add_edge layer a b detail) taken) g)
        | inr refused ↦ rw refused g
      ]
  offer-IsGraph (add_pseudo a b detail) edges g =
      elim (Bool-cases (accepts inventory (add_pseudo a b detail))) [
        | inl taken ↦
            rw taken (put_pseudo-IsGraph _ edges (offered-IsEdge (add_pseudo a b detail) taken) g)
        | inr refused ↦ rw refused g
      ]

  offer_all-IsGraph :
      (os : List Offer) (edges : Map Text Edge)
      → IsGraph edges
      → IsGraph (offer_all inventory os edges)
  unfolding offer_all
  offer_all-IsGraph [] edges g = g
  offer_all-IsGraph (o ∷ os) edges g =
      offer_all-IsGraph os (offer inventory o edges) (offer-IsGraph o edges g)

  IsGraph-empty : IsGraph []
  unfolding lookup
  IsGraph-empty = record { distinct = tt; each = λ k e h. cc }

  -- Whether one of the calls is not refused and is for this key.
  unfoldable pub names : Text → List Offer → Bool
  names k [] = false
  names k (o ∷ os) = (accepts inventory o && text_eq (edge_key (offered o)) k) || names k os

  there-insert :
      (e : Edge) (edges : Map Text Edge) (k : Text)
      → is_there (lookup k (insert (edge_key e) e edges))
        ≡ (text_eq (edge_key e) k || is_there (lookup k edges))
  there-insert e edges k =
      rw (lookup-insert (edge_key e) k e edges) (elim (Bool-cases (text_eq (edge_key e) k)) [
        | inl same ↦ rw same refl
        | inr other ↦ rw other refl
      ])

  kept_there :
      (e : Edge) (edges : Map Text Edge) (k : Text)
      → is_there (lookup (edge_key e) edges) ≡ true
      → is_there (lookup k edges) ≡ (text_eq (edge_key e) k || is_there (lookup k edges))
  kept_there e edges k h = elim (Bool-cases (text_eq (edge_key e) k)) [
    | inl same ↦
        rw same
          (ap (λ z. is_there (lookup z edges)) (sym ((text_eq_iff (edge_key e) k).0 same)) ∙ h)
    | inr other ↦ rw other refl
  ]

  there-put_edge :
      (e : Edge) (edges : Map Text Edge) (k : Text)
      → is_there (lookup k (put_edge e edges))
        ≡ (text_eq (edge_key e) k || is_there (lookup k edges))
  unfolding put_edge
  there-put_edge e edges k = elim (Bool-cases (keeps (lookup (edge_key e) edges))) [
    | inl old ↦ rw old (kept_there e edges k (kept_is_there (lookup (edge_key e) edges) old))
    | inr new ↦ rw new (there-insert e edges k)
  ]

  there-put_pseudo :
      (e : Edge) (edges : Map Text Edge) (k : Text)
      → is_there (lookup k (put_pseudo e edges))
        ≡ (text_eq (edge_key e) k || is_there (lookup k edges))
  unfolding put_pseudo
  there-put_pseudo e edges k = elim (Bool-cases (is_there (lookup (edge_key e) edges))) [
    | inl old ↦ rw old (kept_there e edges k old)
    | inr new ↦ rw new (there-insert e edges k)
  ]

  there-offer :
      (o : Offer) (edges : Map Text Edge) (k : Text)
      → is_there (lookup k (offer inventory o edges))
        ≡ ((accepts inventory o && text_eq (edge_key (offered o)) k) || is_there (lookup k edges))
  unfolding offer
  there-offer (add_edge layer a b detail) edges k =
      elim (Bool-cases (accepts inventory (add_edge layer a b detail))) [
        | inl taken ↦ rw taken (there-put_edge (edge_of layer a b detail) edges k)
        | inr refused ↦ rw refused refl
      ]
  there-offer (add_pseudo a b detail) edges k =
      elim (Bool-cases (accepts inventory (add_pseudo a b detail))) [
        | inl taken ↦ rw taken (there-put_pseudo (edge_of (lit "vlan") a b detail) edges k)
        | inr refused ↦ rw refused refl
      ]

  there-offer_all :
      (os : List Offer) (edges : Map Text Edge) (k : Text)
      → is_there (lookup k (offer_all inventory os edges))
        ≡ (names k os || is_there (lookup k edges))
  unfolding offer_all names
  there-offer_all [] edges k = refl
  there-offer_all (o ∷ os) edges k =
      there-offer_all os (offer inventory o edges) k
      ∙ ap (λ b. names k os || b) (there-offer o edges k)
      ∙ or_swap (names k os) _ (is_there (lookup k edges))

  nothing_there : (k : Text) → is_there (lookup {V = Edge} k []) ≡ false
  unfolding lookup
  nothing_there k = refl

  -- The graph of a round has exactly the edges that one of its calls of addEdge or addPseudo names and does not refuse, each once,
  -- under its own key, with its ends in order and different, and, outside the VLANs, both of them nodes of the inventory.
  pub edges_of_exact :
      (get : Text → GnmiPath → List Update) (ip2node : Map Text Text)
      → IsGraph (edges_of inventory get ip2node)
        × ((k : Text)
            → is_there (lookup k (edges_of inventory get ip2node))
              ≡ names k (node_offers inventory get ip2node inventory))
  unfolding edges_of
  edges_of_exact get ip2node =
      let os = node_offers inventory get ip2node inventory in
      (
        offer_all-IsGraph os [] IsGraph-empty,
        λ k.
            there-offer_all os [] k
            ∙ ap (λ b. names k os || b) (nothing_there k)
            ∙ or_false (names k os),
      )
