-- ===== src/PathTrace/Forward.antt =====
-- The forwarding that the walk follows, as a relation on a node and a label stack.
use frr_visible.Base.{ℕ, zero, suc, ◌≡◌, ◌≢◌, List, [], ◌∷◌, ◌++◌, none, some, true, false, ◌&&◌}
use frr_visible.Base.Text.{Text, is_empty, split, text_eq_instance}
use frr_visible.Base.Map.{lookup}
use frr_visible.PathTrace.{Network}

module _ (net : Network) where
  -- The node that has an address; "?" for an address that no node has.
  pub data At (addr node : Text) : Type 0 where
    at_node : lookup addr net.ip2node ≡ some node → At addr node
    at_none : lookup addr net.ip2node ≡ none → node ≡ b'?' ∷ [] → At addr node

  -- The node that owns a destination; the empty name for one that no node has.
  pub data Owns (dst node : Text) : Type 0 where
    of_node : lookup dst net.ip2node ≡ some node → Owns dst node
    of_none : lookup dst net.ip2node ≡ none → node ≡ [] → Owns dst node

module _ (net : Network) (dst : Text) where
  -- One hop: an IP route, with or without labels to push, or a label swapped, popped on the way to
  -- the next node, or popped into a VRF of this node.
  pub data Forward (node : Text) : List Text → Text → List Text → Type 0 where
    ip :
        is_empty (net.route_lookup node dst).labels ≡ true
        → (is_empty (net.route_lookup node dst).nexthop
            && is_empty (net.route_lookup node dst).prefix)
          ≡ false
        → {next : Text} → At net (net.route_lookup node dst).nexthop next
        → Forward node [] next []
    push :
        is_empty (net.route_lookup node dst).labels ≡ false
        → {next : Text} → At net (net.route_lookup node dst).nexthop next
        → Forward node [] next (split (net.route_lookup node dst).labels b',')
    swap :
        (top : Text) (rest : List Text)
        → is_empty (net.mpls_lookup node top).out_label ≡ false
        → {next : Text} → At net (net.mpls_lookup node top).nexthop next
        → Forward node (top ∷ rest) next (split (net.mpls_lookup node top).out_label b',' ++ rest)
    pop_php :
        (top : Text) (rest : List Text)
        → is_empty (net.mpls_lookup node top).out_label ≡ true
        → is_empty (net.mpls_lookup node top).nexthop ≡ false
        → {next : Text} → At net (net.mpls_lookup node top).nexthop next
        → Forward node (top ∷ rest) next rest
    pop_vrf :
        (top : Text) (rest : List Text)
        → is_empty (net.mpls_lookup node top).out_label ≡ true
        → is_empty (net.mpls_lookup node top).nexthop ≡ true
        → is_empty (net.mpls_lookup node top).iface ≡ false
        → Forward node (top ∷ rest) node rest

  -- `Reaches k node stack`: k hops lead to the node that owns `dst`, with no label left, and every
  -- next hop on the way belongs to a known node.
  pub data Reaches : ℕ → Text → List Text → Type 0 where
    owner :
        (node : Text) (stack : List Text) → Owns net dst node → stack ≡ [] → Reaches zero node stack
    hop :
        (k : ℕ) (node node' : Text) (stack stack' : List Text)
        → Forward node stack node' stack'
        → node' ≢ b'?' ∷ []
        → Reaches k node' stack'
        → Reaches (suc k) node stack
