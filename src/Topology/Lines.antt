-- ===== src/Topology/Lines.antt =====
-- cmd/topology-exporter/main.go: role, title and the text of render. `quote` is fmt's %q, and
-- `sort_strings` is sort.Strings.
use frr_visible.Base.{
  List, [], ◌∷◌, ◌++◌, Bool, true, Option, none, some, if◌then◌else◌, length, drop,
}
use frr_visible.Base.Text.{Text, lit, text_eq, text_eq_instance, has_prefix, split}
use frr_visible.Base.Map.{Map, lookup, insert}
use frr_visible.Gnmi.{GnmiPath, Update}
use frr_visible.PathTrace.Lookups.{build_ip2node}
use frr_visible.Topology.{Edge, edges_of}

unfoldable pub role : Text → Text
role name =
    if has_prefix name (lit "vlan:")
    then lit "VLAN"
    else if has_prefix name (lit "mac:")
    then lit "MAC"
    else if has_prefix name (lit "pe")
    then lit "PE"
    else if has_prefix name (lit "ce")
    then lit "CE"
    else if has_prefix name (lit "p")
    then lit "P"
    else lit "?"

-- The ellipsis, the last two parts and a colon between them; `s` if there are fewer parts.
abbrev last_two : Text → List Text → Text
last_two s [] = s
last_two s (p ∷ []) = s
last_two s (p ∷ q ∷ []) = 226 ∷ 128 ∷ 166 ∷ (p ++ (lit ":" ++ q))
last_two s (p ∷ q ∷ r ∷ parts) = last_two s (q ∷ r ∷ parts)

unfoldable pub title : Text → Text
title name =
    if has_prefix name (lit "vlan:")
    then lit "vlan" ++ drop (length (lit "vlan:")) name
    else if has_prefix name (lit "mac:")
    then last_two (drop (length (lit "mac:")) name) (split (drop (length (lit "mac:")) name) b':')
    else name

-- layerNodes[layer], as a map.
unfoldable pub layer_nodes : Text → Map Text Edge → Map Text Bool → Map Text Bool
layer_nodes layer [] m = m
layer_nodes layer ((k, e) ∷ edges) m =
    layer_nodes layer edges
      (if text_eq e.layer layer then insert e.dst true (insert e.src true m) else m)

unfoldable pub keys {ℓ} : {A : Type ℓ} → Map Text A → List Text
keys [] = []
keys ((k, v) ∷ m) = k ∷ keys m

abbrev newline : Text
newline = 10 ∷ []

abbrev layers : List Text
layers = lit "physical" ∷ lit "vlan" ∷ lit "ospf" ∷ lit "bgp" ∷ lit "mpls" ∷ []

module _ (quote : Text → Text) (sort_strings : List Text → List Text) where
  unfoldable pub node_lines : Text → List Text → Text
  node_lines layer [] = []
  node_lines layer (n ∷ ns) =
      lit "frr_topo_node{layer="
      ++ (quote layer
          ++ (lit ",id="
              ++ (quote n
                  ++ (lit ",title="
                      ++ (quote (title n)
                          ++ (lit ",role="
                              ++ (quote (role n)
                                  ++ (lit "} 1" ++ (newline ++ node_lines layer ns)))))))))

  unfoldable pub layer_lines : Map Text Edge → List Text → Text
  layer_lines edges [] = []
  layer_lines edges (layer ∷ ls) =
      node_lines layer (sort_strings (keys (layer_nodes layer edges []))) ++ layer_lines edges ls

  abbrev edge_line : Option Edge → Text
  edge_line none = []
  edge_line (some e) =
      lit "frr_topo_edge{layer="
      ++ (quote e.layer
          ++ (lit ",id="
              ++ (quote (e.src ++ (lit "|" ++ e.dst))
                  ++ (lit ",source="
                      ++ (quote e.src
                          ++ (lit ",target="
                              ++ (quote e.dst
                                  ++ (lit ",detail="
                                      ++ (quote e.detail ++ (lit "} 1" ++ newline))))))))))

  unfoldable pub edge_lines : Map Text Edge → List Text → Text
  edge_lines edges [] = []
  edge_lines edges (k ∷ ks) = edge_line (lookup k edges) ++ edge_lines edges ks

  abbrev page : Map Text Edge → Text
  page edges =
      lit "# HELP frr_topo_node A node in the topology (per layer)."
      ++ (newline
          ++ (lit "# TYPE frr_topo_node gauge"
              ++ (newline
                  ++ (layer_lines edges layers
                      ++ (lit
                            "# HELP frr_topo_edge An adjacency/session between two nodes (per layer)."
                          ++ (newline
                              ++ (lit "# TYPE frr_topo_edge gauge"
                                  ++ (newline
                                      ++ (edge_lines edges (sort_strings (keys edges))
                                          ++ (lit
                                                "# HELP frr_topo_up 1 if the last refresh completed."
                                              ++ (newline
                                                  ++ (lit "# TYPE frr_topo_up gauge"
                                                      ++ (newline
                                                          ++ (lit "frr_topo_up 1"
                                                            ++ newline))))))))))))))

  unfoldable pub render : (Text → GnmiPath → List Update) → Map Text Text → Text
  render get inventory = page (edges_of inventory get (build_ip2node get inventory []))
