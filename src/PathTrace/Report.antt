-- ===== src/PathTrace/Report.antt =====
-- cmd/pathtrace-exporter/main.go: parseFlows and render. `quote` is fmt's %q, `seconds` the text of a
-- walk's wall time, `trim_space` strings.TrimSpace and `sort_flows` sort.Slice by the name.
use frr_visible.Base.{ℕ, ◌++◌, List, [], ◌∷◌, Bool, Option, none, some, if◌then◌else◌, length, ltb}
use frr_visible.Base.Text.{Text, lit, is_empty, itoa, cut_byte, split}
use frr_visible.PathTrace.{Hop, Network, trace}

pub record Flow : Type 0 where
  pub name : Text
  pub start : Text
  pub dst : Text

-- The text before the byte and the text after it; `none` also where it is the first byte.
abbrev proper : Option (Text × Text) → Option (Text × Text)
proper none = none
proper (some (before, after)) = if is_empty before then none else some (before, after)

abbrev named : Text → Option (Text × Text) → Text × Text
named spec none = (spec, spec)
named spec (some (name, sd)) = (name, sd)

abbrev flow_of : Text → Option (Text × Text) → List Flow
flow_of name none = []
flow_of name (some (start, dst)) = record { name = name; start = start; dst = dst } ∷ []

-- What one item of the list comes to.
unfoldable pub parse_flow : Text → List Flow
parse_flow spec =
    let (name, sd) = named spec (proper (cut_byte b':' spec)) in
    if is_empty spec then [] else flow_of name (proper (cut_byte b'>' sd))

module _ (trim_space : Text → Text) where
  unfoldable pub flows_loop : List Text → List Flow
  flows_loop [] = []
  flows_loop (spec ∷ specs) = parse_flow (trim_space spec) ++ flows_loop specs

  unfoldable pub parse_flows : (List Flow → List Flow) → Text → List Flow
  parse_flows sort_flows s = sort_flows (flows_loop (split s b','))

abbrev newline : Text
newline = 10 ∷ []

-- %02d
abbrev two_digits : ℕ → Text
two_digits n = if ltb n 10 then lit "0" ++ itoa n else itoa n

module _ (quote : Text → Text) where
  unfoldable pub hop_lines : Text → List Hop → Text
  hop_lines name [] = []
  hop_lines name (h ∷ hs) =
      lit "frr_pathtrace_hop_info{flow="
      ++ (quote name
          ++ (lit ",seq="
              ++ (quote (two_digits h.seq)
                  ++ (lit ",node="
                      ++ (quote h.node
                          ++ (lit ",kind="
                              ++ (quote h.kind
                                  ++ (lit ",nexthop="
                                      ++ (quote h.nexthop
                                          ++ (lit ",labels="
                                              ++ (quote h.label
                                                  ++ (lit ",detail="
                                                      ++ (quote h.detail
                                                          ++ (lit "} 1"
                                                            ++ (newline
                                                            ++ hop_lines name hs)))))))))))))))

  abbrev labels : Flow → Text
  labels f =
      lit "flow="
      ++ (quote f.name ++ (lit ",src=" ++ (quote f.start ++ (lit ",dst=" ++ quote f.dst))))

  unfoldable pub flow_lines : Text → Flow → List Hop × Bool → Text
  flow_lines duration f (hops, reached) =
      lit "frr_pathtrace_reachable{"
      ++ (labels f
          ++ (lit "} "
              ++ ((if reached then lit "1" else lit "0")
                  ++ (newline
                      ++ (lit "frr_pathtrace_hops{"
                          ++ (labels f
                              ++ (lit "} "
                                  ++ (itoa (length hops)
                                      ++ (newline
                                          ++ (lit "frr_pathtrace_duration_seconds{"
                                              ++ (labels f
                                                  ++ (lit "} "
                                                      ++ (duration
                                                          ++ (newline
                                                            ++ hop_lines f.name hops))))))))))))))

  -- The loop of render over the flows.
  unfoldable pub all_lines : Network → (Flow → Text) → List Flow → Text
  all_lines net seconds [] = []
  all_lines net seconds (f ∷ fs) =
      flow_lines (seconds f) f (trace net f.start f.dst) ++ all_lines net seconds fs

  unfoldable pub render : Network → (Flow → Text) → List Flow → Text
  render net seconds flows =
      lit
        "# HELP frr_pathtrace_reachable 1 if the destination was reached by the control-plane path walk"
      ++ (newline
          ++ (lit "# TYPE frr_pathtrace_reachable gauge"
              ++ (newline
                  ++ (lit "# HELP frr_pathtrace_hops number of hops walked"
                      ++ (newline
                          ++ (lit "# TYPE frr_pathtrace_hops gauge"
                              ++ (newline
                                  ++ (lit
                                        "# HELP frr_pathtrace_duration_seconds wall time of the trace"
                                      ++ (newline
                                          ++ (lit "# TYPE frr_pathtrace_duration_seconds gauge"
                                              ++ (newline
                                                  ++ (lit
                                                        "# HELP frr_pathtrace_hop_info one series per hop (value always 1)"
                                                      ++ (newline
                                                          ++ (lit
                                                            "# TYPE frr_pathtrace_hop_info gauge"
                                                            ++ (newline
                                                            ++ (all_lines net seconds flows
                                                            ++ (lit
                                                            "# HELP frr_pathtrace_up 1 if the last refresh completed"
                                                            ++ (newline
                                                            ++ (lit "# TYPE frr_pathtrace_up gauge"
                                                            ++ (newline
                                                            ++ (lit "frr_pathtrace_up 1"
                                                            ++ newline)))))))))))))))))))))
