-- ===== src/PathTrace/Walk.antt =====
-- cmd/pathtrace-exporter/main.go: the walk against the forwarding relation, and its hops.
use frr_visible.Base.{
  ℕ, zero, suc, ◌+◌, ◌<◌, ◌≤◌, ◌≡◌, refl, sym, ◌∙◌, ap, List, [], ◌∷◌, Bool, true, false, ◌&&◌,
  length, arith, Bool-cases, inl, inr, ◌⊎◌, ◌↔◌, ◌≢◌, subst, Option-cases,
}
use frr_visible.Base.Text.{Text, is_empty, text_eq, text_eq_iff, text_eq_instance}
use frr_visible.Base.Map.{lookup}
use frr_visible.PathTrace.{
  Network, Hop, Round, stop, move, round, arrived, ip_phase, mpls_phase, trace_loop, trace, unknown,
  max_rounds, node_of, node_or_empty,
}
use frr_visible.PathTrace.Forward.{
  At, at_node, at_none, Owns, of_node, of_none, Forward, Reaches, ip, push, swap, pop_php, pop_vrf,
  owner, hop,
}

and_false : (b : Bool) → (b && false) ≡ false
and_false true = refl
and_false false = refl

module _ (net : Network) where
  node_of-At : (addr : Text) → At net addr (node_of net addr)
  unfolding node_of
  node_of-At addr = elim (Option-cases (lookup addr net.ip2node)) [
    | inl free ↦ rw free (at_none free refl)
    | inr (n, found) ↦ rw found (at_node found)
  ]

  At-node_of : {addr node : Text} → At net addr node → node_of net addr ≡ node
  unfolding node_of
  At-node_of (at_node found) = rw found refl
  At-node_of (at_none free e) = rw free (sym e)

  Owns-node_or_empty : {dst node : Text} → Owns net dst node → node_or_empty net dst ≡ node
  unfolding node_or_empty
  Owns-node_or_empty (of_node found) = rw found refl
  Owns-node_or_empty (of_none free e) = rw free (sym e)

  node_or_empty-Owns : (dst : Text) → Owns net dst (node_or_empty net dst)
  unfolding node_or_empty
  node_or_empty-Owns dst = elim (Option-cases (lookup dst net.ip2node)) [
    | inl free ↦ rw free (of_none free refl)
    | inr (n, found) ↦ rw found (of_node found)
  ]

  Owns-arrived :
      (dst node : Text) (stack : List Text)
      → Owns net dst node
      → stack ≡ []
      → arrived net dst node stack ≡ true
  unfolding arrived
  Owns-arrived dst node stack own e =
      rw (Owns-node_or_empty own, e, (text_eq_iff node node).1 refl) refl

  arrived-Owns :
      (dst node : Text) (stack : List Text)
      → arrived net dst node stack ≡ true
      → Owns net dst node × (stack ≡ [])
  unfolding arrived
  arrived-Owns dst node [] here = (
    subst (Owns net dst) ((text_eq_iff (node_or_empty net dst) node).0 (ground arith))
        (node_or_empty-Owns dst),
    refl,
  )
  arrived-Owns dst node (x ∷ stack) here = absurd (ground arith)

module _ (net : Network) (dst : Text) where
  -- What a round does at a node that is not the end of the path: it gives up, or it takes a hop that
  -- forwarding has.
  abbrev Stops : ℕ → Round → Type 0
  Stops seq r = (h : Hop) × (r ≡ stop h false) × (h.seq ≡ seq)

  abbrev Moves : ℕ → Round → Text → List Text → Type 0
  Moves seq r node' stack' = (h : Hop) × (r ≡ move h node' stack') × (h.seq ≡ seq)

  Forward-round :
      {node node' : Text} {stack stack' : List Text} (seq : ℕ)
      → arrived net dst node stack ≡ false
      → Forward net dst node stack node' stack'
      → Moves seq (round net dst node stack seq) node' stack'
  unfolding round ip_phase mpls_phase
  Forward-round seq far (ip plain routed at) =
      rw (far, plain, routed, At-node_of net at) (_, refl, refl)
  Forward-round seq far (push labeled at) =
      rw (far, labeled, and_false _, At-node_of net at) (_, refl, refl)
  Forward-round seq far (swap top rest out at) = rw (far, out, At-node_of net at) (_, refl, refl)
  Forward-round seq far (pop_php top rest out nh at) =
      rw (far, out, nh, At-node_of net at) (_, refl, refl)
  Forward-round seq far (pop_vrf top rest out nh iface) = rw (far, out, nh, iface) (_, refl, refl)

  round-Forward :
      (node : Text) (stack : List Text) (seq : ℕ)
      → arrived net dst node stack ≡ false
      → Stops seq (round net dst node stack seq)
        ⊎ ((node' : Text) × (stack' : List Text) × Moves seq
              (round net dst node stack seq)
              node'
              stack'
            × Forward net dst node stack node' stack')
  unfolding round ip_phase mpls_phase
  round-Forward node [] seq far =
      let r = net.route_lookup node dst in
      elim (Bool-cases (is_empty r.labels)) [
        | inr labeled ↦ inr (
          _,
          _,
          Forward-round seq far (push labeled (node_of-At net _)),
          push labeled (node_of-At net _),
        )
        | inl plain ↦ elim (Bool-cases (is_empty r.nexthop && is_empty r.prefix)) [
          | inl nothing ↦ rw (far, plain, nothing) (inl (_, refl, refl))
          | inr routed ↦ inr (
            _,
            _,
            Forward-round seq far (ip plain routed (node_of-At net _)),
            ip plain routed (node_of-At net _),
          )
        ]
      ]
  round-Forward node (top ∷ rest) seq far =
      let r = net.mpls_lookup node top in
      elim (Bool-cases (is_empty r.out_label)) [
        | inr out ↦ inr (
          _,
          _,
          Forward-round seq far (swap top rest out (node_of-At net _)),
          swap top rest out (node_of-At net _),
        )
        | inl out ↦ elim (Bool-cases (is_empty r.nexthop)) [
          | inr nh ↦ inr (
            _,
            _,
            Forward-round seq far (pop_php top rest out nh (node_of-At net _)),
            pop_php top rest out nh (node_of-At net _),
          )
          | inl nh ↦ elim (Bool-cases (is_empty r.iface)) [
            | inl iface ↦ rw (far, out, nh, iface) (inl (_, refl, refl))
            | inr iface ↦ inr (
              _,
              _,
              Forward-round seq far (pop_vrf top rest out nh iface),
              pop_vrf top rest out nh iface,
            )
          ]
        ]
      ]

  -- The loop after a hop: it is lost at "?", or it goes on.
  loop_move :
      (rounds : ℕ) (node node' : Text) (stack stack' : List Text) (seq : ℕ) (h : Hop)
      → round net dst node stack seq ≡ move h node' stack'
      → text_eq node' unknown ≡ false
      → trace_loop net dst (suc rounds) node stack seq ≡ (
        h ∷ (trace_loop net dst rounds node' stack' (seq + 1)).0,
        (trace_loop net dst rounds node' stack' (seq + 1)).1,
      )
  unfolding trace_loop
  loop_move rounds node node' stack stack' seq h eq known = rw (trace_loop, eq, known) refl

  loop_lost :
      (rounds : ℕ) (node node' : Text) (stack stack' : List Text) (seq : ℕ) (h : Hop)
      → round net dst node stack seq ≡ move h node' stack'
      → text_eq node' unknown ≡ true
      → (trace_loop net dst (suc rounds) node stack seq).1 ≡ false
  unfolding trace_loop
  loop_lost rounds node node' stack stack' seq h eq lost = rw (trace_loop, eq, lost) refl

  loop_stop :
      (rounds : ℕ) (node : Text) (stack : List Text) (seq : ℕ) (h : Hop) (b : Bool)
      → round net dst node stack seq ≡ stop h b
      → trace_loop net dst (suc rounds) node stack seq ≡ (h ∷ [], b)
  unfolding trace_loop
  loop_stop rounds node stack seq h b eq = rw (trace_loop, eq) refl

  round-arrived :
      (node : Text) (stack : List Text) (seq : ℕ)
      → arrived net dst node stack ≡ true
      → (h : Hop) × (round net dst node stack seq ≡ stop h true) × (h.seq ≡ seq)
  unfolding round
  round-arrived node stack seq eq = rw eq (_, refl, refl)

  known_eq : {n : Text} → n ≢ b'?' ∷ [] → text_eq n unknown ≡ false
  known_eq {n = n} ne = elim (Bool-cases (text_eq n unknown)) [
    | inl same ↦ absurd (ne ((text_eq_iff n unknown).0 same))
    | inr other ↦ other
  ]

  known_ne : {n : Text} → text_eq n unknown ≡ false → n ≢ b'?' ∷ []
  known_ne {n = n} other e = ground (arith, (text_eq_iff n unknown).1 e)

  loop_complete :
      (rounds k : ℕ) (node : Text) (stack : List Text) (seq : ℕ)
      → k < rounds
      → Reaches net dst k node stack
      → (trace_loop net dst rounds node stack seq).1 ≡ true
  loop_complete zero k node stack seq h r = absurd (omega arith)
  loop_complete (suc rounds) zero node stack seq h (owner _ _ own bare) =
      let eq = Owns-arrived net dst node stack own bare in
      let (hp, e, _) = round-arrived node stack seq eq in
      ap (λ p. p.1) (loop_stop rounds node stack seq hp true e)
  loop_complete (suc rounds) (suc k) node stack seq h (hop _ _ node' _ stack' f known more) =
      elim (Bool-cases (arrived net dst node stack)) [
        | inl eq ↦
            let (hp, e, _) = round-arrived node stack seq eq in
            ap (λ p. p.1) (loop_stop rounds node stack seq hp true e)
        | inr far ↦
            let (hp, e, _) = Forward-round seq far f in
            ap (λ p. p.1) (loop_move rounds node node' stack stack' seq hp e (known_eq known))
            ∙ loop_complete rounds k node' stack' (seq + 1) (omega arith) more
      ]

  loop_sound :
      (rounds : ℕ) (node : Text) (stack : List Text) (seq : ℕ)
      → (trace_loop net dst rounds node stack seq).1 ≡ true
      → (k : ℕ) × (k < rounds) × Reaches net dst k node stack
  loop_sound zero node stack seq eq = absurd (unfold trace_loop in cc)
  loop_sound (suc rounds) node stack seq eq = elim (Bool-cases (arrived net dst node stack)) [
    | inl here ↦
        let (own, bare) = arrived-Owns net dst node stack here in
        (zero, omega arith, owner node stack own bare)
    | inr far ↦ elim (round-Forward node stack seq far) [
      | inl (h, e, _) ↦ absurd (ground (arith, loop_stop rounds node stack seq h false e))
      | inr (node', stack', (h, e, _), f) ↦ elim (Bool-cases (text_eq node' unknown)) [
        | inl lost ↦ absurd (ground (arith, loop_lost rounds node node' stack stack' seq h e lost))
        | inr known ↦
            let (k, lt, r) =
              loop_sound rounds node' stack' (seq + 1) (
                sym (ap (λ p. p.1) (loop_move rounds node node' stack stack' seq h e known))
                ∙ eq) in
            (suc k, omega arith, hop k node node' stack stack' f (known_ne known) r)
      ]
    ]
  ]

  -- The walk from `start` reports that `dst` is reached exactly when forwarding leads from there, which
  -- begins with no label, in fewer than 24 hops to the node that owns `dst`, with no label left, and no
  -- next hop on the way is unknown or a node named "?". A `dst` that no node has is owned by the node
  -- with the empty name.
  pub trace-Reaches :
      (start : Text)
      → ((trace net start dst).1 ≡ true) ↔ ((k : ℕ) × (k < 24) × Reaches net dst k start [])
  unfolding trace
  trace-Reaches start =
      (loop_sound max_rounds start [] 1, λ (k, lt, r). loop_complete max_rounds k start [] 1 lt r)

  -- Hops numbered n, n + 1, …
  unfoldable pub Numbered : ℕ → List Hop → Type 0
  Numbered n [] = Unit
  Numbered n (h ∷ hs) = (h.seq ≡ n) × Numbered (n + 1) hs

  loop-Numbered :
      (rounds : ℕ) (node : Text) (stack : List Text) (seq : ℕ)
      → Numbered seq (trace_loop net dst rounds node stack seq).0
        × (length (trace_loop net dst rounds node stack seq).0 ≤ rounds + 1)
  unfolding Numbered
  loop-Numbered zero node stack seq = unfold trace_loop in (tt, omega arith)
  loop-Numbered (suc rounds) node stack seq = elim (Bool-cases (arrived net dst node stack)) [
    | inl here ↦
        let (h, e, n) = round-arrived node stack seq here in
        rw (loop_stop rounds node stack seq h true e) ((n, tt), omega arith)
    | inr far ↦ elim (round-Forward node stack seq far) [
      | inl (h, e, n) ↦ rw (loop_stop rounds node stack seq h false e) ((n, tt), omega arith)
      | inr (node', stack', (h, e, n), f) ↦ elim (Bool-cases (text_eq node' unknown)) [
        | inl lost ↦ unfold trace_loop in rw (trace_loop, e, lost) ((n, (refl, tt)), omega arith)
        | inr known ↦
            let (more, len) = loop-Numbered rounds node' stack' (seq + 1) in
            rw (loop_move rounds node node' stack stack' seq h e known) ((n, more), omega arith)
      ]
    ]
  ]

  -- The hops of a walk are numbered 1, 2, 3, …, and there are at most 25 of them.
  pub trace-Numbered :
      (start : Text)
      → Numbered 1 (trace net start dst).0 × (length (trace net start dst).0 ≤ max_rounds + 1)
  unfolding trace
  trace-Numbered start = loop-Numbered max_rounds start [] 1
