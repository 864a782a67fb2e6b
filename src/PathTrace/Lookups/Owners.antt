-- ===== src/PathTrace/Lookups/Owners.antt =====
-- cmd/pathtrace-exporter/main.go: buildIP2Node, against the addresses that internal/ingest/netlink.go
-- writes in the nodes' caches.
use frr_visible.Base.{
  ◌≡◌, refl, sym, ap, ◌∙◌, ◌⊎◌, ◌↔◌, List, [], ◌∷◌, Bool, true, false, not, ◌&&◌, ◌||◌, Option,
  none, some, if◌then◌else◌, map, All, Bool-cases, if_true, if_false, subst, inl, inr,
}
use frr_visible.Base.Text.{Text, lit, is_empty, has_prefix, text_eq, text_eq_iff, text_eq_instance}
use frr_visible.Base.Map.{Map, lookup, insert, lookup-insert}
use frr_visible.Net.{ip_string}
use frr_visible.Gnmi.{Update, GnmiPath, leaf_update, with_leaf}
use frr_visible.Netlink.Routes.{IpNet}
use frr_visible.Netlink.Paths.{addr_elems}
use frr_visible.Netlink.Labels.{addr_updates}
use frr_visible.PathTrace.Lookups.{addr_path, dissect, key_or_empty, node_addresses, build_ip2node}

-- An address with the name of its interface, and the leaf of snapshotAddrs that addrPath asks for.
abbrev pub Address : Type 0
Address = Text × IpNet

unfoldable pub ip_leaf : Address → Update
unfolding addr_elems
ip_leaf (name, a) = leaf_update (addr_elems name (ip_string a.ip) (lit "ip")) (ip_string a.ip)

addr_updates-ip_leaf : (x : Address) → (y : Update) × (addr_updates x.0 x.1 ≡ ip_leaf x ∷ y ∷ [])
unfolding addr_updates ip_leaf
addr_updates-ip_leaf x = (_, refl)

ip_leaf-key :
    (x : Address) → key_or_empty (lookup (lit "ip") (dissect (ip_leaf x).path).0) ≡ ip_string x.1.ip
unfolding ip_leaf addr_elems with_leaf dissect lit lookup insert text_eq leaf_update
ip_leaf-key x = refl

-- Loopback and management addresses.
abbrev excluded : Text → Bool
excluded ip = is_empty ip || (has_prefix ip (lit "127.") || has_prefix ip (lit "172.31."))

-- Whether a node with these addresses is known by the address `q`.
unfoldable pub known_by : Text → List Address → Bool
known_by q [] = false
known_by q (x ∷ xs) = (text_eq (ip_string x.1.ip) q && not (excluded q)) || known_by q xs

none_ne_some : (n : Text) → ◌≡◌ {A = Option Text} none (some n) → ⊥
none_ne_some n e = cc

added_same :
    (ip node : Text) (m : Map Text Text) (x : Bool)
    → lookup ip (if x then m else insert ip node m) ≡ (if not x then some node else lookup ip m)
added_same ip node m true = refl
added_same ip node m false =
    lookup-insert ip ip node m ∙ if_true (text_eq ip ip) _ _ ((text_eq_iff ip ip).1 refl)

added_other :
    (ip q node : Text) (m : Map Text Text) (x : Bool)
    → text_eq ip q ≡ false
    → lookup q (if x then m else insert ip node m) ≡ lookup q m
added_other ip q node m true h = refl
added_other ip q node m false h = lookup-insert ip q node m ∙ if_false (text_eq ip q) _ _ h

added :
    (ip q node : Text) (m : Map Text Text)
    → lookup q (if excluded ip then m else insert ip node m)
      ≡ (if text_eq ip q && not (excluded q) then some node else lookup q m)
added ip q node m = elim (Bool-cases (text_eq ip q)) [
  | inl same ↦ rw same (
      subst
        (λ r.
          lookup r (if excluded ip then m else insert ip node m)
          ≡ (if not (excluded r) then some node else lookup r m))
        ((text_eq_iff ip q).0 same) (added_same ip node m (excluded ip)))
  | inr other ↦ rw other (added_other ip q node m (excluded ip) other)
]

either_writes :
    (a b : Bool) (x o : Option Text)
    → (if b then x else (if a then x else o)) ≡ (if a || b then x else o)
either_writes true true x o = refl
either_writes true false x o = refl
either_writes false true x o = refl
either_writes false false x o = refl

node_addresses-ip_leaf :
    (node q : Text) (xs : List Address) (m : Map Text Text)
    → lookup q (node_addresses node (map ip_leaf xs) m)
      ≡ (if known_by q xs then some node else lookup q m)
unfolding node_addresses known_by
node_addresses-ip_leaf node q [] m = refl
node_addresses-ip_leaf node q (x ∷ xs) m =
    let ip = ip_string x.1.ip in
    ap
      (λ k.
        lookup q (node_addresses node (map ip_leaf xs) (if excluded k then m else insert k node m)))
      (ip_leaf-key x)
    ∙ node_addresses-ip_leaf node q xs (if excluded ip then m else insert ip node m)
    ∙ ap (λ o. if known_by q xs then some node else o) (added ip q node m)
    ∙ either_writes (text_eq ip q && not (excluded q)) (known_by q xs) (some node) (lookup q m)

module _ (addrs : Text → List Address) where
  -- The node `n` is in the inventory and known by `q`.
  abbrev pub IsOwner : Text → Text → Map Text Text → Type 0
  IsOwner q n [] = ⊥
  IsOwner q n ((node, addr) ∷ inv) = (n ≡ node) × (known_by q (addrs node) ≡ true) ⊎ IsOwner q n inv

  owner : Text → Map Text Text → Option Text → Option Text
  owner q [] o = o
  owner q ((node, addr) ∷ inv) o = owner q inv (if known_by q (addrs node) then some node else o)

  known_by-IsOwner :
      (q n node : Text) (inv : Map Text Text) (o : Option Text)
      → (if known_by q (addrs node) then some node else o) ≡ some n
      → ((n ≡ node) × (known_by q (addrs node) ≡ true) ⊎ IsOwner q n inv) ⊎ (o ≡ some n)
  known_by-IsOwner q n node inv o here = elim (Bool-cases (known_by q (addrs node))) [
    | inl known ↦
        let same : some node ≡ some n =
          sym (if_true (known_by q (addrs node)) (some node) o known) ∙ here in
        inl (inl (cc, known))
    | inr not_known ↦ inr (sym (if_false (known_by q (addrs node)) (some node) o not_known) ∙ here)
  ]

  owner_sound :
      (q n : Text) (inv : Map Text Text) (o : Option Text)
      → owner q inv o ≡ some n
      → IsOwner q n inv ⊎ (o ≡ some n)
  unfolding owner
  owner_sound q n [] o h = inr h
  owner_sound q n ((node, addr) ∷ inv) o h =
      elim (owner_sound q n inv (if known_by q (addrs node) then some node else o) h) [
        | inl later ↦ inl (inr later)
        | inr here ↦ known_by-IsOwner q n node inv o here
      ]

  owner_stays :
      (q n : Text) (inv : Map Text Text)
      → ((n' : Text) → IsOwner q n' inv → n' ≡ n)
      → owner q inv (some n) ≡ some n
  unfolding owner
  owner_stays q n [] only = refl
  owner_stays q n ((node, addr) ∷ inv) only = elim (Bool-cases (known_by q (addrs node))) [
    | inl known ↦
        rw (known, only node (inl (refl, known))) (owner_stays q n inv (λ n' h. only n' (inr h)))
    | inr not_known ↦ rw not_known (owner_stays q n inv (λ n' h. only n' (inr h)))
  ]

  owner_complete :
      (q n : Text) (inv : Map Text Text) (o : Option Text)
      → ((n' : Text) → IsOwner q n' inv → n' ≡ n)
      → IsOwner q n inv
      → owner q inv o ≡ some n
  unfolding owner
  owner_complete q n [] o only h = elim h [ ]
  owner_complete q n ((node, addr) ∷ inv) o only (inl (e, known)) =
      rw (known, sym e) (owner_stays q n inv (λ n' h. only n' (inr h)))
  owner_complete q n ((node, addr) ∷ inv) o only (inr later) =
      owner_complete q n inv _ (λ n' h. only n' (inr h)) later

  module _ (get : Text → GnmiPath → List Update) where
    -- Each node of the inventory answers with the leaves of its addresses.
    abbrev pub Answers : Map Text Text → Type 0
    Answers = All (λ r. get r.0 addr_path ≡ map ip_leaf (addrs r.0))

    build_ip2node-owner :
        (q : Text) (inv m : Map Text Text)
        → Answers inv
        → lookup q (build_ip2node get inv m) ≡ owner q inv (lookup q m)
    unfolding build_ip2node owner
    build_ip2node-owner q [] m h = refl
    build_ip2node-owner q ((node, addr) ∷ inv) m h =
        build_ip2node-owner q inv (node_addresses node (get node addr_path) m) h.1
        ∙ ap (owner q inv) (
            ap (λ us. lookup q (node_addresses node us m)) h.0
            ∙ node_addresses-ip_leaf node q (addrs node) m)

    -- When each node of the inventory answers with the leaves that the netlink ingester writes for its
    -- addresses, and no two nodes are known by the address `q`, the map has `q` at a node exactly when
    -- that node is in the inventory and has `q`, which is no loopback or management address.
    pub ip2node_exact :
        (inv : Map Text Text) (q n : Text)
        → Answers inv
        → ((n' n'' : Text) → IsOwner q n' inv → IsOwner q n'' inv → n' ≡ n'')
        → (lookup q (build_ip2node get inv []) ≡ some n) ↔ IsOwner q n inv
    unfolding lookup
    ip2node_exact inv q n h only =
        let e = build_ip2node-owner q inv [] h in
        (
          (λ found. elim (owner_sound q n inv (lookup q []) (sym e ∙ found)) [
            | inl o ↦ o
            | inr absent ↦ absurd (none_ne_some n absent)
          ]),
          (λ o. e ∙ owner_complete q n inv (lookup q []) (λ n' o'. only n' n o' o) o),
        )
