-- ===== src/Lineage/Live.antt =====
-- internal/lineage/lineage.go: the well-formed maps of the tracker, and the operations on them.
use frr_visible.Base.{
  ℕ, ◌<◌, ◌≡◌, refl, List, [], ◌∷◌, Bool, true, false, ◌||◌, Option, none, some, if◌then◌else◌,
  arith, Bool-cases, inl, inr, ◌==◌, ◌&&◌, ◌∙◌, sym, leb,
}
use frr_visible.Base.Text.{Text, is_empty, text_eq_iff, text_eq_instance}
use frr_visible.Base.Map.{
  Map, lookup, IsDistinct, insert-IsDistinct, delete-IsDistinct, lookup-insert,
}
use frr_visible.Lineage.{
  Entry, Tracker, Hop, present, observe, witness, settle, entry_or_new, new, is_gap, reconcile_loop,
  reconcile,
}
use frr_visible.Lineage.History.{lookup-settle, held, holds}

-- An entry that the map has under `p`: it knows its prefix, and some plane holds it.
abbrev pub IsLiveEntry : Text → Entry → Type 0
IsLiveEntry p e =
    (e.prefix ≡ p) × (is_empty p ≡ false) × ((present e 0 || (present e 1 || present e 2)) ≡ true)

pub record IsLive (t : Tracker) : Type 0 where
  pub distinct : IsDistinct t.routes
  pub live : (p : Text) (e : Entry) → lookup p t.routes ≡ some e → IsLiveEntry p e

pub IsLive-new : (grace : ℕ) → IsLive (new grace)
unfolding new lookup
IsLive-new grace = record { distinct = tt; live = λ p e h. cc }

settle-IsDistinct :
    (p : Text) (e : Entry) (b : Bool) (m : Map Text Entry)
    → IsDistinct m
    → IsDistinct (settle p e b m)
unfolding settle
settle-IsDistinct p e b m h =
    ground
      (arith, insert-IsDistinct p e m h, delete-IsDistinct p (frr_visible.Base.Map.insert p e m))

prefix-witness : (e : Entry) (s : ℕ) (h : Hop) → (witness e s h).prefix ≡ e.prefix
unfolding witness
prefix-witness e s h = ground arith

prefix-entry_or_new :
    (p : Text) (t : Tracker) → IsLive t → (entry_or_new p (lookup p t.routes)).prefix ≡ p
prefix-entry_or_new p t h = go (lookup p t.routes) refl
  where
    go : (o : Option Entry) → lookup p t.routes ≡ o → (entry_or_new p o).prefix ≡ p
    go none e = refl
    go (some x) e = (h.live p x e).0

present-witness_self :
    (e : Entry) (s : ℕ) (h : Hop)
    → s < 3
    → h.present ≡ true
    → let w = witness e s h in (present w 0 || (present w 1 || present w 2)) ≡ true
unfolding witness
present-witness_self e s h hs hp = ground arith

settle-live :
    (p : Text) (e : Entry) (b : Bool) (m : Map Text Entry)
    → e.prefix ≡ p
    → is_empty p ≡ false
    → (b ≡ true → (present e 0 || (present e 1 || present e 2)) ≡ true)
    → ((q : Text) (x : Entry) → lookup q m ≡ some x → IsLiveEntry q x)
    → (q : Text) (x : Entry) → lookup q (settle p e b m) ≡ some x
    → IsLiveEntry q x
settle-live p e b m hp hne hb old q x h =
    ground (arith, lookup-settle p e b m q, text_eq_iff p q, old q x)

-- Observe keeps the map well formed on every input, also where it returns early.
pub observe-IsLive :
    (now : ℕ) (p : Text) (s : ℕ) (b : Bool) (d : Text) (t : Tracker)
    → IsLive t
    → IsLive (observe now p s b d t)
unfolding observe
observe-IsLive now p s b d t h = elim (Bool-cases (is_empty p || leb 3 s)) [
  | inl early ↦ rw early h
  | inr late ↦
      let hop : Hop = record { present = b; ts = now; detail = d } in
      let e : Entry = witness (entry_or_new p (lookup p t.routes)) s hop in
      rw late (record {
        distinct = settle-IsDistinct p e b t.routes h.distinct;
        live =
            settle-live p e b t.routes (prefix-witness _ s hop ∙ prefix-entry_or_new p t h)
              (ground arith) (λ hb. present-witness_self _ s hop (ground arith) hb) h.live;
      })
]

-- What reconcile does to one entry.
abbrev pub mark : ℕ → ℕ → Option Entry → Option Entry
mark grace now none = none
mark grace now (some e) = if is_gap grace now e then some (record e { flagged = true }) else some e

module _ (ds : ℕ → Text) where
  pub lookup-reconcile_loop :
      (grace now : ℕ) (m : Map Text Entry) (q : Text)
      → lookup q (reconcile_loop ds grace now m).0 ≡ mark grace now (lookup q m)
  unfolding reconcile_loop lookup
  lookup-reconcile_loop grace now [] q = refl
  lookup-reconcile_loop grace now ((p, e) ∷ m) q =
      ground (arith, lookup-reconcile_loop grace now m q)

  reconcile_loop-IsDistinct :
      (grace now : ℕ) (m : Map Text Entry)
      → IsDistinct m
      → IsDistinct (reconcile_loop ds grace now m).0
  unfolding reconcile_loop
  reconcile_loop-IsDistinct grace now [] h = tt
  reconcile_loop-IsDistinct grace now ((p, e) ∷ m) h =
      ground (arith, reconcile_loop-IsDistinct grace now m h.1, lookup-reconcile_loop grace now m p)

  reconcile-live :
      (grace now : ℕ) (q : Text) (x : Entry) (o : Option Entry)
      → ((y : Entry) → o ≡ some y → IsLiveEntry q y)
      → mark grace now o ≡ some x
      → IsLiveEntry q x
  reconcile-live grace now q x none h e = cc
  reconcile-live grace now q x (some y) h e = ground (arith, h y refl)

  -- Reconcile keeps the map well formed.
  pub reconcile-IsLive : (now : ℕ) (t : Tracker) → IsLive t → IsLive (reconcile ds now t).0
  unfolding reconcile
  reconcile-IsLive now t h = record {
    distinct = reconcile_loop-IsDistinct t.grace now t.routes h.distinct;
    live = λ q x e.
        reconcile-live t.grace now q x (lookup q t.routes) (λ y. h.live q y)
          (sym (lookup-reconcile_loop t.grace now t.routes q) ∙ e);
  }

  held-mark : (grace now : ℕ) (o : Option Entry) (r : ℕ) → held (mark grace now o) r ≡ held o r
  held-mark grace now none r = refl
  held-mark grace now (some e) r = ground arith

  -- Reconcile changes no plane's testimony.
  pub holds-reconcile :
      (now : ℕ) (t : Tracker) (q : Text) (r : ℕ) → holds (reconcile ds now t).0 q r ≡ holds t q r
  unfolding reconcile holds
  holds-reconcile now t q r = rw lookup-reconcile_loop (held-mark t.grace now (lookup q t.routes) r)
