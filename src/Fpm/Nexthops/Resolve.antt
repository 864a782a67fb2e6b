-- ===== src/Fpm/Nexthops/Resolve.antt =====
-- resolveNH against a relation: which object an id leads to, through the first members of groups.
use frr_visible.Base.{
  ℕ, zero, suc, ◌<◌, ◌≡◌, refl, ◌∙◌, List, [], ◌∷◌, Bool, true, false, not, ◌||◌, none, some,
  if◌then◌else◌, ◌==◌, nat_eq, arith, ◌⊎◌, inl, inr, Option-cases, Bool-cases,
}
use frr_visible.Base.Map.{Map, lookup}
use frr_visible.Base.Text.{is_empty}
use frr_visible.Fpm.Nexthops.{Nexthop, Resolved, unresolved, resolve_nh}

-- The object answers by itself: a blackhole, a gateway or an interface.
abbrev answers : Nexthop → Bool
answers n = n.blackhole || (not (is_empty n.gw) || not (n.oif == 0))

-- `Leads nh k id n`: after `k` groups, each followed to its first member, `id` is the object `n`.
pub data Leads (nh : Map ℕ Nexthop) : ℕ → ℕ → Nexthop → Type 0 where
  object : (id : ℕ) (n : Nexthop) → lookup id nh ≡ some n → Leads nh zero id n
  member :
      (k id m : ℕ) (ms : List ℕ) (g n : Nexthop)
      → lookup id nh ≡ some g
      → answers g ≡ false
      → g.group ≡ m ∷ ms
      → Leads nh k m n
      → Leads nh (suc k) id n

-- What an object that answers resolves to.
abbrev pub answer : Nexthop → Resolved
answer n =
    if n.blackhole
    then record { gw = []; oif = 0; blackhole = true; labels = [] }
    else record { gw = n.gw; oif = n.oif; blackhole = false; labels = n.labels }

module _ (nh : Map ℕ Nexthop) where
  resolve_object :
      (left id : ℕ) (n : Nexthop)
      → lookup id nh ≡ some n
      → answers n ≡ true
      → resolve_nh (suc left) nh id ≡ answer n
  unfolding resolve_nh
  resolve_object left id n e h = ground arith

  resolve_member :
      (left id m : ℕ) (ms : List ℕ) (g : Nexthop)
      → lookup id nh ≡ some g
      → answers g ≡ false
      → g.group ≡ m ∷ ms
      → resolve_nh (suc left) nh id ≡ resolve_nh left nh m
  unfolding resolve_nh
  resolve_member left id m ms g e h eg = ground arith

  -- An id that leads to an object that answers, through fewer groups than there are rounds left,
  -- resolves to that object's answer.
  pub resolve_complete :
      (left k id : ℕ) (n : Nexthop)
      → Leads nh k id n
      → k < left
      → answers n ≡ true
      → resolve_nh left nh id ≡ answer n
  resolve_complete zero k id n l hk h = absurd (omega arith)
  resolve_complete (suc left) zero id n (object i x e) hk h = resolve_object left i x e h
  resolve_complete (suc left) (suc k) id n (member j i m ms g x e hg eg l) hk h =
      resolve_member left i m ms g e hg eg ∙ resolve_complete left j m x l (omega arith) h

  -- Where a lookup can end: nowhere, or at an object that answers.
  abbrev pub Ends : ℕ → ℕ → Resolved → Type 0
  Ends left id r =
      (r ≡ unresolved)
      ⊎ ((k : ℕ) × (n : Nexthop) × (k < left)
          × Leads nh k id n
          × (answers n ≡ true)
          × (r ≡ answer n))

  resolve_none : (left id : ℕ) → lookup id nh ≡ none → resolve_nh (suc left) nh id ≡ unresolved
  unfolding resolve_nh
  resolve_none left id e = ground arith

  resolve_empty :
      (left id : ℕ) (g : Nexthop)
      → lookup id nh ≡ some g
      → answers g ≡ false
      → g.group ≡ []
      → resolve_nh (suc left) nh id ≡ unresolved
  unfolding resolve_nh
  resolve_empty left id g e h eg = ground arith

  List-cases : (l : List ℕ) → (l ≡ []) ⊎ ((m : ℕ) × (ms : List ℕ) × (l ≡ m ∷ ms))
  List-cases [] = inl refl
  List-cases (m ∷ ms) = inr (m, ms, refl)

  Ends-member :
      (left id m : ℕ) (ms : List ℕ) (g : Nexthop)
      → lookup id nh ≡ some g
      → answers g ≡ false
      → g.group ≡ m ∷ ms
      → Ends left m (resolve_nh left nh m)
      → Ends (suc left) id (resolve_nh (suc left) nh id)
  Ends-member left id m ms g e h eg (inl r) = inl (resolve_member left id m ms g e h eg ∙ r)
  Ends-member left id m ms g e h eg (inr r) = inr (
    suc r.0,
    r.1,
    omega (arith, r.2),
    member r.0 id m ms g r.1 e h eg r.3,
    r.4,
    resolve_member left id m ms g e h eg ∙ r.5,
  )

  -- A lookup that runs for `left` rounds ends unresolved, or with the answer of an object that the id
  -- leads to through fewer than `left` groups; so also on a group that is a member of itself.
  pub resolve_sound : (left id : ℕ) → Ends left id (resolve_nh left nh id)
  resolve_sound zero id = inl (unfold resolve_nh in refl)
  resolve_sound (suc left) id = elim (Option-cases (lookup id nh)) [
    | inl e ↦ inl (resolve_none left id e)
    | inr (g, e) ↦ elim (Bool-cases (answers g)) [
      | inl h ↦ inr (0, g, omega arith, object id g e, h, resolve_object left id g e h)
      | inr h ↦ elim (List-cases g.group) [
        | inl eg ↦ inl (resolve_empty left id g e h eg)
        | inr (m, ms, eg) ↦ Ends-member left id m ms g e h eg (resolve_sound left m)
      ]
    ]
  ]
