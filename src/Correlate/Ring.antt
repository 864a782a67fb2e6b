-- ===== src/Correlate/Ring.antt =====
-- internal/correlate/correlate.go: the ring of finished traces, its length and its numbers.
use frr_visible.Base.{
  ap, subst, min, inl, inr, Bool-cases, ltb→lt, le_of_not_ltb, ◌&&◌, ℕ, zero, suc, ◌+◌, ◌-◌, ◌≤◌,
  ◌≡◌, refl, List, [], ◌∷◌, ◌++◌, false, Option, none, some, if◌then◌else◌, ltb, length, drop,
  arith, length-append, length-drop,
}
use frr_visible.Base.Text.{is_empty}
use frr_visible.Correlate.{
  Trace, Active, Correlator, Event, new, keep_last, trace_of, flush, expire, attach, consume,
}

-- The numbers of the traces are n + 1, n + 2, … up to `last`.
abbrev pub IsNumbered : ℕ → List Trace → ℕ → Type 0
IsNumbered n [] last = n ≡ last
IsNumbered n (t ∷ ts) last = (t.id ≡ suc n) × IsNumbered (suc n) ts last

IsNumbered-append :
    (n last : ℕ) (ts : List Trace) (t : Trace)
    → IsNumbered n ts last
    → t.id ≡ suc last
    → IsNumbered n (ts ++ t ∷ []) (suc last)
IsNumbered-append n last [] t h e = (rw h e, ap suc h)
IsNumbered-append n last (u ∷ ts) t h e = (h.0, IsNumbered-append (suc n) last ts t h.1 e)

IsNumbered-drop :
    (k n last : ℕ) (ts : List Trace)
    → k ≤ length ts
    → IsNumbered n ts last
    → IsNumbered (n + k) (drop k ts) last
IsNumbered-drop zero n last ts hk h = subst (λ m. IsNumbered m ts last) (omega arith) h
IsNumbered-drop (suc k) n last [] hk h = absurd (omega arith)
IsNumbered-drop (suc k) n last (t ∷ ts) hk h =
    subst (λ m. IsNumbered m (drop k ts) last) (omega arith)
      (IsNumbered-drop k (suc n) last ts (omega arith) h.1)

-- `ring` holds the last min(seq, max) of the traces numbered 1 to `seq`, in their order.
abbrev pub Recent : ℕ → ℕ → List Trace → Type 0
Recent max seq ring = IsNumbered (seq - length ring) ring seq × (length ring ≡ min seq max)

Recent-drop :
    (max seq k : ℕ) (ring : List Trace)
    → IsNumbered (seq - length ring) ring seq
    → length ring ≤ seq
    → k ≤ length ring
    → length ring - k ≡ min seq max
    → Recent max seq (drop k ring)
Recent-drop max seq k ring h hl hk hm = (
  subst (λ m. IsNumbered m (drop k ring) seq) (omega (arith, length-drop k ring))
      (IsNumbered-drop k (seq - length ring) seq ring hk h),
  omega (arith, length-drop k ring),
)

Recent-keep_last :
    (max seq : ℕ) (ring : List Trace) (t : Trace)
    → Recent max seq ring
    → t.id ≡ seq + 1
    → Recent max (seq + 1) (keep_last max (ring ++ t ∷ []))
unfolding keep_last
Recent-keep_last max seq ring t h e = elim (Bool-cases (ltb max (length (ring ++ t ∷ [])))) [
  | inl over ↦ rw over (
      Recent-drop max (seq + 1) (length (ring ++ t ∷ []) - max) (ring ++ t ∷ []) numbered
        (omega (arith, longer)) (omega arith) (omega (arith, longer, h.1, ltb→lt _ _ over)))
  | inr fits ↦ rw fits (numbered, omega (arith, longer, h.1, le_of_not_ltb _ _ fits))
]
  where
    longer : length (ring ++ t ∷ []) ≡ length ring + 1
    longer = omega (arith, length-append ring (t ∷ []))

    numbered : IsNumbered (seq + 1 - length (ring ++ t ∷ [])) (ring ++ t ∷ []) (seq + 1)
    numbered =
        subst (λ m. IsNumbered m (ring ++ t ∷ []) (seq + 1)) (omega (arith, longer))
          (subst (λ m. IsNumbered (seq - length ring) (ring ++ t ∷ []) m) (omega arith)
            (IsNumbered-append (seq - length ring) seq ring t h.0 (omega arith)))

abbrev pub IsRecent : Correlator → Type 0
IsRecent c = Recent c.max c.seq c.ring

pub IsRecent-new : (node : List ℕ) (now : ℕ) → IsRecent (new node now)
unfolding new
IsRecent-new node now = (refl, omega arith)

flush-IsRecent : (a : Active) (c : Correlator) → IsRecent c → IsRecent (flush a c)
unfolding flush
flush-IsRecent a c h = elim (Bool-cases (is_empty a.events)) [
  | inl none_yet ↦ rw none_yet h
  | inr some_yet ↦ rw some_yet (elim (Bool-cases (a.churn && ltb (length a.events) 3)) [
    | inl lone ↦ rw lone h
    | inr kept ↦ rw kept (
        Recent-keep_last c.max c.seq c.ring (trace_of c.node (c.seq + 1) a) h
          (unfold trace_of in refl))
  ])
]

pub expire-IsRecent :
    (limit now : ℕ) (o : Option Active) (c : Correlator)
    → IsRecent c
    → IsRecent (expire limit now o c)
unfolding expire
expire-IsRecent limit now none c h = h
expire-IsRecent limit now (some a) c h = elim (Bool-cases (ltb limit (now - a.last))) [
  | inl late ↦ rw late (flush-IsRecent a c h)
  | inr soon ↦ rw soon h
]

attach-IsRecent :
    (now : ℕ) (e : Event) (o : Option Active) (c : Correlator)
    → IsRecent c
    → IsRecent (attach now e o c)
unfolding attach
attach-IsRecent now e none c h =
    elim (Bool-cases (if e.root then false else ltb (now - c.started) c.warmup)) [
      | inl warm ↦ rw warm h
      | inr begun ↦ rw begun h
    ]
attach-IsRecent now e (some a) c h = h

pub consume-IsRecent :
    (now : ℕ) (e : Event) (c : Correlator) → IsRecent c → IsRecent (consume now e c)
unfolding consume
consume-IsRecent now e c h = attach-IsRecent now e _ _ (expire-IsRecent c.window e.ts c.active c h)
