-- ===== src/Ospf/Triggers/Settled.antt =====
-- internal/ingest/ospf.go: what a trigger leads to. No trigger is lost: one that comes while the worker
-- is busy stays in the channel.
use frr_visible.Base.{
  ℕ, ◌-◌, ◌≤◌, ◌≡◌, refl, subst, sym, true, false, Option, some, ◌⊎◌, inl, inr, arith, Bool,
  if◌then◌else◌,
}
use frr_visible.Gnmi.{Wiring}
use frr_visible.Ospf.{reconcile, parse_ospf_nbrs}
use frr_visible.Ospf.Snapshot.{IsTracked, Mirrors}
use frr_visible.Ospf.Runs.{step-Mirrors}
use frr_visible.Ospf.Triggers.{
  Output, Pc, waiting, settling, holding, System, start, signal, wake, worker_at, work, Reach, here,
  Calm, signals, works, work_at-IsTracked, Reach-IsTracked,
}

abbrev pub IsCurrent : System → Type 0
IsCurrent s = Mirrors (parse_ospf_nbrs s.world) s.ospf

-- What the worker holds is what vtysh would print now.
abbrev Held : Pc → System → Type 0
Held waiting s = Unit {0}
Held settling s = Unit {0}
Held (holding out) s = out ≡ some s.world

abbrev IsDone : Pc → System → Type 0
IsDone pc s = IsCurrent s × Held pc s

-- The worker has at most `n` steps to make until the ingester is current.
abbrev Coming : ℕ → Pc → System → Type 0
Coming n waiting s = (s.pending ≡ true) × (3 ≤ n)
Coming n settling s = 2 ≤ n
Coming n (holding out) s = ((out ≡ some s.world) × (1 ≤ n)) ⊎ ((s.pending ≡ true) × (4 ≤ n))

abbrev Within : ℕ → Pc → System → Type 0
Within n pc s = IsDone pc s ⊎ Coming n pc s

Within-signal : (n : ℕ) (pc : Pc) (s : System) → Within n pc s → Within n pc (signal s)
unfolding signal
Within-signal n pc s (inl done) = inl (with_pc pc done)
  where
    with_pc : (q : Pc) → IsDone q s → IsDone q (record s { pending = true })
    with_pc waiting d = d
    with_pc settling d = d
    with_pc (holding out) d = d
Within-signal n waiting s (inr c) = inr (refl, c.1)
Within-signal n settling s (inr c) = inr c
Within-signal n (holding out) s (inr (inl c)) = inr (inl c)
Within-signal n (holding out) s (inr (inr c)) = inr (inr (refl, c.1))

-- A trigger is there, so four steps are enough.
Within-four : (pc : Pc) (s : System) → Within 4 pc (signal s)
unfolding signal
Within-four waiting s = inr (refl, omega arith)
Within-four settling s = inr (omega arith)
Within-four (holding out) s = inr (inr (refl, omega arith))

module _ (w : Wiring) where
  reconcile-IsCurrent :
      (out : Option Output) (s : System)
      → IsTracked s.ospf
      → out ≡ some s.world
      → Mirrors (parse_ospf_nbrs s.world) (reconcile w out s.ospf).0
  reconcile-IsCurrent out s h e =
      subst (λ o. Mirrors (parse_ospf_nbrs s.world) (reconcile w o s.ospf).0) (sym e)
        (step-Mirrors w s.world s.ospf h)

  Within-wake :
      (n : ℕ) (s : System)
      → s.pc ≡ waiting
      → Within n waiting s
      → Within (n - 1) (wake s).pc (wake s)
  unfolding wake
  Within-wake n s at c = go s.pending refl
    where
      after : System
      after = record s { pending = false; pc = settling }

      go : (b : Bool) → s.pending ≡ b → let t = if b then after else s in Within (n - 1) t.pc t
      go true e = with_trigger c
        where
          with_trigger : Within n waiting s → Within (n - 1) settling after
          with_trigger (inl d) = inl (d.0, tt)
          with_trigger (inr c) = inr (omega (arith, c.1))
      go false e = subst (λ q. Within (n - 1) q s) (sym at) (without c)
        where
          without : Within n waiting s → Within (n - 1) waiting s
          without (inl d) = inl d
          without (inr c) = absurd (cc (c.0, e))

  Within-work :
      (n : ℕ) (pc : Pc) (s : System)
      → s.pc ≡ pc
      → IsTracked s.ospf
      → Within n pc s
      → let t = worker_at w false pc s in Within (n - 1) t.pc t
  Within-work n waiting s at h c = Within-wake n s at c
  Within-work n settling s at h (inl d) = inl (d.0, refl)
  Within-work n settling s at h (inr c) = inr (inl (refl, omega arith))
  Within-work n (holding out) s at h (inl d) = inl (reconcile-IsCurrent out s h (d.1), tt)
  Within-work n (holding out) s at h (inr (inl c)) = inl (reconcile-IsCurrent out s h (c.0), tt)
  Within-work n (holding out) s at h (inr (inr c)) = inr (c.0, omega (arith, c.1))

  Calm-Within :
      {s t : System} {n : ℕ}
      → Calm w s n t
      → IsTracked s.ospf
      → Within 4 s.pc s
      → IsTracked t.ospf × Within (4 - n) t.pc t
  unfolding signal work
  Calm-Within here h c = (h, c)
  Calm-Within (signals {t = t} r) h c =
      let ih = Calm-Within r h c in (ih.0, Within-signal _ t.pc t (ih.1))
  Calm-Within (works {n = n} {t = t} r) h c =
      let ih = Calm-Within r h c in
      (
        work_at-IsTracked w false t.pc t (ih.0),
        subst (λ k. Within k (worker_at w false t.pc t).pc (worker_at w false t.pc t)) (omega arith)
            (Within-work (4 - n) t.pc t refl (ih.0) (ih.1)),
      )

  done_when :
      (n : ℕ) (pc : Pc) (t : System)
      → Within (4 - n) pc t
      → (4 ≤ n) ⊎ ((pc ≡ waiting) × (t.pending ≡ false))
      → IsCurrent t
  done_when n pc t (inl d) e = d.0
  done_when n waiting t (inr c) (inl e) = absurd (omega (arith, c.1))
  done_when n waiting t (inr c) (inr e) = absurd (cc (c.0, e.1))
  done_when n settling t (inr c) (inl e) = absurd (omega (arith, c))
  done_when n settling t (inr c) (inr e) = absurd (cc (e.0))
  done_when n (holding out) t (inr (inl c)) (inl e) = absurd (omega (arith, c.1))
  done_when n (holding out) t (inr (inr c)) (inl e) = absurd (omega (arith, c.1))
  done_when n (holding out) t (inr c) (inr e) = absurd (cc (e.0))

  -- In whatever state of the worker a trigger comes, after any changes of the neighbors, failed reads
  -- and lost or repeated triggers before it: once the worker has made four more steps, or waits at an
  -- empty channel, the ingester says of every router id what vtysh would say, if the neighbors have
  -- stayed as they were since the trigger and no command has failed.
  pub signal-IsCurrent :
      (out : Option Output) (world : Output) {s t : System} {n : ℕ}
      → Reach w (start w out world) s
      → Calm w (signal s) n t
      → (4 ≤ n) ⊎ ((t.pc ≡ waiting) × (t.pending ≡ false))
      → IsCurrent t
  unfolding signal
  signal-IsCurrent out world {s} {t} {n} r calm e =
      done_when n t.pc t (Calm-Within calm (Reach-IsTracked w out world r) (Within-four s.pc s)).1 e
