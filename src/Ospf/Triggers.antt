-- ===== src/Ospf/Triggers.antt =====
-- internal/ingest/ospf.go: who asks for a reconcile. The trigger is a channel of one place; the syslog
-- reader, Kick and the ticker fill it, and one worker empties it. `world` is what vtysh would print at
-- this moment. The worker's read of it and the reconcile with what was read are two steps, so the
-- neighbors may change between them; a read that fails reads `none`.
pub mod Settled
use frr_visible.Base.{ℕ, suc, List, Bool, true, false, Option, none, some, if◌then◌else◌, arith}
use frr_visible.Base.Map.{Map}
use frr_visible.Base.Text.{Text, lit, after_index}
use frr_visible.Gnmi.{Wiring}
use frr_visible.Ospf.{Ospf, Session, lower, reconcile}
use frr_visible.Ospf.Snapshot.{IsTracked}
use frr_visible.Ospf.Runs.{nothing_tracked, step-IsTracked, IsTracked-nothing}

-- What the command prints, after json.Unmarshal.
abbrev pub Output : Type 0
Output = Option (Map Text (List Session))

-- Where reconcileWorker is: at the channel, in its sleep, or with what it has read.
pub data Pc : Type 0 where
  waiting : Pc
  settling : Pc
  holding : Option Output → Pc

pub record System : Type 0 where
  pub world : Output
  pub pending : Bool
  pub pc : Pc
  pub ospf : Ospf

-- Run's snapshot before it starts the others.
unfoldable pub start : Wiring → Option Output → Output → System
start w out world = record {
  world = world;
  pending = false;
  pc = waiting;
  ospf = (reconcile w out nothing_tracked).0;
}

-- signal: a full channel takes no second trigger.
unfoldable pub signal : System → System
signal s = record s { pending = true }

-- Kick, which the FPM and the BMP ingester call when FRR connects again.
unfoldable pub kick : Text → System → System
unfolding signal
kick reason s = signal s

-- One datagram of /dev/log.
unfoldable pub on_syslog : Text → System → System
unfolding signal
on_syslog message s = elim (after_index (lit "ospf") (lower message)) [
  | none ↦ s
  | some _ ↦ signal s
]

-- The worker takes a trigger, if there is one.
unfoldable pub wake : System → System
wake s = if s.pending then record s { pending = false; pc = settling } else s

-- reconcileWorker's next step. `fails` says whether a command that runs now fails.
abbrev worker_at : Wiring → Bool → Pc → System → System
worker_at w fails waiting s = wake s
worker_at w fails settling s = record s { pc = holding (if fails then none else some s.world) }
worker_at w fails (holding out) s = record s { pc = waiting; ospf = (reconcile w out s.ospf).0 }

unfoldable pub work : Wiring → Bool → System → System
unfolding wake
work w fails s = worker_at w fails s.pc s

module _ (w : Wiring) where
  pub data Step : System → System → Type 0 where
    changes : (world : Output) (s : System) → Step s (record s { world = world })
    signals : (s : System) → Step s (signal s)
    works : (fails : Bool) (s : System) → Step s (work w fails s)

  pub data Reach (s : System) : System → Type 0 where
    here : Reach s s
    next : {t u : System} → Reach s t → Step t u → Reach s u

  -- A run in which the neighbors stay as they are and no command fails, with the number of the steps
  -- that the worker makes in it. Others may ask again at any point of it.
  pub data Calm (s : System) : ℕ → System → Type 0 where
    here : Calm s 0 s
    signals : {n : ℕ} {t : System} → Calm s n t → Calm s n (signal t)
    works : {n : ℕ} {t : System} → Calm s n t → Calm s (suc n) (work w false t)

  work_at-IsTracked :
      (fails : Bool) (pc : Pc) (s : System)
      → IsTracked s.ospf
      → IsTracked (worker_at w fails pc s).ospf
  unfolding wake
  work_at-IsTracked fails waiting s h = ground arith
  work_at-IsTracked fails settling s h = h
  work_at-IsTracked fails (holding out) s h = step-IsTracked w out s.ospf h

  Step-IsTracked : {s t : System} → Step s t → IsTracked s.ospf → IsTracked t.ospf
  unfolding signal work
  Step-IsTracked (changes world s) h = h
  Step-IsTracked (signals s) h = h
  Step-IsTracked (works fails s) h = work_at-IsTracked fails s.pc s h

  pub Reach-IsTracked :
      (out : Option Output) (world : Output) {s : System}
      → Reach (start w out world) s
      → IsTracked s.ospf
  Reach-IsTracked out world here =
      unfold start in step-IsTracked w out nothing_tracked IsTracked-nothing
  Reach-IsTracked out world (next r st) = Step-IsTracked st (Reach-IsTracked out world r)
