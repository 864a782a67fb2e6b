-- ===== src/Daemon.antt =====
-- cmd/frr-visible/main.go: the wiring. The handlers' calls reach the shared cache, correlator and
-- tracker; what the tracker reports goes to the correlator; and a connection of zebra or bgpd kicks the
-- OSPF ingester. `clock` gives the times at which a round of reports calls Emit.
pub mod Gap
pub mod Push
use frr_visible.Base.{ℕ, zero, suc, List, [], ◌∷◌, ◌++◌, Bool, true, Option, none, some}
use frr_visible.Base.Text.{Text, lit}
use frr_visible.Gnmi.{Effect, updates, emits, observes, Wiring}
use frr_visible.State
use frr_visible.State.{Cache, Notification}
use frr_visible.Correlate
use frr_visible.Correlate.{Correlator}
use frr_visible.Lineage
use frr_visible.Lineage.{Tracker, Anomaly}
use frr_visible.Ospf.Triggers.{System, Output, kick}
use frr_visible.Ospf.Triggers

-- The objects that main makes and shares.
pub record Node (C : Type 0) : Type 0 where
  pub cache : Cache C
  pub cor : Option Correlator
  pub lin : Tracker
  pub ospf : System

-- main sets a correlator and a tracker on every ingester that takes them.
abbrev pub wired : Wiring
wired = record { cor = true; lin = true }

-- The hook that main gives to lineage.New.
unfoldable pub report : ℕ → Anomaly → Option Correlator → Option Correlator
report now a cor = Correlate.emit now (lit "lineage") a.kind a.prefix a.detail true cor

unfoldable pub report_all : (ℕ → ℕ) → List Anomaly → Option Correlator → Option Correlator
unfolding report
report_all clock [] cor = cor
report_all clock (a ∷ out) cor = report_all (λ i. clock (suc i)) out (report (clock 0) a cor)

module _ {C : Type 0} where
  unfoldable pub start : C → Text → ℕ → Option Output → Output → Node C
  start c target now out world = record {
    cache = State.new c target;
    cor = some (Correlate.new target now);
    lin = Lineage.new 3000000000;
    ospf = Triggers.start wired out world;
  }

  -- The calls of one handler, made at the time `now`; the errors of the cache are ignored.
  unfoldable pub perform : (Notification → C → C × Option Text) → ℕ → List Effect → Node C → Node C
  perform gnmi_update now [] n = n
  perform gnmi_update now (updates origin ups dels ∷ es) n =
      perform gnmi_update now es
        (record n { cache = (State.update gnmi_update now origin ups dels n.cache).0 })
  perform gnmi_update now (emits bus kind key detail root ∷ es) n =
      perform gnmi_update now es
        (record n { cor = Correlate.emit now bus kind key detail root n.cor })
  perform gnmi_update now (observes prefix stage present detail ∷ es) n =
      perform gnmi_update now es
        (record n { lin = Lineage.observe now prefix stage present detail n.lin })

  -- One tick of the tracker's Run.
  unfoldable pub lineage_round : (ℕ → Text) → ℕ → (ℕ → ℕ) → Node C → Node C
  unfolding report_all
  lineage_round duration_string now clock n =
      let (t, out) = Lineage.reconcile duration_string now n.lin in
      record n { lin = t; cor = report_all clock out n.cor }

  -- zebra or bgpd connects: the hook that main sets with SetReconnectHook.
  unfoldable pub on_fpm_connect : Node C → Node C
  on_fpm_connect n = record n { ospf = kick (lit "fpm-reconnect") n.ospf }

  unfoldable pub on_bmp_connect : Node C → Node C
  on_bmp_connect n = record n { ospf = kick (lit "bmp-reconnect") n.ospf }
