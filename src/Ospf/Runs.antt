-- ===== src/Ospf/Runs.antt =====
-- The OSPF ingester over time: any sequence of snapshots, failed reads among them.
use frr_visible.Base.{refl, List, [], ◌∷◌, ◌++◌, Option, none, some}
use frr_visible.Base.Map.{Map, IsDistinct, insert-IsDistinct, lookup}
use frr_visible.Base.Text.{Text, text_eq_instance}
use frr_visible.Gnmi.{Wiring}
use frr_visible.Ospf.{
  Neighbor, Session, Ospf, add_neighbor, neighbor_of, parse_loop, parse_ospf_nbrs, reconcile,
}
use frr_visible.Ospf.Snapshot.{IsTracked, Mirrors, reconcile-Mirrors, reconcile-IsTracked}

-- NewOSPF
abbrev pub nothing_tracked : Ospf
nothing_tracked = record { seen = []; st = [] }

pub IsTracked-nothing : IsTracked nothing_tracked
unfolding lookup
IsTracked-nothing = record { distinct = tt; stated = λ r. (λ e. refl, λ e. refl) }

add_neighbor-IsDistinct :
    (rid : Text) (arr : List Session) (res : Map Text Neighbor)
    → IsDistinct res
    → IsDistinct (add_neighbor rid arr res)
add_neighbor-IsDistinct rid [] res h = h
add_neighbor-IsDistinct rid (n ∷ _) res h = insert-IsDistinct rid (neighbor_of rid n) res h

parse_loop-IsDistinct :
    (root : Map Text (List Session)) (res : Map Text Neighbor)
    → IsDistinct res
    → IsDistinct (parse_loop root res)
unfolding parse_loop
parse_loop-IsDistinct [] res h = h
parse_loop-IsDistinct ((rid, arr) ∷ root) res h =
    parse_loop-IsDistinct root (add_neighbor rid arr res) (add_neighbor-IsDistinct rid arr res h)

parse_ospf_nbrs-IsDistinct :
    (out : Option (Map Text (List Session))) → IsDistinct (parse_ospf_nbrs out)
unfolding parse_ospf_nbrs
parse_ospf_nbrs-IsDistinct none = tt
parse_ospf_nbrs-IsDistinct (some root) = parse_loop-IsDistinct root [] tt

module _ (w : Wiring) where
  -- Each read of vtysh in turn; `none` is one that failed.
  unfoldable pub run : List (Option (Option (Map Text (List Session)))) → Ospf → Ospf
  run [] o = o
  run (out ∷ outs) o = run outs (reconcile w out o).0

  pub step-IsTracked :
      (out : Option (Option (Map Text (List Session)))) (o : Ospf)
      → IsTracked o
      → IsTracked (reconcile w out o).0
  unfolding reconcile
  step-IsTracked none o h = h
  step-IsTracked (some out) o h =
      reconcile-IsTracked w (parse_ospf_nbrs out) o (parse_ospf_nbrs-IsDistinct out) h

  pub step-Mirrors :
      (out : Option (Map Text (List Session))) (o : Ospf)
      → IsTracked o
      → Mirrors (parse_ospf_nbrs out) (reconcile w (some out) o).0
  unfolding reconcile
  step-Mirrors out o h =
      reconcile-Mirrors w (parse_ospf_nbrs out) o (parse_ospf_nbrs-IsDistinct out) h

  run_from :
      (outs : List (Option (Option (Map Text (List Session)))))
      (out : Option (Map Text (List Session))) (o : Ospf)
      → IsTracked o
      → Mirrors (parse_ospf_nbrs out) (run (outs ++ some out ∷ []) o)
  unfolding run
  run_from [] out o h = step-Mirrors out o h
  run_from (x ∷ outs) out o h = run_from outs out (reconcile w x o).0 (step-IsTracked x o h)

  -- From the start of the ingester and after any sequence of reads of vtysh, failed or not, a read that
  -- succeeds leaves a state that says of every router id exactly what that read says: its interface and
  -- its adjacency state, or nothing.
  pub run-Mirrors :
      (outs : List (Option (Option (Map Text (List Session)))))
      (out : Option (Map Text (List Session)))
      → Mirrors (parse_ospf_nbrs out) (run (outs ++ some out ∷ []) nothing_tracked)
  run-Mirrors outs out = run_from outs out nothing_tracked IsTracked-nothing
