-- ===== src/Lineage/Told.antt =====
-- internal/lineage/lineage.go: the tracker under the calls that a handler of an ingester makes.
use frr_visible.Base.{ℕ, ◌≡◌, refl, ap, ◌∙◌, List, [], ◌∷◌, ◌++◌, Bool, true, arith}
use frr_visible.Base.Text.{Text}
use frr_visible.Gnmi.{Effect, updates, emits, observes, Wiring, emit, observe}
use frr_visible.Lineage
use frr_visible.Lineage.{Tracker}

-- The tracker after the calls of a handler at the time `now`.
unfoldable pub tell : ℕ → List Effect → Tracker → Tracker
tell now [] t = t
tell now (observes p s b d ∷ es) t = tell now es (Lineage.observe now p s b d t)
tell now (updates o us ds ∷ es) t = tell now es t
tell now (emits b k y d r ∷ es) t = tell now es t

pub tell-append :
    (now : ℕ) (xs ys : List Effect) (t : Tracker)
    → tell now (xs ++ ys) t ≡ tell now ys (tell now xs t)
unfolding tell
tell-append now [] ys t = refl
tell-append now (observes p s b d ∷ xs) ys t = tell-append now xs ys (Lineage.observe now p s b d t)
tell-append now (updates o us ds ∷ xs) ys t = tell-append now xs ys t
tell-append now (emits b k y d r ∷ xs) ys t = tell-append now xs ys t

pub tell-emit :
    (now : ℕ) (w : Wiring) (bus kind key detail : Text) (root : Bool) (t : Tracker)
    → tell now (emit w bus kind key detail root) t ≡ t
unfolding tell emit
tell-emit now w bus kind key detail root t = ground arith

-- With a tracker wired, Observe is called.
pub tell-observe :
    (now : ℕ) (w : Wiring) (p : Text) (s : ℕ) (b : Bool) (d : Text) (t : Tracker)
    → w.lin ≡ true
    → tell now (observe w p s b d) t ≡ Lineage.observe now p s b d t
unfolding tell observe
tell-observe now w p s b d t h = rw h

-- The end of most handlers: an event, and an observation.
pub tell-emit-observe :
    (now : ℕ) (w : Wiring) (bus kind key detail : Text) (root : Bool) (p : Text) (s : ℕ) (b : Bool)
    (d : Text) (t : Tracker)
    → w.lin ≡ true
    → tell now (emit w bus kind key detail root ++ observe w p s b d) t
      ≡ Lineage.observe now p s b d t
tell-emit-observe now w bus kind key detail root p s b d t h =
    tell-append now (emit w bus kind key detail root) (observe w p s b d) t
    ∙ ap (tell now (observe w p s b d)) (tell-emit now w bus kind key detail root t)
    ∙ tell-observe now w p s b d t h
