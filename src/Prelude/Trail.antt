-- ===== src/Prelude/Trail.antt =====
-- A history of states: each row starts where the one before it ended, along an edge.
use mathlib.Core.Path.{◌≡◌, refl, sym, subst, ◌∙◌}
use mathlib.Core.Option.{Option, some}
use mathlib.Core.List.{List, [], ◌∷◌, ◌++◌}

-- `from` and `to` read the ends of a row; `Edge` says where a row may lead.
module _ {Status : Type 0} {Row : Type 0} (from : Row → Option Status) (to : Row → Status)
    (Edge : Option Status → Status → Type 0) where
  abbrev pub IsTrail : Option Status → List Row → Status → Type 0
  IsTrail start [] now = start ≡ some now
  IsTrail start (h ∷ hs) now = (from h ≡ start) × Edge start (to h) × IsTrail (some (to h)) hs now

  -- the row is the next of the trail
  pub IsTrail-step :
      (start : Option Status) (hs : List Row) {now : Status} (h : Row)
      → IsTrail start hs now
      → from h ≡ some now
      → Edge (some now) (to h)
      → IsTrail start (hs ++ h ∷ []) (to h)
  IsTrail-step start [] h t e f = (e ∙ sym t, subst (λ s. Edge s (to h)) (sym t) f, refl)
  IsTrail-step start (g ∷ hs) h (e, f, t) e' f' = (e, f, IsTrail-step (some (to g)) hs h t e' f')
