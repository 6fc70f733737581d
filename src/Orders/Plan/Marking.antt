-- ===== src/Orders/Plan/Marking.antt =====
-- What the cutting plan holds, and what marking a piece changes.
use opticutter.Prelude.{
  List-cases, sym, ℕ, suc, ◌+◌, ◌≡◌, refl, ap, ◌∙◌, ◌⊎◌, inl, inr, Bool, true, false, List, [], ◌∷◌,
  map, length, arith,
}
use opticutter.Orders.Order.{Actor, SnapshotPiece, PlacedRow, Board, Order}
use opticutter.Orders.Plan.{
  attach_rows, attach_boards, ensure_boards, ensure_cutting_plan, mark_row, update_row,
  update_boards,
}

-- The pieces of the plan, board by board, without their marks.
abbrev pub plan_of : List Board → List (List SnapshotPiece)
plan_of boards = map (λ b. map (λ r. r.placed) b.pieces) boards

attach_rows-placed :
    (ids : ℕ → ℕ) (k : ℕ) (ps : List SnapshotPiece)
    → map (λ r. r.placed) (attach_rows ids k ps) ≡ ps
unfolding attach_rows
attach_rows-placed ids k [] = refl
attach_rows-placed ids k (p ∷ ps) = ap (λ l. p ∷ l) (attach_rows-placed ids (suc k) ps)

pub attach_boards-plan :
    (ids : ℕ → ℕ) (k seq : ℕ) (layouts : List (List SnapshotPiece))
    → plan_of (attach_boards ids k seq layouts) ≡ layouts
unfolding attach_boards
attach_boards-plan ids k seq [] = refl
attach_boards-plan ids k seq (l ∷ ls) =
    ap (λ p. p ∷ plan_of (attach_boards ids (k + length l) (suc seq) ls))
      (attach_rows-placed ids k l)
    ∙ ap (λ p. l ∷ p) (attach_boards-plan ids (k + length l) (suc seq) ls)

-- There is no plan yet, or it has the pieces of the snapshot.
abbrev pub HasPlan : Order → Type 0
HasPlan order = plan_of order.boards ≡ order.snapshot_layouts

abbrev pub IsPlanned : Order → Type 0
IsPlanned order = (order.boards ≡ []) ⊎ HasPlan order

ensure_boards-plan :
    (ids : ℕ → ℕ) (layouts : List (List SnapshotPiece)) (boards : List Board)
    → (boards ≡ []) ⊎ (plan_of boards ≡ layouts)
    → plan_of (ensure_boards ids layouts boards) ≡ layouts
unfolding ensure_boards
ensure_boards-plan ids layouts [] h = attach_boards-plan ids 0 1 layouts
ensure_boards-plan ids layouts (b ∷ bs) (inl e) = absurd (ground arith)
ensure_boards-plan ids layouts (b ∷ bs) (inr e) = e

pub ensure_cutting_plan-HasPlan :
    (ids : ℕ → ℕ) (order : Order) → IsPlanned order → HasPlan (ensure_cutting_plan ids order)
unfolding ensure_cutting_plan
ensure_cutting_plan-HasPlan ids order h =
    ensure_boards-plan ids order.snapshot_layouts order.boards h

mark_row-placed :
    (now : ℕ) (actor : Actor) (is_cut : Bool) (row : PlacedRow)
    → (mark_row now actor is_cut row).placed ≡ row.placed
unfolding mark_row
mark_row-placed now actor true row = ground arith
mark_row-placed now actor false row = refl

update_row-placed :
    (id now : ℕ) (actor : Actor) (is_cut : Bool) (rows : List PlacedRow)
    → map (λ r. r.placed) (update_row id (mark_row now actor is_cut) rows)
      ≡ map (λ r. r.placed) rows
unfolding update_row
update_row-placed id now actor is_cut [] = refl
update_row-placed id now actor is_cut (row ∷ rows) =
    ground (arith, mark_row-placed now actor is_cut row, update_row-placed id now actor is_cut rows)

pub update_boards-plan :
    (id now : ℕ) (actor : Actor) (is_cut : Bool) (boards : List Board)
    → plan_of (update_boards id (mark_row now actor is_cut) boards) ≡ plan_of boards
unfolding update_boards
update_boards-plan id now actor is_cut [] = refl
update_boards-plan id now actor is_cut (b ∷ bs) = ground (
  arith,
  update_row-placed id now actor is_cut b.pieces,
  update_boards-plan id now actor is_cut bs,
)

-- What `_ensure_cutting_plan` has made of the order: nothing, or a first plan from the snapshot.
abbrev pub IsEnsured : Order → Order → Type 0
IsEnsured order order' =
    (order' ≡ order)
    ⊎ ((order.boards ≡ [])
        × (plan_of order'.boards ≡ order.snapshot_layouts)
        × (order' ≡ record order { boards = order'.boards }))

pub ensure_cutting_plan-IsEnsured :
    (ids : ℕ → ℕ) (order : Order) → IsEnsured order (ensure_cutting_plan ids order)
unfolding ensure_cutting_plan
ensure_cutting_plan-IsEnsured ids order = elim (List-cases order.boards) [
  | inl e ↦ inr (e, ensure_boards-plan ids order.snapshot_layouts order.boards (inl e), refl)
  | inr (b, bs, e) ↦ inl (
      ap (λ boards. record order { boards = ensure_boards ids order.snapshot_layouts boards }) e
      ∙ unfold ensure_boards in ap (λ boards. record order { boards = boards }) (sym e))
]
