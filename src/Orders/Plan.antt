-- ===== src/Orders/Plan.antt =====
-- The cutting plan in src/modules/orders/service.py: `_attach_cutting_plan`, `_ensure_cutting_plan`,
-- `_progress` and `mark_piece_cut`. `ids` is the sequence of row ids that the database hands out.
pub mod Marking
pub mod Lookup
pub mod Effect
use opticutter.Prelude.{
  ℕ, zero, suc, ◌+◌, ◌-◌, Bool, true, false, Option, none, some, List, [], ◌∷◌, ◌++◌, map, length,
  sum_by, ◌==◌, if◌then◌else◌, Result, ok, err, business_rule_error, entity_not_found,
}
use opticutter.Orders.Status.{cutting, is_cutting}
use opticutter.Orders.Order.{Actor, SnapshotPiece, PlacedRow, Board, Order, uncut}

unfoldable pub attach_rows : (ℕ → ℕ) → ℕ → List SnapshotPiece → List PlacedRow
attach_rows ids k [] = []
attach_rows ids k (p ∷ ps) =
    record { id = ids k; placed = p; cut_at = none; cut_by = none; cut_by_label = none }
    ∷ attach_rows ids (suc k) ps

-- Boards are numbered through the order, from `seq`.
unfoldable pub attach_boards : (ℕ → ℕ) → ℕ → ℕ → List (List SnapshotPiece) → List Board
unfolding attach_rows
attach_boards ids k seq [] = []
attach_boards ids k seq (layout ∷ rest) =
    record { sheet_number = seq; pieces = attach_rows ids k layout }
    ∷ attach_boards ids (k + length layout) (suc seq) rest

-- `if order.boards: return`
unfoldable pub ensure_boards : (ℕ → ℕ) → List (List SnapshotPiece) → List Board → List Board
unfolding attach_boards
ensure_boards ids layouts [] = attach_boards ids 0 1 layouts
ensure_boards ids layouts (b ∷ bs) = b ∷ bs

unfoldable pub ensure_cutting_plan : (ℕ → ℕ) → Order → Order
unfolding ensure_boards
ensure_cutting_plan ids order = record order {
  boards = ensure_boards ids order.snapshot_layouts order.boards;
}

unfoldable pub board_rows : List Board → List PlacedRow
board_rows [] = []
board_rows (b ∷ bs) = b.pieces ++ board_rows bs

-- the count of the rows of the order with `cut_at` null
unfoldable pub pending_pieces : Order → ℕ
unfolding board_rows
pending_pieces order = sum_by uncut (board_rows order.boards)

pub record CuttingProgress : Type 0 where
  pub cut_pieces : ℕ
  pub total_pieces : ℕ

abbrev pub is_row_cut : PlacedRow → ℕ
is_row_cut p = elim p.cut_at [ none ↦ 0 | some t ↦ 1 ]

unfoldable pub progress : List PlacedRow → CuttingProgress
progress rows = record { cut_pieces = sum_by is_row_cut rows; total_pieces = length rows }

-- `cut` on a row that is not cut sets the mark, on one that is cut keeps it, and unmarking clears it.
unfoldable pub mark_row : ℕ → Actor → Bool → PlacedRow → PlacedRow
mark_row now actor true row = elim row.cut_at [
  | none ↦ record row { cut_at = some now; cut_by = actor.user_id; cut_by_label = actor.label }
  | some t ↦ row
]
mark_row now actor false row = record row { cut_at = none; cut_by = none; cut_by_label = none }

-- `db.get(OrderPlacedPieceModel, placed_piece_id)`, kept to the rows of this order
unfoldable pub find_row : ℕ → List PlacedRow → Option PlacedRow
find_row id [] = none
find_row id (row ∷ rows) = if row.id == id then some row else find_row id rows

unfoldable pub update_row : ℕ → (PlacedRow → PlacedRow) → List PlacedRow → List PlacedRow
update_row id f [] = []
update_row id f (row ∷ rows) = (if row.id == id then f row else row) ∷ update_row id f rows

unfoldable pub update_boards : ℕ → (PlacedRow → PlacedRow) → List Board → List Board
unfolding update_row
update_boards id f [] = []
update_boards id f (b ∷ bs) = record b { pieces = update_row id f b.pieces } ∷ update_boards id f bs

-- The order after the call, and the progress returned. The plan is stored before the checks.
unfoldable pub mark_piece_cut :
    (ℕ → ℕ) → ℕ → Order → ℕ → Bool → Actor → Order × Result CuttingProgress
unfolding ensure_cutting_plan board_rows find_row update_boards progress
mark_piece_cut ids now order placed_piece_id is_cut actor =
    let order' = ensure_cutting_plan ids order in
    let marked = record order' {
      boards = update_boards placed_piece_id (mark_row now actor is_cut) order'.boards;
    } in
    if is_cutting order.status
    then (elim (find_row placed_piece_id (board_rows order'.boards)) [
      | none ↦ (order', err entity_not_found)
      | some row ↦ (marked, ok (progress (board_rows marked.boards)))
    ])
    else (order', err business_rule_error)
