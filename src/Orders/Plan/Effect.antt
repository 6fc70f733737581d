-- ===== src/Orders/Plan/Effect.antt =====
-- What `mark_piece_cut` does to the rows of the cutting plan, on each of its branches.
use opticutter.Prelude.{
  ℕ, ◌+◌, ◌≡◌, ◌≢◌, ◌⊎◌, Bool, true, false, none, some, List, ◌∷◌, ◌++◌, length, All, AllPairs,
  ◌==◌, Result, ok, err, business_rule_error, entity_not_found,
}
use opticutter.Orders.Status.{cutting}
use opticutter.Orders.Order.{Actor, PlacedRow, Order}
use opticutter.Orders.Plan.{
  ensure_cutting_plan, board_rows, pending_pieces, CuttingProgress, find_row,
}
use opticutter.Orders.Plan.Marking.{plan_of, IsEnsured}

abbrev pub DistinctRows : List PlacedRow → Type 0
DistinctRows rows = AllPairs (λ a b. (a.id == b.id) ≡ false) rows

-- The mark of a row as it is asked for; a row that is cut already keeps its mark.
abbrev pub IsMark : ℕ → Actor → Bool → PlacedRow → PlacedRow → Type 0
IsMark now actor is_cut row row' =
    ((is_cut ≡ true)
      × (row.cut_at ≡ none)
      × (row'
          ≡ record row { cut_at = some now; cut_by = actor.user_id; cut_by_label = actor.label }))
    ⊎ ((is_cut ≡ true) × (row.cut_at ≢ none) × (row' ≡ row))
    ⊎ ((is_cut ≡ false) × (row' ≡ record row { cut_at = none; cut_by = none; cut_by_label = none }))

-- One row of the plan has changed, and the answer counts the rows that are cut.
pub record IsMarked (now : ℕ) (actor : Actor) (is_cut : Bool) (id : ℕ) (planned order' : Order)
    (answer : Result CuttingProgress) : Type 0 where
  pub earlier : List PlacedRow
  pub later : List PlacedRow
  pub row : PlacedRow
  pub row' : PlacedRow
  pub here : board_rows planned.boards ≡ earlier ++ row ∷ later
  pub there : board_rows order'.boards ≡ earlier ++ row' ∷ later
  pub asked : row.id ≡ id
  pub mark : IsMark now actor is_cut row row'
  pub plan : plan_of order'.boards ≡ plan_of planned.boards
  pub rest : order' ≡ record planned { boards = order'.boards }
  pub counts : CuttingProgress
  pub answered : answer ≡ ok counts
  pub total : counts.total_pieces ≡ length (board_rows planned.boards)
  pub balance : counts.cut_pieces + pending_pieces order' ≡ counts.total_pieces

-- What the call has made of the order and what it answers, for the order with its plan.
pub record IsMarking (now : ℕ) (actor : Actor) (is_cut : Bool) (id : ℕ) (order : Order)
    (result : Order × Result CuttingProgress) : Type 0 where
  pub planned : Order
  pub ensured : IsEnsured order planned
  pub outcome :
      ((order.status ≢ cutting) × (result ≡ (planned, err business_rule_error)))
      ⊎ ((order.status ≡ cutting)
          × All (λ r. r.id ≢ id) (board_rows planned.boards)
          × (result ≡ (planned, err entity_not_found)))
      ⊎ ((order.status ≡ cutting) × IsMarked now actor is_cut id planned result.0 result.1)

-- The first row with the id, and what is before and behind it.
record IsFound (id : ℕ) (rows : List PlacedRow) : Type 0 where
  earlier : List PlacedRow
  later : List PlacedRow
  row : PlacedRow
  here : rows ≡ earlier ++ row ∷ later
  skipped : All (λ r. (r.id == id) ≡ false) earlier
  matched : (row.id == id) ≡ true
  unique : All (λ r. (r.id == id) ≡ false) later
  found : find_row id rows ≡ some row

module _ (ids : ℕ → ℕ) (now : ℕ) (order : Order) (id : ℕ) (is_cut : Bool) (actor : Actor) where
  abbrev planned_order : Order
  planned_order = ensure_cutting_plan ids order
