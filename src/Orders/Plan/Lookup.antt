-- ===== src/Orders/Plan/Lookup.antt =====
-- `mark_piece_cut` row by row: the outcome of a call, and that repeating it changes nothing.
use opticutter.Prelude.{
  ℕ, ◌≡◌, refl, ap, ◌∙◌, inl, inr, Bool, true, false, Option, none, some, List, [], ◌∷◌, ◌++◌, ◌==◌,
  if◌then◌else◌, Result, ok, err, business_rule_error, entity_not_found, Bool-cases, Option-cases,
  arith,
}
use opticutter.Orders.Status.{is_cutting}
use opticutter.Orders.Order.{Actor, SnapshotPiece, PlacedRow, Board, Order}
use opticutter.Orders.Plan.{
  ensure_boards, ensure_cutting_plan, board_rows, CuttingProgress, progress, mark_row, find_row,
  update_row, update_boards, mark_piece_cut,
}

abbrev pub map_found : (PlacedRow → PlacedRow) → Option PlacedRow → Option PlacedRow
map_found f none = none
map_found f (some row) = some (f row)

abbrev pub first_of_two : Option PlacedRow → Option PlacedRow → Option PlacedRow
first_of_two none o = o
first_of_two (some row) o = some row

find_row-append :
    (j : ℕ) (xs ys : List PlacedRow)
    → find_row j (xs ++ ys) ≡ first_of_two (find_row j xs) (find_row j ys)
unfolding find_row
find_row-append j [] ys = refl
find_row-append j (x ∷ xs) ys = ground (arith, find_row-append j xs ys)

module _ (id : ℕ) (f : PlacedRow → PlacedRow) (keeps_id : (r : PlacedRow) → (f r).id ≡ r.id) where
  find_row-update_row :
      (j : ℕ) (rows : List PlacedRow)
      → find_row j (update_row id f rows)
        ≡ (if id == j then map_found f (find_row j rows) else find_row j rows)
  unfolding find_row update_row
  find_row-update_row j [] = ground arith
  find_row-update_row j (r ∷ rs) = ground (arith, keeps_id r, find_row-update_row j rs)

  find_row-update_boards :
      (j : ℕ) (boards : List Board)
      → find_row j (board_rows (update_boards id f boards)) ≡ (
          if id == j
          then map_found f (find_row j (board_rows boards))
          else find_row j (board_rows boards))
  unfolding board_rows update_boards
  find_row-update_boards j [] = unfold find_row in ground arith
  find_row-update_boards j (b ∷ bs) = ground (
    arith,
    find_row-append j (update_row id f b.pieces) (board_rows (update_boards id f bs)),
    find_row-append j b.pieces (board_rows bs),
    find_row-update_row j b.pieces,
    find_row-update_boards j bs,
  )

mark_row-id :
    (now : ℕ) (actor : Actor) (is_cut : Bool) (r : PlacedRow)
    → (mark_row now actor is_cut r).id ≡ r.id
unfolding mark_row
mark_row-id now actor true r = ground arith
mark_row-id now actor false r = refl

mark_row_twice :
    (now later : ℕ) (actor second : Actor) (is_cut : Bool) (r : PlacedRow)
    → mark_row later second is_cut (mark_row now actor is_cut r) ≡ mark_row now actor is_cut r
unfolding mark_row
mark_row_twice now later actor second true r = ground arith
mark_row_twice now later actor second false r = refl

module _ (id : ℕ) (f g : PlacedRow → PlacedRow) (keeps_id : (r : PlacedRow) → (f r).id ≡ r.id)
    (absorbed : (r : PlacedRow) → g (f r) ≡ f r) where
  update_row_twice :
      (rows : List PlacedRow) → update_row id g (update_row id f rows) ≡ update_row id f rows
  unfolding update_row
  update_row_twice [] = refl
  update_row_twice (r ∷ rs) = ground (arith, keeps_id r, absorbed r, update_row_twice rs)

  update_boards_twice :
      (boards : List Board)
      → update_boards id g (update_boards id f boards) ≡ update_boards id f boards
  unfolding update_boards
  update_boards_twice [] = refl
  update_boards_twice (b ∷ bs) = ground (arith, update_row_twice b.pieces, update_boards_twice bs)

ensure_boards_again :
    (ids again : ℕ → ℕ) (layouts : List (List SnapshotPiece)) (boards : List Board)
    → ensure_boards again layouts (ensure_boards ids layouts boards)
      ≡ ensure_boards ids layouts boards
unfolding ensure_boards
ensure_boards_again ids again [] [] = refl
ensure_boards_again ids again (l ∷ ls) [] = refl
ensure_boards_again ids again layouts (b ∷ bs) = refl

ensure_boards-update :
    (ids again : ℕ → ℕ) (id : ℕ) (f : PlacedRow → PlacedRow) (layouts : List (List SnapshotPiece))
    (boards : List Board)
    → ensure_boards again layouts (update_boards id f (ensure_boards ids layouts boards))
      ≡ update_boards id f (ensure_boards ids layouts boards)
unfolding ensure_boards update_boards
ensure_boards-update ids again id f [] [] = refl
ensure_boards-update ids again id f (l ∷ ls) [] = refl
ensure_boards-update ids again id f layouts (b ∷ bs) = refl

abbrev planned : (ℕ → ℕ) → Order → List Board
planned ids order = ensure_boards ids order.snapshot_layouts order.boards

module _ (ids : ℕ → ℕ) (now : ℕ) (order : Order) (id : ℕ) (is_cut : Bool) (actor : Actor) where
  abbrev pub marked : Order
  marked = record order {
    boards = update_boards id (mark_row now actor is_cut) (planned ids order);
  }

  pub mark_locked :
      is_cutting order.status ≡ false
      → mark_piece_cut ids now order id is_cut actor
        ≡ (ensure_cutting_plan ids order, err business_rule_error)
  unfolding mark_piece_cut
  mark_locked e = rw e

  pub mark_missing :
      is_cutting order.status ≡ true
      → find_row id (board_rows (planned ids order)) ≡ none
      → mark_piece_cut ids now order id is_cut actor
        ≡ (ensure_cutting_plan ids order, err entity_not_found)
  mark_missing e f = unfold mark_piece_cut in rw e (ground (arith, f))

  pub mark_found :
      {row : PlacedRow}
      → is_cutting order.status ≡ true
      → find_row id (board_rows (planned ids order)) ≡ some row
      → mark_piece_cut ids now order id is_cut actor
        ≡ (marked, ok (progress (board_rows marked.boards)))
  mark_found e f = unfold mark_piece_cut in rw e (ground (arith, f))

module _ (ids again : ℕ → ℕ) (now later : ℕ) (order : Order) (id : ℕ) (is_cut : Bool)
    (actor second : Actor) where
  abbrev outcome_of : List Board → Order × Result CuttingProgress
  outcome_of boards = (record order { boards = boards }, ok (progress (board_rows boards)))

  twice_locked :
      is_cutting order.status ≡ false
      → mark_piece_cut again later (ensure_cutting_plan ids order) id is_cut second
        ≡ (ensure_cutting_plan ids order, err business_rule_error)
  unfolding ensure_cutting_plan
  twice_locked e =
      mark_locked again later (ensure_cutting_plan ids order) id is_cut second e
      ∙ ap (λ boards. (record order { boards = boards }, err business_rule_error))
          (ensure_boards_again ids again order.snapshot_layouts order.boards)

  twice_missing :
      is_cutting order.status ≡ true
      → find_row id (board_rows (planned ids order)) ≡ none
      → mark_piece_cut again later (ensure_cutting_plan ids order) id is_cut second
        ≡ (ensure_cutting_plan ids order, err entity_not_found)
  unfolding ensure_cutting_plan
  twice_missing e f =
      let same = ensure_boards_again ids again order.snapshot_layouts order.boards in
      mark_missing again later (ensure_cutting_plan ids order) id is_cut second e
        (ap (λ boards. find_row id (board_rows boards)) same ∙ f)
      ∙ ap (λ boards. (record order { boards = boards }, err entity_not_found)) same

  twice_found :
      {row : PlacedRow}
      → is_cutting order.status ≡ true
      → find_row id (board_rows (planned ids order)) ≡ some row
      → let m = marked ids now order id is_cut actor in
        mark_piece_cut again later m id is_cut second ≡ (m, ok (progress (board_rows m.boards)))
  twice_found {row} e f =
      let g = mark_row now actor is_cut in
      let boards = update_boards id g (planned ids order) in
      let same = ensure_boards-update ids again id g order.snapshot_layouts order.boards in
      let found : find_row id (board_rows boards) ≡ some (g row) =
        find_row-update_boards id g (mark_row-id now actor is_cut) id (planned ids order)
        ∙ ground (arith, f) in
      mark_found again later (marked ids now order id is_cut actor) id is_cut second e
        (ap (λ bs. find_row id (board_rows bs)) same ∙ found)
      ∙ ap (λ bs. outcome_of (update_boards id (mark_row later second is_cut) bs)) same
      ∙ ap outcome_of (
          update_boards_twice id g (mark_row later second is_cut) (mark_row-id now actor is_cut)
            (mark_row_twice now later actor second is_cut) (planned ids order))

  -- The same call once more, by anyone at any time, changes nothing and returns the same.
  pub mark_piece_cut_twice :
      mark_piece_cut again later (mark_piece_cut ids now order id is_cut actor).0 id is_cut second
      ≡ mark_piece_cut ids now order id is_cut actor
  mark_piece_cut_twice = elim (Bool-cases (is_cutting order.status)) [
    | inr e ↦ rw (mark_locked ids now order id is_cut actor e) (twice_locked e)
    | inl e ↦ elim (Option-cases (find_row id (board_rows (planned ids order)))) [
      | inl f ↦ rw (mark_missing ids now order id is_cut actor e f) (twice_missing e f)
      | inr (row, f) ↦ rw (mark_found ids now order id is_cut actor e f) (twice_found e f)
    ]
  ]
