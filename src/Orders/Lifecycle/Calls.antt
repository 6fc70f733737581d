-- ===== src/Orders/Lifecycle/Calls.antt =====
-- The invariant of an order over the calls that change it.
use opticutter.Prelude.{
  ℕ, ◌≡◌, refl, sym, ap, subst, ◌∙◌, inl, inr, Bool, true, Option, List, [], ◌∷◌, Bool-cases,
  Option-cases, sum_by, arith,
}
use opticutter.Prelude.Text.{Text}
use opticutter.Orders.Status.{
  OrderStatus, BandingStatus, is_banding_pending, transition_roles, is_cutting, is_cut,
}
use opticutter.Orders.Order.{Actor, Payment, Board, SnapshotPiece, Order, uncut}
use opticutter.Orders.Plan.{
  attach_boards, ensure_boards, ensure_cutting_plan, pending_pieces, mark_piece_cut, board_rows,
  update_boards, find_row, mark_row,
}
use opticutter.Orders.Transition.Rules.{gated_ok, gated_refused}
use opticutter.Orders.Plan.Marking.{
  plan_of, HasPlan, ensure_cutting_plan-HasPlan, update_boards-plan,
}
use opticutter.Orders.Transition.{
  role_refused, is_cut_gate, gated_transition, transition, transition_banding,
}
use opticutter.Orders.Lifecycle.{IsConsistent, is_past_cutting, is_closed, commit-IsConsistent}

-- a stored plan stays as it is
ensure_boards-same :
    (ids : ℕ → ℕ) (layouts : List (List SnapshotPiece)) (boards : List Board)
    → plan_of boards ≡ layouts
    → ensure_boards ids layouts boards ≡ boards
unfolding ensure_boards attach_boards
ensure_boards-same ids [] [] h = refl
ensure_boards-same ids (l ∷ ls) [] h = absurd (ground (arith, h))
ensure_boards-same ids layouts (b ∷ bs) h = refl

-- a plan of the same pieces, and the same plan once cutting is over
with_boards-IsConsistent :
    (o : Order) (boards : List Board)
    → IsConsistent o
    → plan_of boards ≡ o.snapshot_layouts
    → (is_past_cutting o.status ≡ true → boards ≡ o.boards)
    → IsConsistent (record o { boards = boards })
unfolding pending_pieces
with_boards-IsConsistent o boards h plan kept = record {
  trail = h.trail;
  planned = inr plan;
  all_cut = λ e. (plan, ap (λ bs. sum_by uncut (board_rows bs)) (kept e) ∙ (h.all_cut e).1);
  banded = h.banded;
  assigned = h.assigned;
  dispatch = h.dispatch;
  paid = h.paid;
}

pub ensure-IsConsistent :
    (ids : ℕ → ℕ) (o : Order) → IsConsistent o → IsConsistent (ensure_cutting_plan ids o)
unfolding ensure_cutting_plan
ensure-IsConsistent ids o h =
    with_boards-IsConsistent o (ensure_boards ids o.snapshot_layouts o.boards) h
      (ensure_cutting_plan-HasPlan ids o h.planned)
      (λ e. ensure_boards-same ids o.snapshot_layouts o.boards (h.all_cut e).0)

pub mark_piece_cut-IsConsistent :
    (ids : ℕ → ℕ) (now : ℕ) (o : Order) (id : ℕ) (is_cut : Bool) (actor : Actor)
    → IsConsistent o
    → IsConsistent (mark_piece_cut ids now o id is_cut actor).0
unfolding mark_piece_cut ensure_cutting_plan
mark_piece_cut-IsConsistent ids now o id is_cut actor h =
    let bs = ensure_boards ids o.snapshot_layouts o.boards in
    let planned : IsConsistent (ensure_cutting_plan ids o) = ensure-IsConsistent ids o h in
    elim (Bool-cases (is_cutting o.status)) [
      | inr e ↦ rw (e) planned
      | inl e ↦ elim (Option-cases (find_row id (board_rows bs))) [
        | inl f ↦ rw (e, f) planned
        | inr (row, f) ↦
            rw (e, f)
              (with_boards-IsConsistent o (update_boards id (mark_row now actor is_cut) bs) h
                (update_boards-plan id now actor is_cut bs
                  ∙ ensure_cutting_plan-HasPlan ids o h.planned)
                (λ g. absurd (ground (arith, e, g))))
      ]
    ]

gated-IsConsistent :
    (now : ℕ) (to_status : OrderStatus) (actor : Actor) (note : Option Text)
    (payment : Option Payment) (o : Order)
    → IsConsistent o
    → (is_cut_gate o.status to_status ≡ true → HasPlan o)
    → IsConsistent (gated_transition now to_status actor note payment o).0
gated-IsConsistent now to_status actor note payment o h plan =
    elim (Option-cases (gated_transition now to_status actor note payment o).1) [
      | inl e ↦
          let (none_left, banded, paid, commits) = gated_ok now to_status actor note payment o e in
          subst (λ r. IsConsistent r.0) (sym commits)
            (commit-IsConsistent now to_status actor note payment o h
              (λ g. (plan g, none_left g), banded, paid))
      | inr (e, f) ↦ subst IsConsistent (sym (gated_refused now to_status actor note payment o f)) h
    ]

pub transition-IsConsistent :
    (ids : ℕ → ℕ) (now : ℕ) (to_status : OrderStatus) (actor : Actor) (note : Option Text)
    (payment : Option Payment) (o : Order)
    → IsConsistent o
    → IsConsistent (transition ids now to_status actor note payment o).0
unfolding transition
transition-IsConsistent ids now to_status actor note payment o h =
    let planned = ensure-IsConsistent ids o h in
    elim (Bool-cases (role_refused actor.role (transition_roles o.status to_status))) [
      | inl e ↦ rw (e) h
      | inr e ↦ elim (Bool-cases (is_cut_gate o.status to_status)) [
        | inl g ↦
            rw (e, g)
              (gated-IsConsistent now to_status actor note payment (ensure_cutting_plan ids o)
                planned (λ f. ensure_cutting_plan-HasPlan ids o h.planned))
        | inr g ↦
            rw (e, g)
              (gated-IsConsistent now to_status actor note payment o h
                (λ f. absurd (ground (arith, f, g))))
      ]
    ]

pub transition_banding-IsConsistent :
    (now : ℕ) (to_status : BandingStatus) (actor : Actor) (o : Order)
    → IsConsistent o
    → IsConsistent (transition_banding now to_status actor o).0
unfolding transition_banding pending_pieces
transition_banding-IsConsistent now to_status actor o h =
    let o' = (transition_banding now to_status actor o).0 in
    let kept : is_closed o.status ≡ true → o'.banding_status ≡ o.banding_status = ground arith in
    let same : o' ≡ record o {
      banding_started_at = o'.banding_started_at;
      banding_started_by = o'.banding_started_by;
      banding_started_by_label = o'.banding_started_by_label;
      banding_finished_at = o'.banding_finished_at;
      banding_finished_by = o'.banding_finished_by;
      banding_finished_by_label = o'.banding_finished_by_label;
      banding_status = o'.banding_status;
    } =
      ground arith in
    subst IsConsistent (sym same) (record {
      trail = h.trail;
      planned = h.planned;
      all_cut = h.all_cut;
      banded = λ e. ap is_banding_pending (kept e) ∙ h.banded e;
      assigned = h.assigned;
      dispatch = h.dispatch;
      paid = h.paid;
    })
