-- ===== src/Orders/Lifecycle.antt =====
-- What holds of an order through its life: all the service's calls that change one order, as steps.
pub mod Calls
use opticutter.Prelude.{
  ℕ, ◌≡◌, refl, sym, ap, subst, ◌∙◌, ◌⊎◌, inl, inr, Bool, true, false, Option, none, some, List, [],
  ◌∷◌, ◌++◌, Bool-cases, Option-cases, sum_by, arith,
}
use opticutter.Prelude.Text.{Text}
use opticutter.Orders.Status.{
  OrderStatus, confirmed, queued, cutting, cut, completed, dispatched, cancelled, BandingStatus,
  is_banding_pending, is_transition, transition_roles, is_cutting, is_cut, is_dispatched,
}
use opticutter.Orders.Order.{
  Actor, StatusHistory, Payment, Board, SnapshotPiece, Order, is_some, uncut,
}
use opticutter.Orders.Plan.{
  attach_boards, ensure_boards, ensure_cutting_plan, pending_pieces, mark_piece_cut, board_rows,
  update_boards, find_row, mark_row,
}
use opticutter.Orders.Transition.Rules.{commit_ok, commit_refused, gated_ok, gated_refused}
use opticutter.Orders.Plan.Marking.{
  plan_of, IsPlanned, HasPlan, ensure_cutting_plan-HasPlan, update_boards-plan,
}
use opticutter.Orders.Transition.{
  role_refused, history_row, has_payment, commit_transition, is_cut_gate, gated_transition,
  transition, transition_banding,
}

-- the shop floor has taken the order
abbrev pub is_taken : OrderStatus → Bool
is_taken cutting = true
is_taken cut = true
is_taken completed = true
is_taken dispatched = true
is_taken _ = false

-- cutting is over
abbrev pub is_past_cutting : OrderStatus → Bool
is_past_cutting cut = true
is_past_cutting completed = true
is_past_cutting dispatched = true
is_past_cutting _ = false

abbrev pub is_closed : OrderStatus → Bool
is_closed completed = true
is_closed dispatched = true
is_closed _ = false

abbrev pub is_paid : OrderStatus → Bool
is_paid confirmed = false
is_paid cancelled = false
is_paid _ = true

abbrev pub payment_of : Order → Payment
payment_of o = record {
  cash_amount = o.payment_cash_amount;
  credit_amount = o.payment_credit_amount;
}

-- each row starts where the one before it ended, and follows the graph or stays
abbrev pub Follows : Option OrderStatus → OrderStatus → Type 0
Follows none to = to ≡ confirmed
Follows (some from) to = (is_transition from to ≡ true) ⊎ (from ≡ to)

abbrev pub IsTrail : Option OrderStatus → List StatusHistory → OrderStatus → Type 0
IsTrail from [] now = from ≡ some now
IsTrail from (h ∷ hs) now =
    (h.from_status ≡ from) × Follows from h.to_status × IsTrail (some h.to_status) hs now

pub record IsConsistent (o : Order) : Type 0 where
  pub trail : IsTrail none o.history o.status
  pub planned : IsPlanned o
  pub all_cut : is_past_cutting o.status ≡ true → HasPlan o × (pending_pieces o ≡ 0)
  pub banded : is_closed o.status ≡ true → is_banding_pending o.banding_status ≡ false
  pub assigned : is_some o.assigned_at ≡ is_taken o.status
  pub dispatch : is_some o.dispatched_at ≡ is_dispatched o.status
  pub paid : is_paid o.status ≡ true → has_payment (some (payment_of o)) ≡ true

-- the row is the next of the trail
pub IsTrail-step :
    (from : Option OrderStatus) (hs : List StatusHistory) {now : OrderStatus} (h : StatusHistory)
    → IsTrail from hs now
    → h.from_status ≡ some now
    → Follows (some now) h.to_status
    → IsTrail from (hs ++ h ∷ []) h.to_status
IsTrail-step from [] h t e f = (e ∙ sym t, subst (λ s. Follows s h.to_status) (sym t) f, refl)
IsTrail-step from (g ∷ hs) h (e, f, t) e' f' = (e, f, IsTrail-step (some g.to_status) hs h t e' f')

module _ (now : ℕ) (to_status : OrderStatus) (actor : Actor) (note : Option Text)
    (payment : Option Payment) (o : Order) (h : IsConsistent o)
    (gates : (is_cut_gate o.status to_status ≡ true → HasPlan o × (pending_pieces o ≡ 0))
      × (to_status ≡ completed → is_banding_pending o.banding_status ≡ false)
      × (to_status ≡ queued → o.status ≡ confirmed → has_payment payment ≡ true)) where
  abbrev committed : Order
  committed = (commit_transition now to_status actor note payment o).0

  commit-assigned : is_some committed.assigned_at ≡ is_taken committed.status
  unfolding commit_transition is_transition
  commit-assigned = ground arith

  commit-dispatch : is_some committed.dispatched_at ≡ is_dispatched committed.status
  unfolding commit_transition is_transition
  commit-dispatch = ground arith

  commit-paid : is_paid committed.status ≡ true → has_payment (some (payment_of committed)) ≡ true
  unfolding commit_transition is_transition has_payment
  commit-paid = ground arith

  commit-banded :
      is_closed committed.status ≡ true → is_banding_pending committed.banding_status ≡ false
  unfolding commit_transition is_transition
  commit-banded = ground arith

  commit-boards : committed.boards ≡ o.boards
  unfolding commit_transition
  commit-boards = ground arith

  commit-layouts : committed.snapshot_layouts ≡ o.snapshot_layouts
  unfolding commit_transition
  commit-layouts = ground arith

  commit-closing :
      is_past_cutting committed.status ≡ true
      → (is_past_cutting o.status ≡ true) ⊎ (is_cut_gate o.status to_status ≡ true)
  unfolding commit_transition is_transition
  commit-closing = ground arith

  commit-all_cut :
      is_past_cutting committed.status ≡ true → HasPlan committed × (pending_pieces committed ≡ 0)
  unfolding pending_pieces
  commit-all_cut p =
      let (plan, none_left) : HasPlan o × (pending_pieces o ≡ 0) = elim (commit-closing p) [
        | inl e ↦ h.all_cut e
        | inr e ↦ gates.0 e
      ] in
      (
        ap plan_of commit-boards ∙ plan ∙ sym commit-layouts,
        ap (λ bs. sum_by uncut (board_rows bs)) commit-boards ∙ none_left,
      )

  commit-planned : IsPlanned committed
  commit-planned = elim h.planned [
    | inl e ↦ inl (commit-boards ∙ e)
    | inr e ↦ inr (ap plan_of commit-boards ∙ e ∙ sym commit-layouts)
  ]

  commit-IsTrail : IsTrail none committed.history committed.status
  commit-IsTrail = elim (Option-cases (commit_transition now to_status actor note payment o).1) [
    | inl e ↦
        let (edge, same_status, same_history) = commit_ok now to_status actor note payment o e in
        subst {A = List StatusHistory × OrderStatus} (λ r. IsTrail none r.0 r.1)
          (sym (ground (arith, same_history, same_status)))
          (IsTrail-step none o.history (history_row o to_status actor note) h.trail refl (inl edge))
    | inr (e, f) ↦
        subst (λ r. IsTrail none r.history r.status)
          (sym (commit_refused now to_status actor note payment o f)) h.trail
  ]

  pub commit-IsConsistent : IsConsistent committed
  commit-IsConsistent = record {
    trail = commit-IsTrail;
    planned = commit-planned;
    all_cut = commit-all_cut;
    banded = commit-banded;
    assigned = commit-assigned;
    dispatch = commit-dispatch;
    paid = commit-paid;
  }
