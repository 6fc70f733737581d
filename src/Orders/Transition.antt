-- ===== src/Orders/Transition.antt =====
-- src/modules/orders/service.py: `transition`, `_apply_transition`, `transition_banding` and
-- `set_external_invoice_id`. Each returns the order as it is afterwards and the error raised, if any.
pub mod Rules
use opticutter.Prelude.{
  ℕ, zero, suc, ◌+◌, Bool, true, false, not, ◌&&◌, ◌||◌, Option, none, some, List, [], ◌∷◌, ◌++◌,
  ltb, if◌then◌else◌, Error, authorization_error, business_rule_error, validation_error,
  conflict_error,
}
use opticutter.Prelude.Text.{Text}
use opticutter.Orders.Status.{
  OrderStatus, confirmed, queued, cutting, cut, completed, dispatched, cancelled, UserRole,
  BandingStatus, not_applicable, pending, in_progress, done, is_banding_pending, is_banding_mutable,
  is_transition, transition_roles, is_banding_transition, banding_transition_roles, role_in,
  same_banding, is_queued, is_confirmed, is_cutting, is_cut, is_completed, is_dispatched,
}
use opticutter.Orders.Order.{Actor, StatusHistory, Payment, Order}
use opticutter.Orders.Plan.{ensure_cutting_plan, pending_pieces}

abbrev pub amount_or_zero : Option ℕ → ℕ
amount_or_zero none = 0
amount_or_zero (some n) = n

unfoldable pub has_payment : Option Payment → Bool
has_payment none = false
has_payment (some p) =
    ltb 0 (amount_or_zero p.cash_amount) || ltb 0 (amount_or_zero p.credit_amount)

-- `if allowed and actor.role not in allowed`
abbrev pub is_refused : UserRole → List UserRole → Bool
is_refused role [] = false
is_refused role (r ∷ rs) = not (role_in role (r ∷ rs))

-- the test of the role, for an actor that has one
unfoldable pub role_refused : Option UserRole → List UserRole → Bool
role_refused none allowed = false
role_refused (some role) allowed = is_refused role allowed

abbrev pub history_row : Order → OrderStatus → Actor → Option Text → StatusHistory
history_row order to_status actor note = record {
  from_status = some order.status;
  to_status = to_status;
  actor = actor.type;
  actor_user_id = actor.user_id;
  actor_label = actor.label;
  note = note;
}

unfoldable pub apply_transition : Order → OrderStatus → Actor → Option Text → Order × Option Error
apply_transition order to_status actor note =
    if is_transition order.status to_status
    then (
      record order {
        history = order.history ++ history_row order to_status actor note ∷ [];
        status = to_status;
      },
      none,
    )
    else (order, some business_rule_error)

-- `current` is the status before the transition
unfoldable pub record_assignment : ℕ → OrderStatus → OrderStatus → Actor → Order → Order
record_assignment now current to_status actor order =
    if is_cutting to_status
    then record order {
      assigned_to_id = actor.user_id;
      assigned_at = some now;
      assigned_to_label = actor.label;
    }
    else if is_queued to_status && is_cutting current
    then record order { assigned_to_id = none; assigned_at = none; assigned_to_label = none }
    else order

unfoldable pub record_dispatch : ℕ → OrderStatus → Actor → Order → Order
record_dispatch now to_status actor order =
    if is_dispatched to_status
    then record order {
      dispatched_at = some now;
      dispatched_by = actor.user_id;
      dispatched_by_label = actor.label;
    }
    else order

unfoldable pub record_payment : Bool → Option Payment → Order → Order
record_payment false payment order = order
record_payment true none order = order
record_payment true (some p) order = record order {
  payment_cash_amount = p.cash_amount;
  payment_credit_amount = p.credit_amount;
}

abbrev pub is_payment_capture : OrderStatus → OrderStatus → Bool
is_payment_capture current to_status = is_queued to_status && is_confirmed current

-- the part of `transition` behind the gates
unfoldable pub commit_transition :
    ℕ → OrderStatus → Actor → Option Text → Option Payment → Order → Order × Option Error
unfolding apply_transition record_assignment record_dispatch record_payment
commit_transition now to_status actor note payment order =
    let current = order.status in
    let (applied, error) = apply_transition order to_status actor note in
    elim error [
      | some e ↦ (order, some e)
      | none ↦ (
        record_payment (is_payment_capture current to_status) payment (
            record_dispatch now to_status actor
              (record_assignment now current to_status actor applied)),
        none,
      )
    ]

-- the gate that closes the cutting stage stores the plan first
abbrev pub is_cut_gate : OrderStatus → OrderStatus → Bool
is_cut_gate current to_status = is_cut to_status && is_cutting current

unfoldable pub gated_transition :
    ℕ → OrderStatus → Actor → Option Text → Option Payment → Order → Order × Option Error
unfolding commit_transition pending_pieces has_payment
gated_transition now to_status actor note payment order =
    if is_cut_gate order.status to_status && ltb 0 (pending_pieces order)
    then (order, some business_rule_error)
    else if is_completed to_status && is_banding_pending order.banding_status
    then (order, some business_rule_error)
    else if is_payment_capture order.status to_status && not (has_payment payment)
    then (order, some validation_error)
    else commit_transition now to_status actor note payment order

unfoldable pub transition :
    (ℕ → ℕ) → ℕ → OrderStatus → Actor → Option Text → Option Payment → Order → Order × Option Error
unfolding role_refused gated_transition ensure_cutting_plan
transition ids now to_status actor note payment order =
    if role_refused actor.role (transition_roles order.status to_status)
    then (order, some authorization_error)
    else gated_transition now to_status actor note payment
        (if is_cut_gate order.status to_status then ensure_cutting_plan ids order else order)

unfoldable pub seal_banding : ℕ → BandingStatus → Actor → Order → Order
seal_banding now in_progress actor order = record order {
  banding_started_at = some now;
  banding_started_by = actor.user_id;
  banding_started_by_label = actor.label;
  banding_status = in_progress;
}
seal_banding now done actor order = record order {
  banding_finished_at = some now;
  banding_finished_by = actor.user_id;
  banding_finished_by_label = actor.label;
  banding_status = done;
}
seal_banding now to_status actor order = record order { banding_status = to_status }

unfoldable pub transition_banding : ℕ → BandingStatus → Actor → Order → Order × Option Error
unfolding role_refused seal_banding
transition_banding now to_status actor order =
    if role_refused actor.role banding_transition_roles
    then (order, some authorization_error)
    else if same_banding order.banding_status not_applicable
    then (order, some business_rule_error)
    else if not (is_banding_mutable order.status)
    then (order, some business_rule_error)
    else if same_banding to_status order.banding_status
    then (order, none)
    else if not (is_banding_transition order.banding_status to_status)
    then (order, some business_rule_error)
    else (seal_banding now to_status actor order, none)
