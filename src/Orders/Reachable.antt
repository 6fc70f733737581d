-- ===== src/Orders/Reachable.antt =====
-- Every order that the service's calls can lead to, from its creation on.
use opticutter.Prelude.{ℕ, Bool, Option, none, some, ◌≡◌, refl, sym, subst, inr, arith}
use opticutter.Prelude.Text.{Text}
use opticutter.Orders.Status.{OrderStatus, BandingStatus}
use opticutter.Orders.Order.{Actor, Payment, Order}
use opticutter.Orders.Plan.{pending_pieces, ensure_cutting_plan, mark_piece_cut}
use opticutter.Orders.Plan.Marking.{attach_boards-plan}
use opticutter.Orders.Transition.{history_row, transition, transition_banding}
use opticutter.Orders.Store.{Quote, new_order, set_external_invoice_id, moved, note_or, moved_note}
use opticutter.Orders.Lifecycle.{IsConsistent, IsTrail-step}
use opticutter.Orders.Lifecycle.Calls.{
  ensure-IsConsistent, mark_piece_cut-IsConsistent, transition-IsConsistent,
  transition_banding-IsConsistent,
}

-- One call on one order; a refused call is a step too.
pub data Reachable : Order → Type 0 where
  created :
      (ids : ℕ → ℕ) (next_id branch_id client_id : ℕ) (actor : Actor) (quote : Quote)
      → Reachable (new_order ids next_id branch_id client_id actor quote)
  planned : (ids : ℕ → ℕ) (o : Order) → Reachable o → Reachable (ensure_cutting_plan ids o)
  transitioned :
      (ids : ℕ → ℕ) (now : ℕ) (to_status : OrderStatus) (actor : Actor) (note : Option Text)
      (payment : Option Payment) (o : Order)
      → Reachable o
      → Reachable (transition ids now to_status actor note payment o).0
  banded :
      (now : ℕ) (to_status : BandingStatus) (actor : Actor) (o : Order)
      → Reachable o
      → Reachable (transition_banding now to_status actor o).0
  marked :
      (ids : ℕ → ℕ) (now : ℕ) (o : Order) (id : ℕ) (is_cut : Bool) (actor : Actor)
      → Reachable o
      → Reachable (mark_piece_cut ids now o id is_cut actor).0
  invoiced :
      (invoice : Text) (o : Order) → Reachable o → Reachable (set_external_invoice_id invoice o).0
  relocated :
      (target : ℕ) (actor : Actor) (note : Option Text) (o : Order)
      → Reachable o
      → Reachable (moved target actor note o)

new_order-IsConsistent :
    (ids : ℕ → ℕ) (next_id branch_id client_id : ℕ) (actor : Actor) (quote : Quote)
    → IsConsistent (new_order ids next_id branch_id client_id actor quote)
unfolding new_order
new_order-IsConsistent ids next_id branch_id client_id actor quote = record {
  trail = (refl, refl, refl);
  planned = inr (attach_boards-plan ids 0 1 quote.layouts);
  all_cut = λ e. absurd (ground (arith, e));
  banded = λ e. absurd (ground (arith, e));
  assigned = refl;
  dispatch = refl;
  paid = λ e. absurd (ground (arith, e));
}

moved-IsConsistent :
    (target : ℕ) (actor : Actor) (note : Option Text) (o : Order)
    → IsConsistent o
    → IsConsistent (moved target actor note o)
unfolding moved pending_pieces
moved-IsConsistent target actor note o h = record {
  trail =
      IsTrail-step none o.history
        (history_row o o.status actor (some (note_or note (moved_note o.branch_id target)))) h.trail
        refl (inr refl);
  planned = h.planned;
  all_cut = h.all_cut;
  banded = h.banded;
  assigned = h.assigned;
  dispatch = h.dispatch;
  paid = h.paid;
}

set_external_invoice_id-IsConsistent :
    (invoice : Text) (o : Order)
    → IsConsistent o
    → IsConsistent (set_external_invoice_id invoice o).0
unfolding set_external_invoice_id pending_pieces
set_external_invoice_id-IsConsistent invoice o h =
    let o' = (set_external_invoice_id invoice o).0 in
    let same : o' ≡ record o { external_invoice_id = o'.external_invoice_id } = ground arith in
    subst IsConsistent (sym same) (record {
      trail = h.trail;
      planned = h.planned;
      all_cut = h.all_cut;
      banded = h.banded;
      assigned = h.assigned;
      dispatch = h.dispatch;
      paid = h.paid;
    })

-- Of every order that the calls lead to: its history starts at its creation, each row starts where
-- the one before it ended, follows the graph or stays, and ends in its status; its plan, once stored,
-- has the pieces of the snapshot; past cutting every piece is cut; once completed its banding is over; it has
-- an assignment just while or after it is cut, a dispatch just when it is dispatched, and a payment
-- from the queue on.
pub Reachable-IsConsistent : (o : Order) → Reachable o → IsConsistent o
Reachable-IsConsistent _ (created ids next_id branch_id client_id actor quote) =
    new_order-IsConsistent ids next_id branch_id client_id actor quote
Reachable-IsConsistent _ (planned ids o r) = ensure-IsConsistent ids o (Reachable-IsConsistent o r)
Reachable-IsConsistent _ (transitioned ids now to_status actor note payment o r) =
    transition-IsConsistent ids now to_status actor note payment o (Reachable-IsConsistent o r)
Reachable-IsConsistent _ (banded now to_status actor o r) =
    transition_banding-IsConsistent now to_status actor o (Reachable-IsConsistent o r)
Reachable-IsConsistent _ (marked ids now o id is_cut actor r) =
    mark_piece_cut-IsConsistent ids now o id is_cut actor (Reachable-IsConsistent o r)
Reachable-IsConsistent _ (invoiced invoice o r) =
    set_external_invoice_id-IsConsistent invoice o (Reachable-IsConsistent o r)
Reachable-IsConsistent _ (relocated target actor note o r) =
    moved-IsConsistent target actor note o (Reachable-IsConsistent o r)
