-- ===== src/Orders/Tests.antt =====
-- Concrete orders: what the theorems on the order service say of them.
use opticutter.Prelude.{
  ℕ, ◌+◌, ◌≡◌, refl, ap, true, false, none, some, List, [], ◌∷◌, ◌++◌, Result, ok,
  authorization_error, arith,
}
use opticutter.Branches.{
  Branch, resolve_branch_for_create, chosen_branch, check_branch, find_branch,
}
use opticutter.Orders.Status.{
  queued, cutting, cut, admin, operator, is_transition, transition_roles,
}
use opticutter.Orders.Order.{staff, Actor, SnapshotPiece, Payment, Order}
use opticutter.Orders.Plan.{
  update_boards, update_row, attach_boards, attach_rows, ensure_boards, ensure_cutting_plan,
  board_rows, pending_pieces, find_row, mark_row, progress, mark_piece_cut,
}
use opticutter.Orders.Plan.Lookup.{mark_piece_cut_twice}
use opticutter.Orders.Transition.{
  role_refused, has_payment, apply_transition, commit_transition, gated_transition, transition,
  history_row,
}
use opticutter.Orders.Transition.Rules.{
  IsAllowed, IsRefusal, at_gates, transition_ok, transition_refused,
}
use opticutter.Orders.Lifecycle.{IsConsistent}
use opticutter.Orders.Store.{
  Quote, new_order, Client, create, change_branch, is_active_duplicate, find_active_duplicate,
  check_client, find_client, create_unless_duplicate,
}
use opticutter.Orders.Store.Unique.{same_active, IsUnique, create-IsUnique, create_again}
use opticutter.Orders.Store.Relocation.{IsKeyed, IsUniqueUnserviced, change_branch-unserviced}
use opticutter.Orders.Reachable.{created, transitioned, Reachable-IsConsistent}

abbrev ids : ℕ → ℕ
ids k = 10 + k

abbrev boss : Actor
boss = record { type = staff; user_id = some 1; label = none; role = some admin }

abbrev cutter : Actor
cutter = record { type = staff; user_id = some 2; label = none; role = some operator }

abbrev placed : ℕ → SnapshotPiece
placed x = record { piece_id = 65 ∷ []; x = x; y = 0; width = 40; height = 30; rotated = false }

abbrev quote : Quote
quote = record {
  layouts = (placed 0 ∷ placed 43 ∷ []) ∷ [];
  optimization_hash = 7 ∷ [];
  tier_code = 8 ∷ [];
  services_total = 0;
  has_banding = false;
}

abbrev order : Order
order = new_order ids 1 1 5 boss quote

abbrev cash : Payment
cash = record { cash_amount = some 100; credit_amount = none }

abbrev in_cutting : Order
in_cutting = record order { status = cutting }

queue_runs : (transition ids 0 queued boss none (some cash) order).1 ≡ none
unfolding transition role_refused gated_transition transition_roles new_order has_payment
    commit_transition apply_transition is_transition
queue_runs = refl

transition_ok_example :
    let order' = (transition ids 0 queued boss none (some cash) order).0 in
    IsAllowed queued boss (some cash) order
    × (order'.status ≡ queued)
    × (order'.history ≡ order.history ++ history_row order queued boss none ∷ [])
    × (queued ≡ cut → pending_pieces (at_gates ids 0 queued boss none (some cash) order) ≡ 0)
transition_ok_example = transition_ok ids 0 queued boss none (some cash) order queue_runs

queue_denied : (transition ids 0 queued cutter none (some cash) order).1 ≡ some authorization_error
unfolding transition role_refused transition_roles new_order
queue_denied = refl

transition_refused_example :
    IsRefusal queued order (transition ids 0 queued cutter none (some cash) order).0
transition_refused_example =
    transition_refused ids 0 queued cutter none (some cash) order queue_denied

second_marked :
    (mark_piece_cut ids 9 in_cutting 11 true cutter).1
    ≡ ok (record { cut_pieces = 1; total_pieces = 2 })
unfolding mark_piece_cut new_order attach_boards attach_rows ensure_cutting_plan ensure_boards
    board_rows find_row update_boards update_row mark_row progress
second_marked = refl

mark_piece_cut_twice_example :
    mark_piece_cut ids 12 (mark_piece_cut ids 9 in_cutting 11 true cutter).0 11 true boss
    ≡ mark_piece_cut ids 9 in_cutting 11 true cutter
mark_piece_cut_twice_example = mark_piece_cut_twice ids ids 9 12 in_cutting 11 true cutter boss

abbrev queued_order : Order
queued_order = (transition ids 0 queued boss none (some cash) order).0

Reachable-IsConsistent_example : IsConsistent queued_order
Reachable-IsConsistent_example =
    Reachable-IsConsistent queued_order
      (transitioned ids 0 queued boss none (some cash) order (created ids 1 1 5 boss quote))

abbrev clients : List Client
clients = record { id = 5; has_phone = true } ∷ []

abbrev branches : List Branch
branches = record { id = 1; is_active = true } ∷ record { id = 2; is_active = true } ∷ []

abbrev after_create : List Order × Result Order
after_create = create clients branches (ok quote) ids 1 5 (some 1) boss []

create_runs : after_create ≡ (order ∷ [], ok order)
unfolding create check_client find_client resolve_branch_for_create chosen_branch check_branch
    find_branch create_unless_duplicate find_active_duplicate
create_runs = refl

create-IsUnique_example :
    IsUnique (create clients branches (ok quote) ids 2 5 (some 1) boss (order ∷ [])).0
create-IsUnique_example =
    create-IsUnique clients branches (ok quote) 5 (some 1) ids 2 boss (order ∷ []) (tt, tt)

create_again_example :
    create clients branches (ok quote) ids 2 5 (some 1) cutter after_create.0
    ≡ (after_create.0, ok order)
create_again_example =
    create_again clients branches (ok quote) 5 (some 1) ids 1 boss [] ids 2 cutter
      (ap (λ r. r.1) create_runs)

abbrev elsewhere : Order
elsewhere = new_order ids 2 2 6 boss quote

two-IsKeyed : IsKeyed (order ∷ elsewhere ∷ [])
unfolding new_order
two-IsKeyed = (((λ e. omega (arith, e)), tt), (tt, tt))

two_unserviced : IsUniqueUnserviced (order ∷ elsewhere ∷ [])
unfolding new_order same_active is_active_duplicate
two_unserviced = (((λ e. refl), tt), (tt, tt))

change_branch-unserviced_example :
    IsUniqueUnserviced (change_branch branches 1 2 boss none none (order ∷ elsewhere ∷ [])).0
change_branch-unserviced_example =
    change_branch-unserviced branches 1 2 boss none none (order ∷ elsewhere ∷ []) two-IsKeyed
      two_unserviced
