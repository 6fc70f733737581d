-- ===== src/Orders/Store.antt =====
-- The orders together, in src/modules/orders/service.py: `create`, `_find_active_duplicate`,
-- `change_branch` and `set_external_invoice_id`. What `compute`, `resolve_price_tier` and
-- `build_pricing` return for a request is the argument `quote`. The table is a list in the order of its
-- rows, and `next_id` is the key that the database gives a new row.
pub mod Unique
pub mod Relocation
use opticutter.Prelude.{
  ℕ, zero, suc, Bool, true, false, not, ◌&&◌, ◌||◌, Option, none, some, List, [], ◌∷◌, ◌++◌, ◌==◌,
  if◌then◌else◌, Error, Result, ok, err, business_rule_error, conflict_error, entity_not_found,
}
use opticutter.Prelude.Text.{Text, decimal, same_text}
use opticutter.Branches.{Branch, resolve_branch_for_create, hidden}
use opticutter.Orders.Status.{
  OrderStatus, confirmed, is_confirmed, is_queued, is_terminal, BandingStatus, not_applicable,
  pending,
}
use opticutter.Orders.Order.{Actor, SnapshotPiece, StatusHistory, Order}
use opticutter.Orders.Plan.{attach_boards}
use opticutter.Orders.Transition.{history_row}

-- `get_or_404`
unfoldable pub find_order : ℕ → List Order → Option Order
find_order id [] = none
find_order id (o ∷ os) = if o.id == id then some o else find_order id os

unfoldable pub get_scoped_or_404 : ℕ → Option ℕ → List Order → Result Order
unfolding find_order hidden
get_scoped_or_404 id scope orders = elim (find_order id orders) [
  | none ↦ err entity_not_found
  | some o ↦ if hidden scope o.branch_id then err entity_not_found else ok o
]

-- the commit of a changed order
unfoldable pub put : Order → List Order → List Order
put o [] = []
put o (p ∷ ps) = let rest = put o ps in if p.id == o.id then o ∷ ps else p ∷ rest

-- the filter of the query
unfoldable pub is_active_duplicate : ℕ → ℕ → Text → Text → ℕ → Order → Bool
is_active_duplicate branch_id client_id hash tier services o =
    o.branch_id == branch_id
    && (o.client_id == client_id
        && (same_text o.optimization_hash hash
            && (same_text o.price_tier_code tier
                && (o.additional_services_total == services && not (is_terminal o.status)))))

unfoldable pub find_active_duplicate : ℕ → ℕ → Text → Text → ℕ → List Order → Option Order
unfolding is_active_duplicate
find_active_duplicate branch_id client_id hash tier services [] = none
find_active_duplicate branch_id client_id hash tier services (o ∷ os) =
    if is_active_duplicate branch_id client_id hash tier services o
    then some o
    else find_active_duplicate branch_id client_id hash tier services os

-- what the order takes from the optimization, the price tier and the pricing
pub record Quote : Type 0 where
  pub layouts : List (List SnapshotPiece)
  pub optimization_hash : Text
  pub tier_code : Text
  pub services_total : ℕ
  pub has_banding : Bool

-- "Orden creada"
abbrev pub created_note : Text
created_note = 79 ∷ 114 ∷ 100 ∷ 101 ∷ 110 ∷ 32 ∷ 99 ∷ 114 ∷ 101 ∷ 97 ∷ 100 ∷ 97 ∷ []

unfoldable pub new_order : (ℕ → ℕ) → ℕ → ℕ → ℕ → Actor → Quote → Order
unfolding attach_boards
new_order ids next_id branch_id client_id actor quote = record {
  id = next_id;
  client_id = client_id;
  branch_id = branch_id;
  status = confirmed;
  banding_status = if quote.has_banding then pending else not_applicable;
  snapshot_layouts = quote.layouts;
  optimization_hash = quote.optimization_hash;
  price_tier_code = quote.tier_code;
  additional_services_total = quote.services_total;
  external_invoice_id = none;
  assigned_to_id = none;
  assigned_at = none;
  assigned_to_label = none;
  dispatched_at = none;
  dispatched_by = none;
  dispatched_by_label = none;
  payment_cash_amount = none;
  payment_credit_amount = none;
  banding_started_at = none;
  banding_started_by = none;
  banding_started_by_label = none;
  banding_finished_at = none;
  banding_finished_by = none;
  banding_finished_by_label = none;
  boards = attach_boards ids 0 1 quote.layouts;
  history =
      record {
        from_status = none;
        to_status = confirmed;
        actor = actor.type;
        actor_user_id = actor.user_id;
        actor_label = actor.label;
        note = some created_note;
      }
      ∷ [];
}

unfoldable pub create_unless_duplicate :
    (ℕ → ℕ) → ℕ → ℕ → ℕ → Actor → Quote → List Order → List Order × Result Order
unfolding find_active_duplicate new_order
create_unless_duplicate ids next_id branch_id client_id actor quote orders =
    elim (find_active_duplicate branch_id client_id quote.optimization_hash quote.tier_code
      quote.services_total orders) [
        | some o ↦ (orders, ok o)
        | none ↦
            let o = new_order ids next_id branch_id client_id actor quote in
            (orders ++ o ∷ [], ok o)
      ]

-- A client of the database: its phone, if one is on file.
pub record Client : Type 0 where
  pub id : ℕ
  pub has_phone : Bool

unfoldable pub find_client : ℕ → List Client → Option Client
find_client id [] = none
find_client id (c ∷ cs) = if c.id == id then some c else find_client id cs

-- `db.get(ClientModel, id)`, then `require_phone`
unfoldable pub check_client : List Client → ℕ → Result Client
unfolding find_client
check_client clients id = elim (find_client id clients) [
  | none ↦ err entity_not_found
  | some c ↦ if c.has_phone then ok c else err business_rule_error
]

unfoldable pub create :
    List Client
    → List Branch
    → Result Quote
    → (ℕ → ℕ)
    → ℕ
    → ℕ
    → Option ℕ
    → Actor
    → List Order
    → List Order × Result Order
unfolding check_client resolve_branch_for_create create_unless_duplicate
create clients branches quote ids next_id client_id requested actor orders =
    elim (check_client clients client_id) [
      | err e ↦ (orders, err e)
      | ok c ↦ elim (resolve_branch_for_create branches none requested none) [
        | err e ↦ (orders, err e)
        | ok branch_id ↦ elim quote [
          | err e ↦ (orders, err e)
          | ok q ↦ create_unless_duplicate ids next_id branch_id client_id actor q orders
        ]
      ]
    ]

unfoldable pub set_external_invoice_id : Text → Order → Order × Option Error
set_external_invoice_id invoice o =
    let stored = record o { external_invoice_id = some invoice } in
    elim o.external_invoice_id [
      | none ↦ (stored, none)
      | some old ↦ if same_text old invoice then (stored, none) else (o, some conflict_error)
    ]

-- "Sucursal cambiada de {old} a {new}"
abbrev pub moved_note : ℕ → ℕ → Text
moved_note old new =
    83
    ∷ 117
    ∷ 99
    ∷ 117
    ∷ 114
    ∷ 115
    ∷ 97
    ∷ 108
    ∷ 32
    ∷ 99
    ∷ 97
    ∷ 109
    ∷ 98
    ∷ 105
    ∷ 97
    ∷ 100
    ∷ 97
    ∷ 32
    ∷ 100
    ∷ 101
    ∷ 32
    ∷ (decimal old ++ 32 ∷ 97 ∷ 32 ∷ decimal new)

-- `note or moved_note`
abbrev pub note_or : Option Text → Text → Text
note_or none other = other
note_or (some []) other = other
note_or (some (c ∷ cs)) other = c ∷ cs

unfoldable pub moved : ℕ → Actor → Option Text → Order → Order
moved target actor note o = record o {
  branch_id = target;
  history =
      o.history
      ++ history_row o o.status actor (some (note_or note (moved_note o.branch_id target))) ∷ [];
}

-- The search for a duplicate leaves the services total at its default, 0.
unfoldable pub is_blocked : ℕ → Order → List Order → Bool
unfolding find_active_duplicate
is_blocked target o orders =
    elim (find_active_duplicate target o.client_id o.optimization_hash o.price_tier_code 0 orders) [
      | none ↦ false
      | some p ↦ not (p.id == o.id)
    ]

unfoldable pub move_to : ℕ → Actor → Option Text → Order → List Order → List Order × Result Order
unfolding is_blocked moved put
move_to target actor note o orders =
    if target == o.branch_id
    then (orders, ok o)
    else if is_blocked target o orders
    then (orders, err conflict_error)
    else let o' = moved target actor note o in (put o' orders, ok o')

unfoldable pub change_branch :
    List Branch → ℕ → ℕ → Actor → Option Text → Option ℕ → List Order → List Order × Result Order
unfolding get_scoped_or_404 resolve_branch_for_create move_to
change_branch branches order_id target_branch_id actor note scope orders =
    elim (get_scoped_or_404 order_id scope orders) [
      | err e ↦ (orders, err e)
      | ok o ↦
          if is_confirmed o.status || is_queued o.status
          then (elim (resolve_branch_for_create branches none (some target_branch_id) none) [
            | err e ↦ (orders, err e)
            | ok target ↦ move_to target actor note o orders
          ])
          else (orders, err business_rule_error)
    ]
