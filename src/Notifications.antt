-- ===== src/Notifications.antt =====
-- src/modules/notifications/emitter.py and service.py, with the rows of model.py, and the two queries
-- of src/modules/users/service.py for the recipients. A user is the row of src/modules/users/model.py
-- without the columns that nobody is chosen by. The code of an order is an argument.
mod Tests
pub mod Recipients
pub mod FanOut
pub mod Unread
pub mod Single
use opticutter.Prelude.{
  ℕ, suc, ◌+◌, Bool, true, false, not, ◌&&◌, ◌||◌, Option, none, some, List, [], ◌∷◌, ◌++◌, map,
  filter, length, take, drop, ltb, ◌==◌, if◌then◌else◌, Result, ok, err, entity_not_found,
}
use opticutter.Prelude.Text.{Text, codes, decimal}
use opticutter.Prelude.Stable.{sort_by}
use opticutter.Prelude.Rows.{on_first}
use opticutter.Orders.Status.{
  UserRole, admin, seller, operator, same_role, role_in, OrderStatus, completed, queued, confirmed,
}
use opticutter.Orders.Order.{Actor, Order}

pub record StaffUser : Type 0 where
  pub id : ℕ
  pub role : UserRole
  pub is_active : Bool
  pub branch_id : Option ℕ

pub data NotificationType : Type 0 where
  order_completed order_queued : NotificationType

-- `_Audience`
pub data Audience : Type 0 where
  global_admins_sellers branch_operators : Audience

pub record NotificationPlan : Type 0 where
  pub type : NotificationType
  pub audience : Audience

-- `data`: orderCode and status
pub record NotificationData : Type 0 where
  pub order_code : Option Text
  pub status : OrderStatus

-- `read_at` is `none` while the notification is unread.
pub record Notification : Type 0 where
  pub id : ℕ
  pub user_id : ℕ
  pub type : NotificationType
  pub title : Text
  pub body : Text
  pub order_id : Option ℕ
  pub data_sent : Option NotificationData
  pub read_at : Option ℕ

unfoldable pub resolve_plan : OrderStatus → OrderStatus → Option NotificationPlan
resolve_plan from_status completed =
    some (record { type = order_completed; audience = global_admins_sellers })
resolve_plan confirmed queued = some (record { type = order_queued; audience = branch_operators })
resolve_plan from_status to_status = none

unfoldable pub list_by_roles : List UserRole → List StaffUser → List StaffUser
list_by_roles roles users = filter (λ u. role_in u.role roles && u.is_active) users

-- a column that may be NULL is compared with a number
abbrev pub is_value : Option ℕ → ℕ → Bool
is_value none n = false
is_value (some m) n = m == n

unfoldable pub list_by_role_and_branch : UserRole → ℕ → List StaffUser → List StaffUser
list_by_role_and_branch role branch_id users =
    filter (λ u. same_role u.role role && (is_value u.branch_id branch_id && u.is_active)) users

unfoldable pub recipients : List StaffUser → Audience → Order → List StaffUser
unfolding list_by_roles list_by_role_and_branch
recipients users global_admins_sellers order = list_by_roles (admin ∷ seller ∷ []) users
recipients users branch_operators order = list_by_role_and_branch operator order.branch_id users

-- `order.code or f"#{order.id}"`; an empty code counts as none
unfoldable pub code_or_id : Option Text → ℕ → Text
code_or_id none id = codes "#" ++ decimal id
code_or_id (some []) id = codes "#" ++ decimal id
code_or_id (some (c ∷ cs)) id = c ∷ cs

-- the title and the body
unfoldable pub render : NotificationType → Text → Text × Text
render order_completed code = (
  codes "Orden " ++ code ++ codes " completada",
  codes "La orden " ++ code ++ codes " fue marcada como completada.",
)
render order_queued code = (
  codes "Orden " ++ code ++ codes " en cola",
  codes "La orden " ++ code ++ codes " entró a la cola de producción.",
)

-- the rows that `create_bulk` adds, the `n`-th with the key `ids n`
unfoldable pub new_rows :
    (ℕ → ℕ)
    → ℕ
    → List ℕ
    → NotificationType
    → Text
    → Text
    → Option ℕ
    → Option NotificationData
    → List Notification
new_rows ids n [] type title body order_id data_sent = []
new_rows ids n (user_id ∷ rest) type title body order_id data_sent =
    record {
      id = ids n;
      user_id = user_id;
      type = type;
      title = title;
      body = body;
      order_id = order_id;
      data_sent = data_sent;
      read_at = none;
    }
    ∷ new_rows ids (suc n) rest type title body order_id data_sent

unfoldable pub create_bulk :
    (ℕ → ℕ)
    → List ℕ
    → NotificationType
    → Text
    → Text
    → Option ℕ
    → Option NotificationData
    → List Notification
    → List Notification
unfolding new_rows
create_bulk ids user_ids type title body order_id data_sent rows =
    rows ++ new_rows ids 0 user_ids type title body order_id data_sent

-- `actor.user_id if actor else None`
unfoldable pub acting_id : Option Actor → Option ℕ
acting_id none = none
acting_id (some actor) = actor.user_id

-- the ids of the users that did not act
unfoldable pub others_of : Option ℕ → List StaffUser → List ℕ
others_of actor_id users = map (λ u. u.id) (filter (λ u. not (is_value actor_id u.id)) users)

unfoldable pub emit :
    (ℕ → ℕ)
    → List StaffUser
    → Option Text
    → Order
    → OrderStatus
    → Option Actor
    → NotificationPlan
    → List Notification
    → List Notification
unfolding recipients code_or_id render create_bulk acting_id others_of
emit ids users code order to_status actor plan rows =
    let rendered = render plan.type (code_or_id code order.id) in
    elim (others_of (acting_id actor) (recipients users plan.audience order)) [
      | [] ↦ rows
      | user_id ∷ rest ↦
          create_bulk ids (user_id ∷ rest) plan.type rendered.0 rendered.1 (some order.id)
            (some (record { order_code = code; status = to_status })) rows
    ]

unfoldable pub notify_order_transition :
    (ℕ → ℕ)
    → List StaffUser
    → Option Text
    → Order
    → OrderStatus
    → OrderStatus
    → Option Actor
    → List Notification
    → List Notification
unfolding resolve_plan emit
notify_order_transition ids users code order from_status to_status actor rows =
    elim (resolve_plan from_status to_status) [
      | none ↦ rows
      | some plan ↦ emit ids users code order to_status actor plan rows
    ]

abbrev pub is_unread : Notification → Bool
is_unread n = elim n.read_at [ none ↦ true | some t ↦ false ]

-- the condition `user_id = ? AND read_at IS NULL`
abbrev pub is_unread_of : ℕ → Notification → Bool
is_unread_of user_id n = n.user_id == user_id && is_unread n

-- a page of the user's notifications by descending id, and how many there are
unfoldable pub list_for_user : ℕ → Bool → ℕ → ℕ → List Notification → List Notification × ℕ
list_for_user user_id unread_only limit offset rows =
    let wanted = filter (λ n. n.user_id == user_id && (not unread_only || is_unread n)) rows in
    let ordered = sort_by (λ m n. ltb n.id m.id) wanted in
    (take limit (drop offset ordered), length wanted)

unfoldable pub unread_count : ℕ → List Notification → ℕ
unread_count user_id rows = length (filter (is_unread_of user_id) rows)

-- the row that `mark_read` has loaded, and what it answers
unfoldable pub mark_read_row : ℕ → ℕ → Notification → Notification × Result Notification
mark_read_row user_id now n =
    let read = record n { read_at = some now } in
    if n.user_id == user_id
    then (if is_unread n then (read, ok read) else (n, ok n))
    else (n, err entity_not_found)

unfoldable pub mark_read : ℕ → ℕ → ℕ → List Notification → List Notification × Result Notification
unfolding mark_read_row
mark_read notification_id user_id now rows =
    on_first (λ n. n.id == notification_id) (err entity_not_found) (mark_read_row user_id now) rows

-- the UPDATE of `mark_all_read`, and its number of rows
unfoldable pub mark_all_read : ℕ → ℕ → List Notification → List Notification × ℕ
mark_all_read user_id now [] = ([], 0)
mark_all_read user_id now (n ∷ rows) =
    let rest = mark_all_read user_id now rows in
    if is_unread_of user_id n
    then (record n { read_at = some now } ∷ rest.0, suc rest.1)
    else (n ∷ rest.0, rest.1)
