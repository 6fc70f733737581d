-- ===== src/Notifications/Tests.antt =====
-- Concrete users and notifications: a queued order is announced to the operators of its branch.
use opticutter.Prelude.{ℕ, ◌+◌, ◌≡◌, ◌⊎◌, refl, true, false, none, some, List, [], ◌∷◌, map}
use opticutter.Prelude.Text.{codes}
use opticutter.Orders.Status.{admin, operator, confirmed, queued}
use opticutter.Orders.Order.{staff, Actor, Order}
use opticutter.Orders.Store.{Quote, new_order}
use opticutter.Notifications.{
  StaffUser, order_queued, Notification, acting_id, notify_order_transition, resolve_plan, emit,
  recipients, list_by_roles, list_by_role_and_branch, others_of, create_bulk, new_rows, mark_read,
  mark_all_read,
}
use opticutter.Notifications.FanOut.{IsFanOut, notify_order_transition-IsFanOut}
use opticutter.Notifications.Unread.{IsAllRead, mark_all_read-IsAllRead}
use opticutter.Notifications.Single.{IsRead, IsRefused, mark_read-cases}

abbrev keys : ℕ → ℕ
keys k = 20 + k

abbrev boss : Actor
boss = record { type = staff; user_id = some 1; label = none; role = some admin }

abbrev staff_users : List StaffUser
staff_users =
    record { id = 1; role = admin; is_active = true; branch_id = none }
    ∷ record { id = 2; role = operator; is_active = true; branch_id = some 5 }
    ∷ record { id = 3; role = operator; is_active = true; branch_id = some 6 }
    ∷ []

abbrev quote : Quote
quote = record {
  layouts = [];
  optimization_hash = 7 ∷ [];
  tier_code = 8 ∷ [];
  services_total = 0;
  has_banding = false;
}

abbrev order : Order
order = new_order keys 1 5 1 boss quote

notify_order_transition-IsFanOut_example :
    IsFanOut confirmed queued order
      (some 1)
      (record { id = 2; role = operator; is_active = true; branch_id = some 5 })
      []
      (notify_order_transition keys staff_users none order confirmed queued (some boss) [])
unfolding acting_id
notify_order_transition-IsFanOut_example =
    notify_order_transition-IsFanOut keys staff_users none order confirmed queued (some boss) [] 1
      ((refl, (refl, tt)), ((refl, tt), (tt, tt))) refl

told_users :
    map
      (λ n. n.user_id)
      (notify_order_transition keys staff_users none order confirmed queued (some boss) [])
    ≡ 2 ∷ []
unfolding notify_order_transition resolve_plan emit recipients list_by_roles list_by_role_and_branch
    others_of create_bulk new_rows acting_id new_order
told_users = refl

abbrev note : ℕ → ℕ → Notification
note id user_id = record {
  id = id;
  user_id = user_id;
  type = order_queued;
  title = codes "Orden";
  body = [];
  order_id = none;
  data_sent = none;
  read_at = none;
}

abbrev notes : List Notification
notes = note 1 2 ∷ note 2 3 ∷ note 3 2 ∷ []

mark_all_read-IsAllRead_example : IsAllRead 2 3 99 notes (mark_all_read 2 99 notes)
mark_all_read-IsAllRead_example = mark_all_read-IsAllRead 2 3 99 notes refl

mark_read-cases_example :
    IsRead 3 2 99 100 notes (mark_read 3 2 99 notes) ⊎ IsRefused 3 2 notes (mark_read 3 2 99 notes)
mark_read-cases_example = mark_read-cases 3 2 99 100 notes
