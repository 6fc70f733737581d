-- ===== src/Notifications/Recipients.antt =====
-- Whom `resolve_plan` and `_recipients` choose for a transition, against who should be told.
use opticutter.Prelude.{
  ℕ, ◌≡◌, ◌≢◌, refl, ◌⊎◌, inl, inr, Bool, true, false, not, ◌&&◌, Option, none, some, List, [], ◌∷◌,
  filter, Bool-cases, arith,
}
use opticutter.Orders.Status.{
  same_role, role_in, UserRole, admin, seller, operator, bander, OrderStatus, completed, queued,
  confirmed,
}
use opticutter.Orders.Order.{Order}
use opticutter.Notifications.{
  StaffUser, order_completed, order_queued, Audience, global_admins_sellers, branch_operators,
  NotificationPlan, resolve_plan, list_by_roles, is_value, list_by_role_and_branch, recipients,
}

-- The active users that a transition concerns, but for the one that made it.
abbrev pub Notified : OrderStatus → OrderStatus → Order → Option ℕ → StaffUser → Type 0
Notified from_status to_status order acting u =
    (u.is_active ≡ true)
    × (is_value acting u.id ≡ false)
    × (((to_status ≡ completed) × ((u.role ≡ admin) ⊎ (u.role ≡ seller)))
        ⊎ ((from_status ≡ confirmed)
            × (to_status ≡ queued)
            × (u.role ≡ operator)
            × (is_value u.branch_id order.branch_id ≡ true)))

-- whom an audience is made of
abbrev pub chosen : Audience → Order → StaffUser → Bool
chosen global_admins_sellers order u = role_in u.role (admin ∷ seller ∷ []) && u.is_active
chosen branch_operators order u =
    same_role u.role operator && (is_value u.branch_id order.branch_id && u.is_active)

pub recipients-chosen :
    (users : List StaffUser) (audience : Audience) (order : Order)
    → recipients users audience order ≡ filter (chosen audience order) users
unfolding recipients list_by_roles list_by_role_and_branch
recipients-chosen users global_admins_sellers order = refl
recipients-chosen users branch_operators order = refl

role_in-office :
    (role : UserRole)
    → ((role_in role (admin ∷ seller ∷ []) ≡ true) × ((role ≡ admin) ⊎ (role ≡ seller)))
      ⊎ ((role_in role (admin ∷ seller ∷ []) ≡ false) × ¬ ((role ≡ admin) ⊎ (role ≡ seller)))
role_in-office admin = inl (refl, inl refl)
role_in-office seller = inl (refl, inr refl)
role_in-office operator = inr (refl, ground arith)
role_in-office bander = inr (refl, ground arith)

same_role-operator :
    (role : UserRole)
    → ((same_role role operator ≡ true) × (role ≡ operator))
      ⊎ ((same_role role operator ≡ false) × (role ≢ operator))
same_role-operator admin = inr (refl, ground arith)
same_role-operator seller = inr (refl, ground arith)
same_role-operator operator = inl (refl, refl)
same_role-operator bander = inr (refl, ground arith)

abbrev pub reached : Audience → Order → Option ℕ → StaffUser → Bool
reached audience order acting u = chosen audience order u && not (is_value acting u.id)

-- the test decides who is notified
abbrev pub Decides : Bool → Type 0 → Type 0
Decides b P = ((b ≡ true) × P) ⊎ ((b ≡ false) × ¬ P)

pub completed-Notified :
    (from_status : OrderStatus) (order : Order) (acting : Option ℕ) (u : StaffUser)
    → Decides
        (reached global_admins_sellers order acting u)
        (Notified from_status completed order acting u)
completed-Notified from_status order acting u = elim (role_in-office u.role) [
  | inr (e, fails) ↦
      inr (rw e refl, λ n. elim n.2 [ inl c ↦ fails c.1 | inr c ↦ ground (arith, c.1) ])
  | inl (e, holds) ↦ elim (Bool-cases u.is_active) [
    | inr f ↦ inr (rw (e, f) refl, λ n. ground (arith, f, n.0))
    | inl f ↦ elim (Bool-cases (is_value acting u.id)) [
      | inl g ↦ inr (rw (e, f, g) refl, λ n. ground (arith, g, n.1))
      | inr g ↦ inl (rw (e, f, g) refl, (f, g, inl (refl, holds)))
    ]
  ]
]

pub queued-Notified :
    (order : Order) (acting : Option ℕ) (u : StaffUser)
    → Decides (reached branch_operators order acting u) (Notified confirmed queued order acting u)
queued-Notified order acting u = elim (same_role-operator u.role) [
  | inr (e, fails) ↦
      inr (rw e refl, λ n. elim n.2 [ inl c ↦ ground (arith, c.0) | inr c ↦ fails c.2 ])
  | inl (e, holds) ↦ elim (Bool-cases (is_value u.branch_id order.branch_id)) [
    | inr b ↦ inr (
      rw (e, b) refl,
      λ n. elim n.2 [ inl c ↦ ground (arith, c.0) | inr c ↦ ground (arith, b, c.3) ],
    )
    | inl b ↦ elim (Bool-cases u.is_active) [
      | inr f ↦ inr (rw (e, b, f) refl, λ n. ground (arith, f, n.0))
      | inl f ↦ elim (Bool-cases (is_value acting u.id)) [
        | inl g ↦ inr (rw (e, b, f, g) refl, λ n. ground (arith, g, n.1))
        | inr g ↦ inl (rw (e, b, f, g) refl, (f, g, inr (refl, refl, holds, b)))
      ]
    ]
  ]
]

-- What `resolve_plan` returns, and the transitions that it returns that for.
abbrev pub IsPlan : OrderStatus → OrderStatus → Option NotificationPlan → Type 0
IsPlan from_status to_status plan =
    ((to_status ≡ completed)
      × (plan ≡ some (record { type = order_completed; audience = global_admins_sellers })))
    ⊎ ((from_status ≡ confirmed)
        × (to_status ≡ queued)
        × (plan ≡ some (record { type = order_queued; audience = branch_operators })))
    ⊎ (¬ (to_status ≡ completed)
        × ¬ ((from_status ≡ confirmed) × (to_status ≡ queued))
        × (plan ≡ none))

pub resolve_plan-IsPlan :
    (from_status to_status : OrderStatus)
    → IsPlan from_status to_status (resolve_plan from_status to_status)
unfolding resolve_plan
resolve_plan-IsPlan from_status completed = inl (refl, refl)
resolve_plan-IsPlan confirmed queued = inr (inl (refl, refl, refl))
resolve_plan-IsPlan from_status to_status = inr (inr (ground arith, ground arith, ground arith))
