-- ===== src/Notifications/FanOut.antt =====
-- Who is told of a transition of an order.
use opticutter.Prelude.{
  filter-filter, List-cases, ℕ, zero, suc, ◌+◌, ◌≡◌, refl, sym, ap, subst, ◌∙◌, ◌⊎◌, inl, inr, Bool,
  true, false, not, Option, none, some, List, [], ◌∷◌, ◌++◌, map, append-nil, filter, length, All,
  AllPairs, All-get, get_elem?, ◌==◌, Bool-cases, arith,
}
use opticutter.Prelude.Text.{Text}
use mathlib.Core.Option.{some-injective}
use opticutter.Orders.Status.{OrderStatus}
use opticutter.Orders.Order.{Actor, Order}
use opticutter.Notifications.{
  StaffUser, NotificationType, order_completed, order_queued, global_admins_sellers,
  branch_operators, NotificationPlan, NotificationData, Notification, is_value, recipients,
  code_or_id, render, new_rows, create_bulk, acting_id, others_of, emit, notify_order_transition,
  unread_count,
}
use opticutter.Notifications.Unread.{unread_count-append}
use opticutter.Notifications.Recipients.{
  Notified, chosen, recipients-chosen, reached, Decides, completed-Notified, queued-Notified,
  resolve_plan-IsPlan,
}

-- how often an id is in the list
abbrev times : ℕ → List ℕ → ℕ
times id ids = length (filter (λ i. i == id) ids)

abbrev pub DistinctIds : List StaffUser → Type 0
DistinctIds users = AllPairs (λ a b. (a.id == b.id) ≡ false) users

times-absent :
    (id : ℕ) (p : StaffUser → Bool) (users : List StaffUser)
    → All (λ u. (id == u.id) ≡ false) users
    → times id (map (λ u. u.id) (filter p users)) ≡ 0
times-absent id p [] h = refl
times-absent id p (u ∷ users) h = elim (Bool-cases (p u)) [
  | inl e ↦ rw e ground (arith, h.0, times-absent id p users h.1)
  | inr e ↦ rw e (times-absent id p users h.1)
]

abbrev once : Bool → ℕ
once true = 1
once false = 0

times-get :
    (p : StaffUser → Bool) (users : List StaffUser) (i : ℕ) {u : StaffUser}
    → DistinctIds users
    → get_elem? users i ≡ some u
    → times u.id (map (λ v. v.id) (filter p users)) ≡ once (p u)
times-get p [] i d e = absurd (ground arith)
times-get p (v ∷ users) zero {u} d e =
    let same : v ≡ u = some-injective _ _ e in
    subst (λ w. times w.id (map (λ x. x.id) (filter p (v ∷ users))) ≡ once (p w)) same
      (elim (Bool-cases (p v)) [
        | inl f ↦ rw f ground (arith, times-absent v.id p users d.0)
        | inr f ↦ rw f (times-absent v.id p users d.0)
      ])
times-get p (v ∷ users) (suc i) {u} d e =
    let other = All-get (λ b. (v.id == b.id) ≡ false) users i e d.0 in
    let rest = times-get p users i d.1 e in
    elim (Bool-cases (p v)) [ inl f ↦ rw f (rw other rest) | inr f ↦ rw f rest ]

unread_count-new_rows :
    (ids : ℕ → ℕ) (n id : ℕ) (uids : List ℕ) (type : NotificationType) (title body : Text)
    (order_id : Option ℕ) (sent : Option NotificationData)
    → unread_count id (new_rows ids n uids type title body order_id sent) ≡ times id uids
unfolding unread_count new_rows
unread_count-new_rows ids n id [] type title body order_id sent = refl
unread_count-new_rows ids n id (i ∷ uids) type title body order_id sent =
    let rest = unread_count-new_rows ids (suc n) id uids type title body order_id sent in
    elim (Bool-cases (i == id)) [ inl e ↦ rw e (ap suc rest) | inr e ↦ rw e rest ]

-- the rows are unread and about the order
new_rows-about :
    (ids : ℕ → ℕ) (n : ℕ) (uids : List ℕ) (type : NotificationType) (title body : Text)
    (order_id : Option ℕ) (sent : Option NotificationData)
    → All
        (λ r. (r.order_id ≡ order_id) × (r.read_at ≡ none))
        (new_rows ids n uids type title body order_id sent)
unfolding new_rows
new_rows-about ids n [] type title body order_id sent = tt
new_rows-about ids n (i ∷ uids) type title body order_id sent =
    ((refl, refl), new_rows-about ids (suc n) uids type title body order_id sent)

-- The rows after a transition, as they concern one user.
pub record IsFanOut (from_status to_status : OrderStatus) (order : Order) (acting : Option ℕ)
    (u : StaffUser) (before after : List Notification) : Type 0 where
  pub added : List Notification
  pub kept : after ≡ before ++ added
  pub about : All (λ r. (r.order_id ≡ some order.id) × (r.read_at ≡ none)) added
  pub told :
      (Notified from_status to_status order acting u
        × (unread_count u.id after ≡ suc (unread_count u.id before)))
      ⊎ (¬ Notified from_status to_status order acting u
          × (unread_count u.id after ≡ unread_count u.id before))

emit-rows :
    (ids : ℕ → ℕ) (users : List StaffUser) (code : Option Text) (order : Order)
    (to_status : OrderStatus) (actor : Option Actor) (plan : NotificationPlan)
    (rows : List Notification)
    → let rendered = render plan.type (code_or_id code order.id) in
      emit ids users code order to_status actor plan rows
      ≡ rows
        ++ new_rows ids 0
            (others_of (acting_id actor) (recipients users plan.audience order))
            plan.type
            rendered.0
            rendered.1
            (some order.id)
            (some (record { order_code = code; status = to_status }))
unfolding emit create_bulk new_rows
emit-rows ids users code order to_status actor plan rows =
    elim (List-cases (others_of (acting_id actor) (recipients users plan.audience order))) [
      | inl e ↦ rw (e, emit) (sym (append-nil rows))
      | inr (i, rest, e) ↦ rw (e, emit) refl
    ]

told-cases :
    (b : Bool) {P : Type 0} (before after : ℕ)
    → Decides b P
    → after ≡ before + once b
    → (P × (after ≡ suc before)) ⊎ (¬ P × (after ≡ before))
told-cases b before after (inl (e, p)) h = inl (p, ground (arith, e, h))
told-cases b before after (inr (e, p)) h = inr (p, ground (arith, e, h))

-- the effect of a plan whose audience decides who is notified
emit-IsFanOut :
    (ids : ℕ → ℕ) (users : List StaffUser) (code : Option Text) (order : Order)
    (from_status to_status : OrderStatus) (actor : Option Actor) (plan : NotificationPlan)
    (rows : List Notification) (i : ℕ) {u : StaffUser}
    → DistinctIds users
    → get_elem? users i ≡ some u
    → Decides
        (reached plan.audience order (acting_id actor) u)
        (Notified from_status to_status order (acting_id actor) u)
    → IsFanOut from_status to_status order
        (acting_id actor)
        u
        rows
        (emit ids users code order to_status actor plan rows)
unfolding others_of
emit-IsFanOut ids users code order from_status to_status actor plan rows i {u} distinct e d =
    let acting = acting_id actor in
    let told_ids = others_of acting (recipients users plan.audience order) in
    let rendered = render plan.type (code_or_id code order.id) in
    let sent = some (record { order_code = code; status = to_status }) in
    let added = new_rows ids 0 told_ids plan.type rendered.0 rendered.1 (some order.id) sent in
    let kept = emit-rows ids users code order to_status actor plan rows in
    let selected : filter (λ v. not (is_value acting v.id)) (recipients users plan.audience order)
        ≡ filter (reached plan.audience order acting) users =
      ap (filter (λ v. not (is_value acting v.id))) (recipients-chosen users plan.audience order)
      ∙ filter-filter (chosen plan.audience order) (λ v. not (is_value acting v.id)) users in
    let counted : unread_count u.id added ≡ once (reached plan.audience order acting u) =
      unread_count-new_rows ids 0 u.id told_ids plan.type rendered.0 rendered.1 (some order.id) sent
      ∙ ap (λ vs. times u.id (map (λ v. v.id) vs)) selected
      ∙ times-get (reached plan.audience order acting) users i distinct e in
    record {
      added = added;
      kept = kept;
      about = new_rows-about ids 0 told_ids plan.type rendered.0 rendered.1 (some order.id) sent;
      told = told-cases (reached plan.audience order acting u) _ _ d (
          ap (unread_count u.id) kept
          ∙ unread_count-append u.id rows added
          ∙ ap (λ k. unread_count u.id rows + k) counted);
    }

-- Where no two users have the same id: a transition keeps every notification and adds some, unread
-- and about the order. A user of the table has one more of them unread just when the user is active,
-- did not make the transition, and is an administrator or seller where the order is completed, or an
-- operator of its branch where it goes from confirmed to queued; the count of others is as it was.
pub notify_order_transition-IsFanOut :
    (ids : ℕ → ℕ) (users : List StaffUser) (code : Option Text) (order : Order)
    (from_status to_status : OrderStatus) (actor : Option Actor) (rows : List Notification) (i : ℕ)
    {u : StaffUser}
    → DistinctIds users
    → get_elem? users i ≡ some u
    → IsFanOut from_status to_status order
        (acting_id actor)
        u
        rows
        (notify_order_transition ids users code order from_status to_status actor rows)
unfolding notify_order_transition
notify_order_transition-IsFanOut ids users code order from_status to_status actor rows i {u}
      distinct e =
    elim (resolve_plan-IsPlan from_status to_status) [
      | inl (at, p) ↦
          rw (p, notify_order_transition)
            (emit-IsFanOut ids users code order from_status to_status actor
              (record { type = order_completed; audience = global_admins_sellers }) rows i distinct
              e (rw at (completed-Notified from_status order (acting_id actor) u)))
      | inr (inl (since, at, p)) ↦
          rw (p, notify_order_transition)
            (emit-IsFanOut ids users code order from_status to_status actor
              (record { type = order_queued; audience = branch_operators }) rows i distinct e
              (rw (since, at) (queued-Notified order (acting_id actor) u)))
      | inr (inr (open_yet, waits, p)) ↦
          rw (p, notify_order_transition)
            (record {
              added = [];
              kept = sym (append-nil rows);
              about = tt;
              told = inr (λ n. elim n.2 [ inl c ↦ open_yet c.0 | inr c ↦ waits (c.0, c.1) ], refl);
            })
    ]
