-- ===== src/Orders/Transition/Rules.antt =====
-- What a call of `transition` or `transition_banding` may do, and what a refused one leaves.
use opticutter.Prelude.{
  ℕ, ◌≡◌, ◌⊎◌, refl, sym, ap, ◌∙◌, inl, inr, true, false, Option, none, some, [], ◌∷◌, ◌++◌,
  if◌then◌else◌, Error, Bool-cases, arith,
}
use opticutter.Prelude.Text.{Text}
use opticutter.Orders.Status.{
  OrderStatus, confirmed, queued, cutting, cut, completed, UserRole, is_banding_pending,
  is_transition, transition_roles, role_in, same_banding,
}
use opticutter.Orders.Order.{Actor, Payment, Order}
use opticutter.Orders.Plan.{ensure_cutting_plan, pending_pieces}
use opticutter.Orders.Plan.Marking.{plan_of, ensure_cutting_plan-IsEnsured}
use opticutter.Orders.Transition.{
  has_payment, role_refused, history_row, commit_transition, is_cut_gate, gated_transition,
  transition,
}

-- What a refused transition may have made of the order: nothing, or a plan where the gate of `cut`
-- found none.
abbrev pub IsRefusal : OrderStatus → Order → Order → Type 0
IsRefusal to_status order order' =
    (order' ≡ order)
    ⊎ ((to_status ≡ cut)
        × (order.status ≡ cutting)
        × (order.boards ≡ [])
        × (plan_of order'.boards ≡ order.snapshot_layouts)
        × (order' ≡ record order { boards = order'.boards }))

cut_gate_passed :
    (from to : OrderStatus) → is_cut_gate from to ≡ true → (to ≡ cut) × (from ≡ cutting)
cut_gate_passed from to h = ground arith

-- what `transition` needs to succeed
pub record IsAllowed (to_status : OrderStatus) (actor : Actor) (payment : Option Payment)
    (order : Order) : Type 0 where
  pub edge : is_transition order.status to_status ≡ true
  pub role :
      {r : UserRole}
      → actor.role ≡ some r
      → role_in r (transition_roles order.status to_status) ≡ true
  pub banded : to_status ≡ completed → is_banding_pending order.banding_status ≡ false
  pub paid : to_status ≡ queued → order.status ≡ confirmed → has_payment payment ≡ true

module _ (now : ℕ) (to_status : OrderStatus) (actor : Actor) (note : Option Text)
    (payment : Option Payment) where
  pub commit_ok :
      (order : Order)
      → (commit_transition now to_status actor note payment order).1 ≡ none
      → (is_transition order.status to_status ≡ true)
        × ((commit_transition now to_status actor note payment order).0.status ≡ to_status)
        × ((commit_transition now to_status actor note payment order).0.history
            ≡ order.history ++ history_row order to_status actor note ∷ [])
  unfolding commit_transition
  commit_ok order h = ground arith

  pub commit_refused :
      (order : Order) {e : Error}
      → (commit_transition now to_status actor note payment order).1 ≡ some e
      → (commit_transition now to_status actor note payment order).0 ≡ order
  unfolding commit_transition
  commit_refused order h = ground arith

  pub gated_ok :
      (order : Order)
      → (gated_transition now to_status actor note payment order).1 ≡ none
      → (is_cut_gate order.status to_status ≡ true → pending_pieces order ≡ 0)
        × (to_status ≡ completed → is_banding_pending order.banding_status ≡ false)
        × (to_status ≡ queued → order.status ≡ confirmed → has_payment payment ≡ true)
        × (gated_transition now to_status actor note payment order
            ≡ commit_transition now to_status actor note payment order)
  unfolding gated_transition
  gated_ok order h = ground (arith)

  pub gated_refused :
      (order : Order) {e : Error}
      → (gated_transition now to_status actor note payment order).1 ≡ some e
      → (gated_transition now to_status actor note payment order).0 ≡ order
  unfolding gated_transition
  gated_refused order h = ground (arith, commit_refused order)

-- the only way into `cut` goes through its gate
pub into_cut :
    (from to : OrderStatus) → is_transition from to ≡ true → to ≡ cut → is_cut_gate from to ≡ true
unfolding is_transition
into_cut from to h e = ground arith

-- the roles of an edge, for an actor that was not refused
role_allowed :
    (from to : OrderStatus) (r : UserRole)
    → is_transition from to ≡ true
    → role_refused (some r) (transition_roles from to) ≡ false
    → role_in r (transition_roles from to) ≡ true
unfolding is_transition transition_roles role_refused
role_allowed from to r e h = ground arith

module _ (ids : ℕ → ℕ) (now : ℕ) (to_status : OrderStatus) (actor : Actor) (note : Option Text)
    (payment : Option Payment) (order : Order) where
  -- the order that the gates see
  abbrev pub at_gates : Order
  at_gates = if is_cut_gate order.status to_status then ensure_cutting_plan ids order else order

  at_gates_same : at_gates ≡ record order { boards = at_gates.boards }
  unfolding ensure_cutting_plan
  at_gates_same = ground arith

  at_gates_fields :
      (at_gates.status ≡ order.status)
      × (at_gates.history ≡ order.history)
      × (at_gates.banding_status ≡ order.banding_status)
  at_gates_fields = (
    ap (λ o. o.status) at_gates_same,
    ap (λ o. o.history) at_gates_same,
    ap (λ o. o.banding_status) at_gates_same,
  )

  transition_passes :
      (transition ids now to_status actor note payment order).1 ≡ none
      → (role_refused actor.role (transition_roles order.status to_status) ≡ false)
        × (transition ids now to_status actor note payment order
            ≡ gated_transition now to_status actor note payment at_gates)
  unfolding transition
  transition_passes h =
      elim (Bool-cases (role_refused actor.role (transition_roles order.status to_status))) [
        | inl e ↦ absurd (ground (arith, e, h))
        | inr e ↦ (e, rw (e, transition))
      ]

  -- A transition that succeeds follows an edge of the graph, by an actor whose role that edge
  -- allows, with the banding finished before completing and a payment given before queueing; the
  -- order has the new status and one more history row, and on entering `cut` no piece was left to cut.
  pub transition_ok :
      (transition ids now to_status actor note payment order).1 ≡ none
      → let order' = (transition ids now to_status actor note payment order).0 in
        IsAllowed to_status actor payment order
        × (order'.status ≡ to_status)
        × (order'.history ≡ order.history ++ history_row order to_status actor note ∷ [])
        × (to_status ≡ cut → pending_pieces at_gates ≡ 0)
  transition_ok h =
      let (allowed, runs) = transition_passes h in
      let (gate, banded, paid, commits) =
        gated_ok now to_status actor note payment at_gates (ap (λ r. r.1) (sym runs) ∙ h) in
      let (edge, status, history) =
        commit_ok now to_status actor note payment at_gates
          (ap (λ r. r.1) (sym (runs ∙ commits)) ∙ h) in
      let (same_status, same_history, same_banding) = at_gates_fields in
      let follows : is_transition order.status to_status ≡ true =
        ap (λ s. is_transition s to_status) (sym same_status) ∙ edge in
      (
        record {
          edge = follows;
          role = λ {r} e. role_allowed order.status to_status r follows (
              ap (λ o. role_refused o (transition_roles order.status to_status)) (sym e) ∙ allowed);
          banded = λ e. ap is_banding_pending (sym same_banding) ∙ banded e;
          paid = λ e f. paid e (same_status ∙ f);
        },
        ap (λ r. r.0.status) (runs ∙ commits) ∙ status,
        ap (λ r. r.0.history) (runs ∙ commits)
            ∙ history
            ∙ ap (λ o. o.history ++ history_row o to_status actor note ∷ []) at_gates_same,
        λ e. gate (into_cut at_gates.status to_status edge e),
      )

  -- what the gates have seen, apart from the order given
  at_gates-cases :
      (at_gates ≡ order)
      ⊎ ((is_cut_gate order.status to_status ≡ true) × (at_gates ≡ ensure_cutting_plan ids order))
  at_gates-cases = elim (Bool-cases (is_cut_gate order.status to_status)) [
    | inl e ↦ inr (e, rw e refl)
    | inr e ↦ inl (rw e refl)
  ]

  at_gates-IsRefusal : IsRefusal to_status order at_gates
  at_gates-IsRefusal = elim at_gates-cases [
    | inl same ↦ inl same
    | inr (gate, ensured) ↦ rw ensured (elim (ensure_cutting_plan-IsEnsured ids order) [
      | inl same ↦ inl same
      | inr (blank, plan, rest) ↦
          let (into, from) = cut_gate_passed order.status to_status gate in
          inr (into, from, blank, plan, rest)
    ])
  ]

  -- A transition that is refused leaves the order as it was; but where it was to go from `cutting` to
  -- `cut` and had no plan, it may have one, with the pieces of the snapshot, and is otherwise as it was.
  pub transition_refused :
      {e : Error}
      → (transition ids now to_status actor note payment order).1 ≡ some e
      → IsRefusal to_status order (transition ids now to_status actor note payment order).0
  unfolding transition
  transition_refused h =
      elim (Bool-cases (role_refused actor.role (transition_roles order.status to_status))) [
        | inl e ↦ rw (e, transition) (inl refl)
        | inr e ↦
            rw (e, transition)
              (rw
                (gated_refused now to_status actor note payment at_gates (rw (e, transition) at h))
                at_gates-IsRefusal)
      ]
