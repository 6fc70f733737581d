-- ===== src/PreOrders/Service/Cap.antt =====
-- What `create` can come to, and the cap on the open pre-orders of a client in a branch.
use opticutter.Prelude.{
  ℕ, ◌+◌, ◌≤◌, ◌<◌, ◌≡◌, inl, inr, refl, ap, ◌∙◌, sym, true, false, ◌&&◌, Option, List, [], ◌∷◌,
  ◌++◌, subst, entity_not_found, business_rule_error, Error, Result, ok, err, ok-injective, leb,
  ◌==◌, Bool-cases, Option-cases, Result-cases, if◌then◌else◌, arith,
}
use opticutter.Prelude.Text.{Text}
use opticutter.Branches.{Branch, resolve_branch_for_create}
use opticutter.Orders.Order.{Actor}
use opticutter.Orders.Store.{Client, find_client}
use opticutter.Settings.{PriceTier, PreOrderConfig}
use opticutter.PreOrders.{PreOrder}
use opticutter.PreOrders.Service.{
  PreOrderCreate, record_transition, is_stale, expire_if_stale, is_candidate, sweep_candidates,
  open_count, enforce_open_cap, new_preorder, create,
}

open_count-append :
    (client_id branch_id : ℕ) (rows more : List PreOrder)
    → open_count client_id branch_id (rows ++ more)
      ≡ open_count client_id branch_id rows + open_count client_id branch_id more
open_count-append client_id branch_id [] more = omega arith
open_count-append client_id branch_id (p ∷ ps) more =
    ground (arith, open_count-append client_id branch_id ps more)

expired_less :
    (client_id branch_id now : ℕ) (p : PreOrder)
    → is_candidate client_id branch_id (expire_if_stale now p) ≡ true
    → is_candidate client_id branch_id p ≡ true
unfolding expire_if_stale is_stale record_transition
expired_less client_id branch_id now p h = ground (arith, h)

open_count-sweep :
    (c b now client_id branch_id : ℕ) (rows : List PreOrder)
    → open_count c b (sweep_candidates now client_id branch_id rows) ≤ open_count c b rows
unfolding sweep_candidates
open_count-sweep c b now client_id branch_id [] = omega arith
open_count-sweep c b now client_id branch_id (p ∷ ps) =
    let rest = open_count-sweep c b now client_id branch_id ps in
    elim (Bool-cases (is_candidate client_id branch_id p)) [
      | inr e ↦ rw e (ground (arith, rest))
      | inl e ↦ rw e (ground (arith, rest, expired_less c b now p))
    ]

module _ (resolve : Option Text → Result PriceTier) (clients : List Client) (branches : List Branch)
    (config : PreOrderConfig) (now year id : ℕ) (form : PreOrderCreate) (actor : Actor)
    (scope default_branch : Option ℕ) (rows : List PreOrder) where
  abbrev result : List PreOrder × Result PreOrder
  result = create resolve clients branches config now year id form actor scope default_branch rows

  abbrev swept : ℕ → List PreOrder
  swept branch_id = sweep_candidates now form.client_id branch_id rows

  -- refused before the sweep, or after it, or stored behind the others
  pub data Outcome : Type 0 where
    refused : (e : Error) → result ≡ (rows, err e) → Outcome
    refused_swept : (branch_id : ℕ) (e : Error) → result ≡ (swept branch_id, err e) → Outcome
    stored :
        (branch_id : ℕ) (tier : PriceTier)
        → open_count form.client_id branch_id (swept branch_id)
          < config.max_open_preorders_per_client
        → (let p = new_preorder config now year id branch_id tier actor form in
            result ≡ (swept branch_id ++ p ∷ [], ok p))
        → Outcome

  enforce_refused :
      (b : ℕ)
      → leb config.max_open_preorders_per_client (open_count form.client_id b (swept b)) ≡ true
      → enforce_open_cap config now form.client_id b rows ≡ (swept b, err business_rule_error)
  unfolding enforce_open_cap
  enforce_refused b g = ground (arith, g)

  enforce_allowed :
      (b : ℕ)
      → leb config.max_open_preorders_per_client (open_count form.client_id b (swept b)) ≡ false
      → enforce_open_cap config now form.client_id b rows ≡ (swept b, ok tt)
  unfolding enforce_open_cap
  enforce_allowed b g = ground (arith, g)

  pub create-cases : Outcome
  unfolding create
  create-cases = elim (Option-cases (find_client form.client_id clients)) [
    | inl e ↦ refused entity_not_found (rw (e, create) refl)
    | inr (c, e) ↦
        elim (Result-cases
          (resolve_branch_for_create branches scope form.branch_id default_branch)) [
            | inr (raised, f) ↦ refused raised (rw (e, create, f) refl)
            | inl (b, f) ↦
                elim (Bool-cases (
                  leb config.max_open_preorders_per_client
                    (open_count form.client_id b (swept b)))) [
                      | inl g ↦ refused_swept b business_rule_error (
                          rw (e, create, f, enforce_refused b g)
                            (ap (λ x. (x.0, err business_rule_error)) (enforce_refused b g)))
                      | inr g ↦ elim (Result-cases (resolve form.price_tier_code)) [
                        | inr (raised, k) ↦ refused_swept b raised (
                            rw (e, create, f, enforce_allowed b g, k)
                              (ap (λ x. (x.0, err raised)) (enforce_allowed b g)))
                        | inl (tier, k) ↦ stored b tier (ground (arith, g)) (
                            rw (e, create, f, enforce_allowed b g, k)
                              (let p = new_preorder config now year id b tier actor form in
                                ap (λ x. (x.0 ++ p ∷ [], ok p)) (enforce_allowed b g)))
                      ]
                    ]
          ]
  ]

  -- what the cap says of a table that `p` was added to
  abbrev IsCapped : PreOrder → List PreOrder → ℕ → ℕ → Type 0
  IsCapped p later c b = open_count c b later ≤ (
      if c == p.client_id && b == p.branch_id
      then config.max_open_preorders_per_client
      else open_count c b rows)

  stored-IsCapped :
      (branch_id : ℕ) (tier : PriceTier)
      → open_count form.client_id branch_id (swept branch_id) < config.max_open_preorders_per_client
      → (c b : ℕ)
      → (let p = new_preorder config now year id branch_id tier actor form in
          IsCapped p (swept branch_id ++ p ∷ []) c b)
  unfolding new_preorder
  stored-IsCapped branch_id tier below c b =
      let p = new_preorder config now year id branch_id tier actor form in
      let most : open_count c b (swept branch_id ++ p ∷ []) ≡ _ =
        open_count-append c b (swept branch_id) (p ∷ []) in
      elim (Bool-cases (c == form.client_id && b == branch_id)) [
        | inl e ↦
            let same_client : c ≡ form.client_id = ground (arith, e) in
            let same_branch : b ≡ branch_id = ground (arith, e) in
            let before : open_count c b (swept branch_id) < config.max_open_preorders_per_client =
              rw (same_client, same_branch) below in
            rw e (ground (arith, most, before))
        | inr e ↦
            rw e (ground (arith, e, most, open_count-sweep c b now form.client_id branch_id rows))
      ]

  -- A creation that succeeds leaves at most the configured number of open pre-orders for the client
  -- in the branch, and no more than before for any other client or branch.
  pub create-bounded :
      {p : PreOrder} (c b : ℕ)
      → result.1 ≡ ok p
      → open_count c b result.0 ≤ (
          if c == p.client_id && b == p.branch_id
          then config.max_open_preorders_per_client
          else open_count c b rows)
  create-bounded {p} c b h = elim create-cases [
    | refused e same ↦ absurd (ground (arith, h, same))
    | refused_swept branch_id e same ↦ absurd (ground (arith, h, same))
    | stored branch_id tier below same ↦
        subst (λ r. IsCapped p r.0 c b) (sym same)
          (subst
            (λ x.
              IsCapped x
                (swept branch_id ++ new_preorder config now year id branch_id tier actor form ∷ [])
                c b)
            (ok-injective (ap (λ r. r.1) (sym same) ∙ h))
            (stored-IsCapped branch_id tier below c b))
  ]
