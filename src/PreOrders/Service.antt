-- ===== src/PreOrders/Service.antt =====
-- src/modules/preorders/service.py: PreOrderService. `now` is `datetime.utcnow()`, and `config` what
-- `get_preorder_config` returns. Not modelled here: the calls that recompute the quote.
pub mod Cap
use opticutter.Prelude.{
  ℕ, zero, suc, ◌+◌, ◌-◌, ◌*◌, Bool, true, false, not, ◌&&◌, Option, none, some, List, [], ◌∷◌,
  ◌++◌, map, filter, take, drop, length, ltb, leb, ◌==◌, if◌then◌else◌, Result, ok, err,
  entity_not_found, business_rule_error,
}
use opticutter.Prelude.Text.{Text, codes, decimal}
use opticutter.Prelude.Rows.{on_first}
use opticutter.Prelude.Stable.{sort_by}
use opticutter.Branches.{Branch, resolve_branch_for_create, hidden, in_scope}
use opticutter.Orders.Order.{ActorType, Actor, system_actor}
use opticutter.Orders.Store.{Client, find_client}
use opticutter.Settings.{PriceTier, PreOrderConfig, given}
use opticutter.PreOrders.{
  PreOrderStatus, draft, sent, expired, is_open, is_changes_requested, is_confirmed, StatusHistory,
  PreOrder,
}

unfoldable pub history_row :
    Option PreOrderStatus → PreOrderStatus → Actor → Option Text → StatusHistory
history_row from to actor note = record {
  from_status = from;
  to_status = to;
  actor = actor.type;
  actor_user_id = actor.user_id;
  actor_label = actor.label;
  note = note;
}

unfoldable pub record_transition : PreOrderStatus → Actor → Option Text → PreOrder → PreOrder
unfolding history_row
record_transition to actor note p = record p {
  history = p.history ++ history_row (some p.status) to actor note ∷ [];
}

-- the tests of `_expire_if_stale`
unfoldable pub is_stale : ℕ → PreOrder → Bool
is_stale now p = is_open p.status && elim p.expires_at [ none ↦ false | some at ↦ ltb at now ]

unfoldable pub expire_if_stale : ℕ → PreOrder → PreOrder
unfolding is_stale record_transition
expire_if_stale now p =
    if is_stale now p
    then record (record_transition expired system_actor (some (codes "Vigencia vencida")) p) {
      status = expired;
    }
    else p

abbrev pub by_id : ℕ → PreOrder → Bool
by_id id p = p.id == id

-- it expires the row and commits
unfoldable pub get_or_404 : ℕ → ℕ → List PreOrder → List PreOrder × Result PreOrder
unfolding on_first
get_or_404 now id =
    on_first (by_id id) (err entity_not_found) (λ row. let p = expire_if_stale now row in (p, ok p))

-- `get_scoped_or_404`, then `call`
unfoldable pub scoped {κ} :
    {Answer : Type κ}
    → ℕ
    → Option ℕ
    → (PreOrder → PreOrder × Result Answer)
    → PreOrder
    → PreOrder × Result Answer
unfolding expire_if_stale
scoped now scope call row =
    let p = expire_if_stale now row in
    if hidden scope p.branch_id then (p, err entity_not_found) else call p

-- `_sweep_expired`
unfoldable pub sweep_expired : ℕ → List PreOrder → List PreOrder
unfolding expire_if_stale
sweep_expired now rows = map (expire_if_stale now) rows

-- an optional filter of a query
abbrev pub wanted : Option ℕ → ℕ → Bool
wanted none value = true
wanted (some v) value = value == v

abbrev pub same_status : PreOrderStatus → PreOrderStatus → Bool
same_status draft draft = true
same_status PreOrderStatus.sent PreOrderStatus.sent = true
same_status PreOrderStatus.changes_requested PreOrderStatus.changes_requested = true
same_status PreOrderStatus.confirmed PreOrderStatus.confirmed = true
same_status PreOrderStatus.rejected PreOrderStatus.rejected = true
same_status expired expired = true
same_status PreOrderStatus.cancelled PreOrderStatus.cancelled = true
same_status _ _ = false

abbrev pub has_status : Option PreOrderStatus → PreOrder → Bool
has_status none p = true
has_status (some s) p = same_status p.status s

unfoldable pub list_preorders :
    ℕ
    → Option PreOrderStatus
    → Option ℕ
    → Option ℕ
    → Option ℕ
    → ℕ
    → ℕ
    → List PreOrder
    → List PreOrder × (List PreOrder × ℕ)
unfolding sweep_expired
list_preorders now status client_id scope branch limit offset rows =
    let swept = sweep_expired now rows in
    let found =
      filter
        (λ p.
          has_status status p
          && (wanted client_id p.client_id && in_scope scope branch p.branch_id))
        swept in
    (swept, (take limit (drop offset (sort_by (λ a b. ltb b.id a.id) found)), length found))

-- the query of `_enforce_open_cap`
abbrev pub is_candidate : ℕ → ℕ → PreOrder → Bool
is_candidate client_id branch_id p =
    p.client_id == client_id && (p.branch_id == branch_id && is_open p.status)

-- the candidates, expired where they are stale
unfoldable pub sweep_candidates : ℕ → ℕ → ℕ → List PreOrder → List PreOrder
unfolding expire_if_stale
sweep_candidates now client_id branch_id rows =
    map (λ p. if is_candidate client_id branch_id p then expire_if_stale now p else p) rows

abbrev pub open_count : ℕ → ℕ → List PreOrder → ℕ
open_count client_id branch_id rows = length (filter (is_candidate client_id branch_id) rows)

unfoldable pub enforce_open_cap :
    PreOrderConfig → ℕ → ℕ → ℕ → List PreOrder → List PreOrder × Result (Unit {0})
unfolding sweep_candidates
enforce_open_cap config now client_id branch_id rows =
    let swept = sweep_candidates now client_id branch_id rows in
    if leb config.max_open_preorders_per_client (open_count client_id branch_id swept)
    then (swept, err business_rule_error)
    else (swept, ok tt)

pub record PreOrderCreate : Type 0 where
  pub client_id : ℕ
  pub branch_id : Option ℕ
  pub materials : Text
  pub requirements : Text
  pub additional_services : Text
  pub price_tier_code : Option Text
  pub strategy : Text
  pub source : Option Text
  pub notes : Option Text

-- n zeros
abbrev pub zeros : ℕ → Text
zeros zero = []
zeros (suc n) = 48 ∷ zeros n

-- f"PRE-{year}-{id:04d}"
unfoldable pub code_of : ℕ → ℕ → Text
unfolding decimal
code_of year id =
    codes "PRE-" ++ (decimal year ++ 45 ∷ (zeros (4 - length (decimal id)) ++ decimal id))

-- `timedelta(days=...)` in seconds
abbrev pub days : ℕ → ℕ
days n = 86400 * n

unfoldable pub new_preorder :
    PreOrderConfig → ℕ → ℕ → ℕ → ℕ → PriceTier → Actor → PreOrderCreate → PreOrder
unfolding code_of history_row
new_preorder config now year id branch_id tier actor form = record {
  id = id;
  code = some (code_of year id);
  client_id = form.client_id;
  branch_id = branch_id;
  status = draft;
  materials = form.materials;
  requirements = form.requirements;
  additional_services = form.additional_services;
  price_tier_code = tier.code;
  strategy = form.strategy;
  source = form.source;
  notes = form.notes;
  client_note = none;
  order_id = none;
  sent_at = none;
  confirmed_at = none;
  expires_at = some (now + days config.preorder_validity_days);
  created_by = actor.user_id;
  updated_by = none;
  review_links = [];
  history = history_row none draft actor (some (codes "Pre-orden creada")) ∷ [];
}

-- `resolve` is `resolve_price_tier`, and `id` the key that the database gives the new row.
module _ (resolve : Option Text → Result PriceTier) (clients : List Client) where
  unfoldable pub create :
      List Branch
      → PreOrderConfig
      → ℕ
      → ℕ
      → ℕ
      → PreOrderCreate
      → Actor
      → Option ℕ
      → Option ℕ
      → List PreOrder
      → List PreOrder × Result PreOrder
  unfolding find_client resolve_branch_for_create enforce_open_cap new_preorder
  create branches config now year id form actor scope default_branch rows =
      elim (find_client form.client_id clients) [
        | none ↦ (rows, err entity_not_found)
        | some c ↦ elim (resolve_branch_for_create branches scope form.branch_id default_branch) [
          | err e ↦ (rows, err e)
          | ok branch_id ↦
              let (swept, allowed) = enforce_open_cap config now form.client_id branch_id rows in
              elim allowed [
                | err e ↦ (swept, err e)
                | ok passed ↦ elim (resolve form.price_tier_code) [
                  | err e ↦ (swept, err e)
                  | ok tier ↦
                      let p = new_preorder config now year id branch_id tier actor form in
                      (swept ++ p ∷ [], ok p)
                ]
              ]
        ]
      ]
