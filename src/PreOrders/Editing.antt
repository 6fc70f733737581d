-- ===== src/PreOrders/Editing.antt =====
-- src/modules/preorders/service.py: `update` and `delete` of PreOrderService.
use opticutter.Prelude.{
  ℕ, not, Option, none, some, List, [], ◌∷◌, ◌==◌, if◌then◌else◌, Result, ok, err, ◌>>=◌,
  entity_not_found, business_rule_error,
}
use opticutter.Prelude.Text.{Text, codes}
use opticutter.Prelude.Rows.{on_first}
use opticutter.Branches.{hidden}
use opticutter.Orders.Order.{Actor}
use opticutter.Orders.Store.{Client, find_client}
use opticutter.Settings.{PriceTier, given}
use opticutter.PreOrders.{sent, is_open, is_changes_requested, is_confirmed, PreOrder}
use opticutter.PreOrders.Service.{record_transition, expire_if_stale, scoped, by_id}

-- `none` is a field that is not sent; `notes` and `source` may be sent as null.
pub record PreOrderUpdate : Type 0 where
  pub client_id : Option ℕ
  pub materials : Option Text
  pub requirements : Option Text
  pub additional_services : Option Text
  pub price_tier_code : Option Text
  pub strategy : Option Text
  pub notes : Option (Option Text)
  pub source : Option (Option Text)

-- the client that the update names must exist
unfoldable pub checked_client : List Client → Option ℕ → ℕ → Result ℕ
unfolding find_client
checked_client clients none old = ok old
checked_client clients (some id) old = elim (find_client id clients) [
  | none ↦ err entity_not_found
  | some c ↦ ok id
]

unfoldable pub checked_tier : (Option Text → Result PriceTier) → Option Text → Text → Result Text
checked_tier resolve none old = ok old
checked_tier resolve (some code) old = resolve (some code) >>= λ tier. ok tier.code

-- Editing addresses the changes that the client asked for.
unfoldable pub addressed : Actor → PreOrder → PreOrder
unfolding record_transition
addressed actor p =
    if is_changes_requested p.status
    then record (record_transition sent actor
        (some (codes "Cambios atendidos; reenviada al cliente")) p) {
          status = sent;
          client_note = none;
        }
    else p

unfoldable pub edited : PreOrderUpdate → ℕ → Text → Actor → PreOrder → PreOrder
unfolding addressed
edited u client_id tier actor p =
    record (addressed actor (record p {
      client_id = client_id;
      materials = given u.materials p.materials;
      requirements = given u.requirements p.requirements;
      additional_services = given u.additional_services p.additional_services;
      price_tier_code = tier;
      strategy = given u.strategy p.strategy;
      notes = given u.notes p.notes;
      source = given u.source p.source;
    })) { updated_by = actor.user_id }

module _ (resolve : Option Text → Result PriceTier) (clients : List Client) where
  -- a refused edit is rolled back
  unfoldable pub update_row : PreOrderUpdate → Actor → PreOrder → PreOrder × Result PreOrder
  unfolding checked_client checked_tier edited
  update_row u actor p =
      if not (is_open p.status)
      then (p, err business_rule_error)
      else (elim (checked_client clients u.client_id p.client_id) [
        | err e ↦ (p, err e)
        | ok client_id ↦ elim (checked_tier resolve u.price_tier_code p.price_tier_code) [
          | err e ↦ (p, err e)
          | ok tier ↦ let p' = edited u client_id tier actor p in (p', ok p')
        ]
      ])

  unfoldable pub update :
      ℕ → ℕ → PreOrderUpdate → Actor → Option ℕ → List PreOrder → List PreOrder × Result PreOrder
  unfolding scoped update_row
  update now id u actor scope =
      on_first (by_id id) (err entity_not_found) (scoped now scope (update_row u actor))

-- the row goes, or stays with its expiry committed
unfoldable pub delete_row :
    ℕ → Option ℕ → PreOrder → List PreOrder → List PreOrder × Result (Unit {0})
unfolding expire_if_stale
delete_row now scope row rows =
    let p = expire_if_stale now row in
    if hidden scope p.branch_id
    then (p ∷ rows, err entity_not_found)
    else if is_confirmed p.status
    then (p ∷ rows, err business_rule_error)
    else (rows, ok tt)

unfoldable pub delete : ℕ → ℕ → Option ℕ → List PreOrder → List PreOrder × Result (Unit {0})
unfolding delete_row
delete now id scope [] = ([], err entity_not_found)
delete now id scope (r ∷ rs) =
    let rest = delete now id scope rs in
    if r.id == id then delete_row now scope r rs else (r ∷ rest.0, rest.1)
