-- ===== src/PreOrders/Review.antt =====
-- src/modules/preorders/review_service.py: PreOrderReviewService. The sha256 of a token and the token
-- generator come from libraries: `hash_token` and `raw_token` are arguments. A token leads to the row
-- that holds its link, which is the row that `link.preorder_id` names.
pub mod Retry
use opticutter.Prelude.{
  ℕ, ◌+◌, Bool, true, false, not, ◌||◌, Option, none, some, List, [], ◌∷◌, ◌++◌, map, if◌then◌else◌,
  Result, ok, err, entity_not_found, business_rule_error, conflict_error, review_link_not_found,
}
use opticutter.Prelude.Text.{Text, codes, same_text}
use opticutter.Prelude.Rows.{on_first}
use opticutter.Branches.{Branch}
use opticutter.Orders.Order.{Actor, client_actor, Order, is_some}
use opticutter.Orders.Store.{Client, check_client, Quote}
use opticutter.Orders.Store
use opticutter.Settings.{PreOrderConfig}
use opticutter.PreOrders.{
  sent, changes_requested, confirmed, rejected, is_open, is_sent, is_changes_requested,
  is_confirmed, is_expired, is_withdrawn, active, used, revoked, is_active, is_revoked, ReviewLink,
  PreOrder,
}
use opticutter.PreOrders.Service.{record_transition, expire_if_stale, scoped, by_id, days}

-- the link with the hash
unfoldable pub find_link : Text → List ReviewLink → Option ReviewLink
find_link hash [] = none
find_link hash (l ∷ ls) = if same_text l.token_hash hash then some l else find_link hash ls

unfoldable pub has_link : Text → PreOrder → Bool
unfolding find_link
has_link hash p = is_some (find_link hash p.review_links)

abbrev pub revoke_active : ReviewLink → ReviewLink
revoke_active l = if is_active l.status then record l { status = revoked } else l

abbrev pub new_link : Text → Option ℕ → ReviewLink
new_link hash expires_at = record {
  token_hash = hash;
  status = active;
  expires_at = expires_at;
  used_at = none;
  used_meta = none;
}

-- "Enlace de revisión enviado"
abbrev pub link_sent_note : Text
link_sent_note = codes "Enlace de revisi" ++ 243 ∷ codes "n enviado"

-- the history row of a pre-order that was not sent yet
unfoldable pub note_sent : Actor → PreOrder → PreOrder
unfolding record_transition
note_sent actor p =
    if is_sent p.status then p else record_transition sent actor (some link_sent_note) p

-- the row once its new link is stored
unfoldable pub sent_out : PreOrderConfig → ℕ → Text → Actor → PreOrder → PreOrder
unfolding note_sent
sent_out config now hash actor p =
    let expires_at = some (now + days config.preorder_validity_days) in
    record (note_sent actor p) {
      status = sent;
      sent_at = some now;
      expires_at = expires_at;
      review_links = map revoke_active p.review_links ++ new_link hash expires_at ∷ [];
    }

-- a later entry of the same key replaces an earlier one
abbrev pub meta_of : Text → Option Text → List (Text × Option Text) → List (Text × Option Text)
meta_of action note meta = (codes "action", some action) ∷ (codes "note", note) ∷ meta

-- `_mark_used` on the link that was found
unfoldable pub mark_used : Text → ℕ → List (Text × Option Text) → List ReviewLink → List ReviewLink
mark_used hash now meta [] = []
mark_used hash now meta (l ∷ ls) =
    let rest = mark_used hash now meta ls in
    if same_text l.token_hash hash
    then record l { status = used; used_at = some now; used_meta = some meta } ∷ ls
    else l ∷ rest

-- what `_get_by_token_or_404` does once a row holds a link with the hash
unfoldable pub with_link {κ} :
    {Answer : Type κ}
    → Text
    → ℕ
    → Answer
    → (PreOrder → PreOrder × Answer)
    → PreOrder
    → PreOrder × Answer
unfolding find_link expire_if_stale
with_link hash now missing call p = elim (find_link hash p.review_links) [
  | none ↦ (p, missing)
  | some l ↦ if is_revoked l.status then (p, missing) else call (expire_if_stale now p)
]

-- The client asks for an adjustment; the link stays active.
unfoldable pub asked_row : Option Text → PreOrder → PreOrder
unfolding record_transition
asked_row note p =
    let noted =
      if is_changes_requested p.status
      then p
      else record_transition changes_requested client_actor note p in
    record noted { status = changes_requested; client_note = note }

unfoldable pub request_changes_row : Option Text → PreOrder → PreOrder × Result PreOrder
unfolding asked_row
request_changes_row note p =
    if is_expired p.status || is_withdrawn p.status
    then (p, err business_rule_error)
    else if is_confirmed p.status
    then (p, err conflict_error)
    else let p' = asked_row note p in (p', ok p')

module _ (now : ℕ) (hash : Text) (note : Option Text) (meta : List (Text × Option Text)) where
  unfoldable pub rejected_row : PreOrder → PreOrder
  unfolding record_transition mark_used
  rejected_row p = record (record_transition rejected client_actor note p) {
    status = rejected;
    review_links = mark_used hash now (meta_of (codes "rejected") note meta) p.review_links;
  }

  unfoldable pub reject_row : PreOrder → PreOrder × Result PreOrder
  unfolding rejected_row
  reject_row p =
      if is_withdrawn p.status
      then (p, ok p)
      else if is_expired p.status
      then (p, err business_rule_error)
      else if is_confirmed p.status
      then (p, err conflict_error)
      else let p' = rejected_row p in (p', ok p')

  -- the row once the order is created
  unfoldable pub confirmed_row : Order → PreOrder → PreOrder
  unfolding record_transition mark_used
  confirmed_row order p = record (record_transition confirmed client_actor note p) {
    status = confirmed;
    confirmed_at = some now;
    order_id = some order.id;
    review_links = mark_used hash now (meta_of (codes "confirmed") note meta) p.review_links;
  }

  -- `create_order` is `OrderService.create` on the inputs of the pre-order
  unfoldable pub confirm_row :
      (PreOrder → List Order → List Order × Result Order)
      → List Order
      → PreOrder
      → PreOrder × (List Order × Result PreOrder)
  unfolding confirmed_row
  confirm_row create_order orders p =
      if is_expired p.status || is_withdrawn p.status
      then (p, (orders, err business_rule_error))
      else if is_confirmed p.status
      then (p, (orders, ok p))
      else (let (orders', created) = create_order p orders in
          elim created [
            | err e ↦ (p, (orders', err e))
            | ok order ↦ let p' = confirmed_row order p in (p', (orders', ok p'))
          ])

-- `review_links[-1]`
unfoldable pub latest : List ReviewLink → Result ReviewLink
latest [] = err entity_not_found
latest (l ∷ []) = ok l
latest (l ∷ m ∷ ls) = latest (m ∷ ls)

-- What the creation of an order reads: the database, and what the quote of a pre-order comes to.
pub record Database : Type 0 where
  pub clients : List Client
  pub branches : List Branch
  pub quote_of : PreOrder → Result Quote

unfoldable pub create_order :
    Database → (ℕ → ℕ) → ℕ → PreOrder → List Order → List Order × Result Order
unfolding Store.create
create_order db ids next_id p orders =
    Store.create db.clients db.branches (db.quote_of p) ids next_id p.client_id (some p.branch_id)
      client_actor orders

module _ (hash_token : Text → Text) where
  unfoldable pub generate_row :
      List Client
      → PreOrderConfig
      → ℕ
      → Text
      → Actor
      → PreOrder
      → PreOrder × Result (Option ℕ × Text)
  unfolding check_client sent_out
  generate_row clients config now raw_token actor p =
      if not (is_open p.status)
      then (p, err business_rule_error)
      else (elim (check_client clients p.client_id) [
        | err e ↦ (p, err e)
        | ok c ↦
            let p' = sent_out config now (hash_token raw_token) actor p in
            (p', ok (p'.expires_at, raw_token))
      ])

  unfoldable pub generate :
      List Client
      → PreOrderConfig
      → ℕ
      → Text
      → ℕ
      → Actor
      → Option ℕ
      → List PreOrder
      → List PreOrder × Result (Option ℕ × Text)
  unfolding scoped generate_row
  generate clients config now raw_token id actor scope =
      on_first (by_id id) (err entity_not_found)
        (scoped now scope (generate_row clients config now raw_token actor))

  unfoldable pub get_latest_info :
      ℕ → ℕ → Option ℕ → List PreOrder → List PreOrder × Result ReviewLink
  unfolding scoped latest
  get_latest_info now id scope =
      on_first (by_id id) (err entity_not_found)
        (scoped now scope (λ p. (p, latest p.review_links)))

  unfoldable pub get_review : ℕ → Text → List PreOrder → List PreOrder × Result PreOrder
  unfolding has_link with_link
  get_review now token =
      let hash = hash_token token in
      on_first (has_link hash) (err review_link_not_found)
        (with_link hash now (err review_link_not_found) (λ p. (p, ok p)))

  unfoldable pub request_changes :
      ℕ → Text → Option Text → List PreOrder → List PreOrder × Result PreOrder
  unfolding has_link with_link request_changes_row
  request_changes now token note =
      let hash = hash_token token in
      on_first (has_link hash) (err review_link_not_found)
        (with_link hash now (err review_link_not_found) (request_changes_row note))

  unfoldable pub reject :
      ℕ
      → Text
      → Option Text
      → List (Text × Option Text)
      → List PreOrder
      → List PreOrder × Result PreOrder
  unfolding has_link with_link reject_row
  reject now token note meta =
      let hash = hash_token token in
      on_first (has_link hash) (err review_link_not_found)
        (with_link hash now (err review_link_not_found) (reject_row now hash note meta))

  unfoldable pub confirm :
      Database
      → (ℕ → ℕ)
      → ℕ
      → ℕ
      → Text
      → Option Text
      → List (Text × Option Text)
      → List Order
      → List PreOrder
      → List PreOrder × (List Order × Result PreOrder)
  unfolding has_link with_link confirm_row create_order
  confirm db ids next_id now token note meta orders =
      let hash = hash_token token in
      let missing : List Order × Result PreOrder = (orders, err review_link_not_found) in
      on_first (has_link hash) missing (
        with_link hash now missing
          (confirm_row now hash note meta (create_order db ids next_id) orders))
