-- ===== src/PreOrders/Lifecycle/Reachable.antt =====
-- Every table of pre-orders that the calls can lead to.
use opticutter.Prelude.{
  subst, sym, ℕ, inl, inr, Option, List, [], ◌∷◌, All, All-append, Result, ok, Bool-cases, ◌==◌,
}
use opticutter.Prelude.Text.{Text}
use opticutter.Prelude.Rows.{All-on_first}
use opticutter.Branches.{Branch, hidden}
use opticutter.Orders.Order.{Actor, Order}
use opticutter.Orders.Store.{Client}
use opticutter.Settings.{PriceTier, PreOrderConfig}
use opticutter.PreOrders.{PreOrder, is_confirmed}
use opticutter.PreOrders.Service.{
  PreOrderCreate, expire_if_stale, get_or_404, sweep_expired, is_candidate, sweep_candidates,
  create,
}
use opticutter.PreOrders.Service.Cap.{create-cases, refused, refused_swept, stored}
use opticutter.PreOrders.Editing.{PreOrderUpdate, update_row, update, delete_row, delete}
use opticutter.PreOrders.Review.{
  Database, create_order, generate_row, generate, get_latest_info, latest, get_review,
  request_changes_row, request_changes, reject_row, reject, confirm_row, confirm,
}
use opticutter.PreOrders.Lifecycle.{IsConsistent}
use opticutter.PreOrders.Lifecycle.Calls.{
  expire-IsConsistent, scoped-IsConsistent, new_preorder-IsConsistent, update_row-IsConsistent,
  generate_row-IsConsistent,
}
use opticutter.PreOrders.Lifecycle.Replies.{
  with_link-IsConsistent, request_changes_row-IsConsistent, reject_row-IsConsistent,
  confirm_row-IsConsistent,
}

-- One call on the table, whether it is refused or not.
pub data Step (rows : List PreOrder) : List PreOrder → Type 0 where
  listed : (now : ℕ) → Step rows (sweep_expired now rows)
  created :
      (resolve : Option Text → Result PriceTier) (clients : List Client) (branches : List Branch)
      (config : PreOrderConfig) (now year id : ℕ) (form : PreOrderCreate) (actor : Actor)
      (scope default_branch : Option ℕ)
      → Step rows
          (create resolve clients branches config now year id form actor scope default_branch
            rows).0
  loaded : (now id : ℕ) → Step rows (get_or_404 now id rows).0
  updated :
      (resolve : Option Text → Result PriceTier) (clients : List Client) (now id : ℕ)
      (u : PreOrderUpdate) (actor : Actor) (scope : Option ℕ)
      → Step rows (update resolve clients now id u actor scope rows).0
  deleted : (now id : ℕ) (scope : Option ℕ) → Step rows (delete now id scope rows).0
  generated :
      (hash_token : Text → Text) (clients : List Client) (config : PreOrderConfig) (now : ℕ)
      (raw_token : Text) (id : ℕ) (actor : Actor) (scope : Option ℕ)
      → Step rows (generate hash_token clients config now raw_token id actor scope rows).0
  looked_up :
      (hash_token : Text → Text) (now id : ℕ) (scope : Option ℕ)
      → Step rows (get_latest_info hash_token now id scope rows).0
  viewed :
      (hash_token : Text → Text) (now : ℕ) (token : Text)
      → Step rows (get_review hash_token now token rows).0
  asked :
      (hash_token : Text → Text) (now : ℕ) (token : Text) (reply : Option Text)
      → Step rows (request_changes hash_token now token reply rows).0
  declined :
      (hash_token : Text → Text) (now : ℕ) (token : Text) (reply : Option Text)
      (meta : List (Text × Option Text))
      → Step rows (reject hash_token now token reply meta rows).0
  accepted :
      (hash_token : Text → Text) (db : Database) (ids : ℕ → ℕ) (next_id now : ℕ) (token : Text)
      (reply : Option Text) (meta : List (Text × Option Text)) (orders : List Order)
      → Step rows (confirm hash_token db ids next_id now token reply meta orders rows).0

abbrev pub AllConsistent : List PreOrder → Type 0
AllConsistent rows = All IsConsistent rows

sweep_expired-IsConsistent :
    (now : ℕ) (rows : List PreOrder) → AllConsistent rows → AllConsistent (sweep_expired now rows)
unfolding sweep_expired
sweep_expired-IsConsistent now [] h = tt
sweep_expired-IsConsistent now (p ∷ ps) h =
    (expire-IsConsistent now p h.0, sweep_expired-IsConsistent now ps h.1)

sweep_candidates-IsConsistent :
    (now client_id branch_id : ℕ) (rows : List PreOrder)
    → AllConsistent rows
    → AllConsistent (sweep_candidates now client_id branch_id rows)
unfolding sweep_candidates
sweep_candidates-IsConsistent now client_id branch_id [] h = tt
sweep_candidates-IsConsistent now client_id branch_id (p ∷ ps) h =
    let rest = sweep_candidates-IsConsistent now client_id branch_id ps h.1 in
    elim (Bool-cases (is_candidate client_id branch_id p)) [
      | inl e ↦ rw e (expire-IsConsistent now p h.0, rest)
      | inr e ↦ rw e (h.0, rest)
    ]

create-IsConsistent :
    (resolve : Option Text → Result PriceTier) (clients : List Client) (branches : List Branch)
    (config : PreOrderConfig) (now year id : ℕ) (form : PreOrderCreate) (actor : Actor)
    (scope default_branch : Option ℕ) (rows : List PreOrder)
    → AllConsistent rows
    → AllConsistent
        (create resolve clients branches config now year id form actor scope default_branch rows).0
create-IsConsistent resolve clients branches config now year id form actor scope default_branch rows
      h =
    elim (create-cases resolve clients branches config now year id form actor scope default_branch
      rows) [
        | refused e f ↦ subst (λ r. AllConsistent r.0) (sym f) h
        | refused_swept b e f ↦
            subst (λ r. AllConsistent r.0) (sym f)
              (sweep_candidates-IsConsistent now form.client_id b rows h)
        | stored b tier below f ↦
            subst (λ r. AllConsistent r.0) (sym f)
              (All-append IsConsistent _ _
                (sweep_candidates-IsConsistent now form.client_id b rows h)
                (new_preorder-IsConsistent config now year id b tier actor form, tt))
      ]

delete-IsConsistent :
    (now id : ℕ) (scope : Option ℕ) (rows : List PreOrder)
    → AllConsistent rows
    → AllConsistent (delete now id scope rows).0
unfolding delete delete_row
delete-IsConsistent now id scope [] h = h
delete-IsConsistent now id scope (p ∷ ps) h = elim (Bool-cases (p.id == id)) [
  | inr e ↦ rw (e, delete) (h.0, delete-IsConsistent now id scope ps h.1)
  | inl e ↦
      let kept : AllConsistent (expire_if_stale now p ∷ ps) =
        (expire-IsConsistent now p h.0, h.1) in
      elim (Bool-cases (hidden scope (expire_if_stale now p).branch_id)) [
        | inl f ↦ rw (e, delete, f) kept
        | inr f ↦ elim (Bool-cases (is_confirmed (expire_if_stale now p).status)) [
          | inl g ↦ rw (e, delete, f, g) kept
          | inr g ↦ rw (e, delete, f, g) h.1
        ]
      ]
]

Step-IsConsistent :
    (rows : List PreOrder) {later : List PreOrder}
    → Step rows later
    → AllConsistent rows
    → AllConsistent later
unfolding get_or_404 update generate get_latest_info get_review request_changes reject confirm
Step-IsConsistent rows (listed now) h = sweep_expired-IsConsistent now rows h
Step-IsConsistent rows
      (created resolve clients branches config now year id form actor scope default_branch) h =
    create-IsConsistent resolve clients branches config now year id form actor scope default_branch
      rows h
Step-IsConsistent rows (loaded now id) h =
    All-on_first _ _ _ IsConsistent rows (λ p k. expire-IsConsistent now p k) h
Step-IsConsistent rows (updated resolve clients now id u actor scope) h =
    All-on_first _ _ _ IsConsistent rows
      (scoped-IsConsistent now scope (update_row resolve clients u actor)
        (update_row-IsConsistent resolve clients u actor))
      h
Step-IsConsistent rows (deleted now id scope) h = delete-IsConsistent now id scope rows h
Step-IsConsistent rows (generated hash_token clients config now raw_token id actor scope) h =
    All-on_first _ _ _ IsConsistent rows
      (scoped-IsConsistent now scope (generate_row hash_token clients config now raw_token actor)
        (generate_row-IsConsistent hash_token clients config now raw_token actor))
      h
Step-IsConsistent rows (looked_up hash_token now id scope) h =
    All-on_first _ _ _ IsConsistent rows
      (scoped-IsConsistent now scope (λ p. (p, latest p.review_links)) (λ p k. k)) h
Step-IsConsistent rows (viewed hash_token now token) h =
    All-on_first _ _ _ IsConsistent rows
      (with_link-IsConsistent (hash_token token) now _ (λ p. (p, ok p)) (λ p k good. k)) h
Step-IsConsistent rows (asked hash_token now token reply) h =
    All-on_first _ _ _ IsConsistent rows
      (with_link-IsConsistent (hash_token token) now _ (request_changes_row reply)
        (λ p k good. request_changes_row-IsConsistent (hash_token token) p k good reply))
      h
Step-IsConsistent rows (declined hash_token now token reply meta) h =
    All-on_first _ _ _ IsConsistent rows
      (with_link-IsConsistent (hash_token token) now _
        (reject_row now (hash_token token) reply meta)
        (λ p k good. reject_row-IsConsistent (hash_token token) p k good now reply meta))
      h
Step-IsConsistent rows (accepted hash_token db ids next_id now token reply meta orders) h =
    All-on_first _ _ _ IsConsistent rows
      (with_link-IsConsistent (hash_token token) now _
        (confirm_row now (hash_token token) reply meta (create_order db ids next_id) orders)
        (λ p k good.
          confirm_row-IsConsistent (hash_token token) p k good now reply meta
            (create_order db ids next_id) orders))
      h

pub data Reachable : List PreOrder → Type 0 where
  empty : Reachable []
  next :
      (rows : List PreOrder) {later : List PreOrder}
      → Reachable rows
      → Step rows later
      → Reachable later

-- Of every pre-order in a table that the calls lead to: its history starts at its creation as a draft,
-- each row starts where the one before it ended and follows the graph, and it ends in its status; a
-- draft has no link; at most one link is active, and exactly one while the client has the pre-order; an
-- active link runs out with the pre-order; no link is used until the client has confirmed or rejected,
-- and then one is used and none is active; it has an order and a date of confirmation just when it is
-- confirmed.
pub Reachable-AllConsistent : (rows : List PreOrder) → Reachable rows → AllConsistent rows
Reachable-AllConsistent _ empty = tt
Reachable-AllConsistent _ (next rows r step) =
    Step-IsConsistent rows step (Reachable-AllConsistent rows r)
