-- ===== src/PreOrders.antt =====
-- Pre-orders: the rows of src/modules/preorders/model.py. JSON columns are their text, instants are
-- numbers of seconds. The review links of a pre-order stand in its row, in the order of their ids.
pub mod Service
pub mod Editing
pub mod Review
pub mod Lifecycle
mod Tests
use opticutter.Prelude.{ℕ, Bool, true, false, Option, none, some, List}
use opticutter.Prelude.Text.{Text}
use opticutter.Orders.Order.{ActorType}

pub data PreOrderStatus : Type 0 where
  draft sent changes_requested confirmed rejected expired cancelled : PreOrderStatus

-- status in OPEN_STATUSES; the others are TERMINAL_STATUSES
abbrev pub is_open : PreOrderStatus → Bool
is_open draft = true
is_open sent = true
is_open changes_requested = true
is_open _ = false

pub data ReviewLinkStatus : Type 0 where
  active used revoked : ReviewLinkStatus

pub record ReviewLink : Type 0 where
  pub token_hash : Text
  pub status : ReviewLinkStatus
  pub expires_at : Option ℕ
  pub used_at : Option ℕ
  pub used_meta : Option (List (Text × Option Text))

pub record StatusHistory : Type 0 where
  pub from_status : Option PreOrderStatus
  pub to_status : PreOrderStatus
  pub actor : ActorType
  pub actor_user_id : Option ℕ
  pub actor_label : Option Text
  pub note : Option Text

pub record PreOrder : Type 0 where
  pub id : ℕ
  pub code : Option Text
  pub client_id : ℕ
  pub branch_id : ℕ
  pub status : PreOrderStatus
  pub materials : Text
  pub requirements : Text
  pub additional_services : Text
  pub price_tier_code : Text
  pub strategy : Text
  pub source : Option Text
  pub notes : Option Text
  pub client_note : Option Text
  pub order_id : Option ℕ
  pub sent_at : Option ℕ
  pub confirmed_at : Option ℕ
  pub expires_at : Option ℕ
  pub created_by : Option ℕ
  pub updated_by : Option ℕ
  pub review_links : List ReviewLink
  pub history : List StatusHistory

abbrev pub is_sent : PreOrderStatus → Bool
is_sent sent = true
is_sent _ = false

abbrev pub is_changes_requested : PreOrderStatus → Bool
is_changes_requested changes_requested = true
is_changes_requested _ = false

abbrev pub is_confirmed : PreOrderStatus → Bool
is_confirmed confirmed = true
is_confirmed _ = false

abbrev pub is_expired : PreOrderStatus → Bool
is_expired expired = true
is_expired _ = false

-- status in {rejected, cancelled}
abbrev pub is_withdrawn : PreOrderStatus → Bool
is_withdrawn rejected = true
is_withdrawn cancelled = true
is_withdrawn _ = false

abbrev pub is_active : ReviewLinkStatus → Bool
is_active active = true
is_active _ = false

abbrev pub is_revoked : ReviewLinkStatus → Bool
is_revoked revoked = true
is_revoked _ = false
