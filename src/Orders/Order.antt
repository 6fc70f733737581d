-- ===== src/Orders/Order.antt =====
-- The rows of src/modules/orders/model.py, with the columns that the state of an order is about, and
-- `Actor` of src/shared/audit.py. Amounts are cents, instants are numbers.
use opticutter.Prelude.{ℕ, Bool, true, false, Option, none, some, List}
use opticutter.Prelude.Text.{Text, codes}
use opticutter.Orders.Status.{UserRole, OrderStatus, BandingStatus}

pub data ActorType : Type 0 where
  staff client system : ActorType

pub record Actor : Type 0 where
  pub type : ActorType
  pub user_id : Option ℕ
  pub label : Option Text
  pub role : Option UserRole

abbrev pub system_actor : Actor
system_actor = record { type = system; user_id = none; label = none; role = none }

-- `client_actor()`
abbrev pub client_actor : Actor
client_actor = record { type = client; user_id = none; label = some (codes "Cliente"); role = none }

pub record StatusHistory : Type 0 where
  pub from_status : Option OrderStatus
  pub to_status : OrderStatus
  pub actor : ActorType
  pub actor_user_id : Option ℕ
  pub actor_label : Option Text
  pub note : Option Text

-- A piece in a layout of the frozen snapshot.
pub record SnapshotPiece : Type 0 where
  pub piece_id : Text
  pub x : ℕ
  pub y : ℕ
  pub width : ℕ
  pub height : ℕ
  pub rotated : Bool

-- A row of `order_placed_pieces`; `cut_at` is `none` while the piece is to be cut.
pub record PlacedRow : Type 0 where
  pub id : ℕ
  pub placed : SnapshotPiece
  pub cut_at : Option ℕ
  pub cut_by : Option ℕ
  pub cut_by_label : Option Text

pub record Board : Type 0 where
  pub sheet_number : ℕ
  pub pieces : List PlacedRow

pub record Payment : Type 0 where
  pub cash_amount : Option ℕ
  pub credit_amount : Option ℕ

pub record Order : Type 0 where
  pub id : ℕ
  pub client_id : ℕ
  pub branch_id : ℕ
  pub status : OrderStatus
  pub banding_status : BandingStatus
  pub snapshot_layouts : List (List SnapshotPiece)
  pub optimization_hash : Text
  pub price_tier_code : Text
  pub additional_services_total : ℕ
  pub external_invoice_id : Option Text
  pub assigned_to_id : Option ℕ
  pub assigned_at : Option ℕ
  pub assigned_to_label : Option Text
  pub dispatched_at : Option ℕ
  pub dispatched_by : Option ℕ
  pub dispatched_by_label : Option Text
  pub payment_cash_amount : Option ℕ
  pub payment_credit_amount : Option ℕ
  pub banding_started_at : Option ℕ
  pub banding_started_by : Option ℕ
  pub banding_started_by_label : Option Text
  pub banding_finished_at : Option ℕ
  pub banding_finished_by : Option ℕ
  pub banding_finished_by_label : Option Text
  pub boards : List Board
  pub history : List StatusHistory

abbrev pub is_some {ℓ} : {A : Type ℓ} → Option A → Bool
is_some none = false
is_some (some a) = true

-- 1 for a piece that is still to be cut
abbrev pub uncut : PlacedRow → ℕ
uncut p = elim p.cut_at [ none ↦ 1 | some t ↦ 0 ]
