-- ===== src/PreOrders/Lifecycle.antt =====
-- What holds of a pre-order through its life, and what each call keeps of it.
pub mod Links
pub mod Calls
pub mod Replies
pub mod Kept
pub mod Reachable
use opticutter.Prelude.{
  ℕ, ◌≤◌, ◌≡◌, ◌⊎◌, Bool, true, false, Option, none, some, List, [], sum_by, All, if◌then◌else◌,
}
use opticutter.Prelude.Trail.{IsTrail}
use opticutter.Orders.Order.{is_some}
use opticutter.PreOrders.{
  PreOrderStatus, draft, sent, changes_requested, confirmed, rejected, expired, cancelled,
  is_confirmed, used, is_active, ReviewLinkStatus, ReviewLink, StatusHistory, PreOrder,
}

-- where a pre-order may go
abbrev pub is_edge : PreOrderStatus → PreOrderStatus → Bool
is_edge draft sent = true
is_edge draft expired = true
is_edge sent changes_requested = true
is_edge sent confirmed = true
is_edge sent rejected = true
is_edge sent expired = true
is_edge changes_requested sent = true
is_edge changes_requested confirmed = true
is_edge changes_requested rejected = true
is_edge changes_requested expired = true
is_edge _ _ = false

abbrev pub Edge : Option PreOrderStatus → PreOrderStatus → Type 0
Edge none to = to ≡ draft
Edge (some from) to = is_edge from to ≡ true

abbrev pub Trail : List StatusHistory → PreOrderStatus → Type 0
Trail history now = IsTrail (λ h. h.from_status) (λ h. h.to_status) Edge none history now

-- the client has it
abbrev pub is_out : PreOrderStatus → Bool
is_out sent = true
is_out changes_requested = true
is_out _ = false

-- the client has answered it
abbrev pub is_answered : PreOrderStatus → Bool
is_answered confirmed = true
is_answered rejected = true
is_answered _ = false

abbrev pub is_draft : PreOrderStatus → Bool
is_draft draft = true
is_draft _ = false

abbrev pub is_used : ReviewLinkStatus → Bool
is_used used = true
is_used _ = false

abbrev pub live : List ReviewLink → ℕ
live links = sum_by (λ l. if is_active l.status then 1 else 0) links

abbrev pub spent : List ReviewLink → ℕ
spent links = sum_by (λ l. if is_used l.status then 1 else 0) links

-- an active link runs out with the pre-order
abbrev pub Mirrors : Option ℕ → List ReviewLink → Type 0
Mirrors expires_at links = All (λ l. is_active l.status ≡ true → l.expires_at ≡ expires_at) links

pub record IsConsistent (p : PreOrder) : Type 0 where
  pub trail : Trail p.history p.status
  pub unsent : is_draft p.status ≡ true → p.review_links ≡ []
  pub single : live p.review_links ≤ 1
  pub out : is_out p.status ≡ true → live p.review_links ≡ 1
  pub unanswered : is_answered p.status ≡ false → spent p.review_links ≡ 0
  pub answered :
      is_answered p.status ≡ true → (live p.review_links ≡ 0) × (spent p.review_links ≡ 1)
  pub mirrored : Mirrors p.expires_at p.review_links
  pub ordered : is_some p.order_id ≡ is_confirmed p.status
  pub dated : is_some p.confirmed_at ≡ is_confirmed p.status
