-- ===== src/PreOrders/Lifecycle/Kept.antt =====
-- What has been answered or has expired stays as it is.
use opticutter.Prelude.{◌≡◌, refl, false, List, [], ◌∷◌}
use opticutter.Prelude.Text.{Text}
use opticutter.Orders.Order.{Order}
use opticutter.PreOrders.{PreOrder, is_open, is_confirmed}

-- the same pre-order, unchanged if it was closed
abbrev pub IsKept : PreOrder → PreOrder → Type 0
IsKept p q = (q.id ≡ p.id) × (is_open p.status ≡ false → q ≡ p)

-- Every row is there again, in its place; what goes was not confirmed, and what is new comes last.
pub data KeepsClosed : List PreOrder → List PreOrder → Type 0 where
  added : (later : List PreOrder) → KeepsClosed [] later
  stayed :
      {p q : PreOrder} {rows later : List PreOrder}
      → IsKept p q
      → KeepsClosed rows later
      → KeepsClosed (p ∷ rows) (q ∷ later)
  removed :
      {p : PreOrder} {rows later : List PreOrder}
      → is_confirmed p.status ≡ false
      → KeepsClosed rows later
      → KeepsClosed (p ∷ rows) later

abbrev same : (p : PreOrder) → IsKept p p
same p = (refl, λ e. refl)
