-- ===== src/Optimizations/Pricing.antt =====
-- src/modules/optimizations/pricing.py. Amounts are cents, and so exact but for the discount, which is
-- rounded to the nearest cent, a tie upwards; the rate is in ten-thousandths.
pub mod Bounds
use opticutter.Prelude.{
  ℕ, ◌+◌, ◌-◌, ◌*◌, ◌/◌, Bool, true, false, Option, none, some, List, sum_by, leb, if◌then◌else◌, ℤ,
  pos, negsuc,
}
use opticutter.Prelude.Text.{Text}
use opticutter.Settings.{PriceTier}

-- what is read of an entry of `materials_summary`
pub record SummaryLine : Type 0 where
  pub product_id : Option ℕ
  pub total_cost : ℕ

pub record Payload : Type 0 where
  pub materials_summary : List SummaryLine
  pub total_boards_cost : ℕ
  pub total_edge_banding_cost : ℕ

pub record ServiceLine : Type 0 where
  pub unit_price : ℕ
  pub quantity : ℕ

pub record Pricing : Type 0 where
  pub price_tier_code : Text
  pub price_tier_name : Text
  pub discount_rate : ℕ
  pub discount_base : ℕ
  pub subtotal : ℕ
  pub discount_amount : ℕ
  pub services_total : ℕ
  pub total : ℤ

-- a - b
abbrev pub sub_ℕ : ℕ → ℕ → ℤ
sub_ℕ a b = if leb b a then pos (a - b) else negsuc (b - a - 1)

abbrev pub catalog_cost : SummaryLine → ℕ
catalog_cost m = elim m.product_id [ none ↦ 0 | some id ↦ m.total_cost ]

-- round(base * rate, 2)
unfoldable pub discount_of : ℕ → ℕ → ℕ
discount_of base rate = (base * rate + 5000) / 10000

unfoldable pub build_pricing : Payload → PriceTier → List ServiceLine → Pricing
unfolding discount_of
build_pricing payload tier services =
    let discount_base = sum_by catalog_cost payload.materials_summary in
    let subtotal = payload.total_boards_cost + payload.total_edge_banding_cost in
    let discount_amount = discount_of discount_base tier.rate in
    let services_total = sum_by (λ s. s.unit_price * s.quantity) services in
    record {
      price_tier_code = tier.code;
      price_tier_name = tier.name;
      discount_rate = tier.rate;
      discount_base = discount_base;
      subtotal = subtotal;
      discount_amount = discount_amount;
      services_total = services_total;
      total = sub_ℕ (subtotal + services_total) discount_amount;
    }
