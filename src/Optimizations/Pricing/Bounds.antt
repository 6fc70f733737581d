-- ===== src/Optimizations/Pricing/Bounds.antt =====
-- The discount and the total of a quote.
use opticutter.Prelude.{ℕ, ◌+◌, ◌-◌, ◌*◌, ◌≤◌, ◌≡◌, List, sum_by, pos, arith}
use opticutter.Settings.{PriceTier}
use opticutter.Optimizations.Pricing.{
  Payload, ServiceLine, catalog_cost, discount_of, build_pricing,
}

pub discount_of-le : (base rate : ℕ) → rate ≤ 10000 → discount_of base rate ≤ base
unfolding discount_of
discount_of-le base rate h = grind arith

discount_of_nearest :
    (base rate : ℕ)
    → (10000 * discount_of base rate ≤ base * rate + 5000)
      × (base * rate ≤ 10000 * discount_of base rate + 5000)
unfolding discount_of
discount_of_nearest base rate = (omega arith, omega arith)

-- What a quote with the total `n` adds up to.
pub record IsPriced (payload : Payload) (tier : PriceTier) (services : List ServiceLine) (n : ℕ)
    : Type 0 where
  pub total : (build_pricing payload tier services).total ≡ pos n
  pub balance :
      n + (build_pricing payload tier services).discount_amount
      ≡ (build_pricing payload tier services).subtotal
        + (build_pricing payload tier services).services_total
  pub discounted :
      (build_pricing payload tier services).discount_amount
      ≤ (build_pricing payload tier services).discount_base
  pub at_least :
      payload.total_edge_banding_cost + (build_pricing payload tier services).services_total ≤ n
  pub nearest :
      let r = build_pricing payload tier services in
      (10000 * r.discount_amount ≤ r.discount_base * tier.rate + 5000)
      × (r.discount_base * tier.rate ≤ 10000 * r.discount_amount + 5000)

-- Where the rate is at most 100% and the catalog lines cost at most what the boards cost: the total is
-- no less than the edge bandings and the services, it and the discount add up to the subtotal and the
-- services, the discount is at most its base, and it is the rate of the base to the nearest cent.
pub build_pricing-IsPriced :
    (payload : Payload) (tier : PriceTier) (services : List ServiceLine)
    → tier.rate ≤ 10000
    → sum_by catalog_cost payload.materials_summary ≤ payload.total_boards_cost
    → (n : ℕ) × IsPriced payload tier services n
unfolding build_pricing
build_pricing-IsPriced payload tier services h k =
    let r = build_pricing payload tier services in
    let base = sum_by catalog_cost payload.materials_summary in
    let less = discount_of-le base tier.rate h in
    let before = r.subtotal + r.services_total in
    let most : r.discount_amount ≤ before = omega (arith, less, k) in
    (
      before - r.discount_amount,
      record {
        total = ground (arith, most);
        balance = omega (arith, most);
        discounted = less;
        at_least = omega (arith, less, k);
        nearest = discount_of_nearest base tier.rate;
      },
    )
