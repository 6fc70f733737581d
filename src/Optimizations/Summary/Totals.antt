-- ===== src/Optimizations/Summary/Totals.antt =====
-- The summary of the materials accounts for every sheet, and what it adds up to.
use opticutter.Prelude.{
  ℕ, ◌+◌, ◌≤◌, ◌≡◌, ◌⊎◌, refl, sym, ap, subst, ◌∙◌, inl, inr, Option, none, some, List, [], ◌∷◌,
  map, length, sum_by, All, Bool-cases, Option-cases, ok, ok-injective, if◌then◌else◌, arith,
}
use mathlib.Core.Option.{some-injective}
use opticutter.Prelude.Text.{Text, same_text, same_text_eq}
use opticutter.Cutting.Models.{CuttingLayout}
use opticutter.Settings.{PriceTier}
use opticutter.Optimizations.Materials.{
  Product, MaterialInput, from_catalog, inline, is_board, find_product, resolve_catalog,
  resolve_inline, resolve, ResolvedMaterial,
}
use opticutter.Optimizations.HalfBoards.{find_resolved}
use opticutter.Optimizations.Pieces.{Requirement}
use opticutter.Optimizations.Pricing.{catalog_cost, ServiceLine}
use opticutter.Optimizations.Pricing.Bounds.{IsPriced, build_pricing-IsPriced}
use opticutter.Optimizations.Summary.{
  MaterialLine, of_resolved, new_line, is_line_of, add_to_lines, add_all, build_materials_summary,
  is_pooled_offcut, total_boards_cost, payload_of,
}

-- Only a catalog board has a product, and only an offcut a pool.
abbrev pub IsResolved : ResolvedMaterial → Type 0
IsResolved rm = (rm.product_id ≡ none) ⊎ (rm.pool_key ≡ none)

pub resolve-IsResolved :
    (products : List Product) (m : MaterialInput) {rm : ResolvedMaterial}
    → resolve products m ≡ ok rm
    → IsResolved rm
unfolding resolve resolve_catalog resolve_inline
resolve-IsResolved products (inline m) h = inl (ap (λ r. r.product_id) (sym (ok-injective h)))
resolve-IsResolved products (from_catalog m) h =
    elim (Option-cases (find_product m.product_id products)) [
      | inl e ↦ absurd (ground (arith, rw (e, resolve_catalog) at h))
      | inr (p, e) ↦ elim (Bool-cases (is_board p.type)) [
        | inr f ↦ absurd (ground (arith, rw (e, resolve_catalog, f) at h))
        | inl f ↦ inr (ap (λ r. r.pool_key) (sym (ok-injective (rw (e, resolve_catalog, f) at h))))
      ]
    ]

find_resolved-All :
    (P : ResolvedMaterial → Type 0) (key : Text) (rms : List ResolvedMaterial)
    {rm : ResolvedMaterial}
    → All P rms
    → find_resolved key rms ≡ some rm
    → P rm
unfolding find_resolved
find_resolved-All P key [] h e = absurd (ground (arith, e))
find_resolved-All P key (r ∷ rs) h e = elim (Bool-cases (same_text r.key key)) [
  | inl f ↦ subst P (some-injective _ _ (rw (f, find_resolved) at e)) h.0
  | inr f ↦ find_resolved-All P key rs h.1 (rw (f, find_resolved) at e)
]

module _ (format_dims : ℕ → ℕ → Text) (resolved : List ResolvedMaterial) where
  abbrev product_of_key : Text → Option ℕ
  product_of_key key = of_resolved (find_resolved key resolved) (λ r. r.product_id)

  abbrev cost_if : Option ℕ → ℕ → ℕ
  cost_if none cost = 0
  cost_if (some id) cost = cost

  -- what a sheet adds to the catalog lines
  abbrev catalog_share : CuttingLayout → ℕ
  catalog_share l = cost_if (product_of_key l.material.id) l.material.cost_per_unit

  abbrev line_share : MaterialLine → ℕ
  line_share e = cost_if e.product_id e.total_cost

  abbrev IsNamed : MaterialLine → Type 0
  IsNamed e = e.product_id ≡ product_of_key e.material_key

  -- what the lines amount to
  record IsSum (shares costs sheets : ℕ) (lines : List MaterialLine) : Type 0 where
    named : All IsNamed lines
    catalog : sum_by line_share lines ≡ shares
    cost : sum_by (λ e. e.total_cost) lines ≡ costs
    count : sum_by (λ e. e.count) lines ≡ sheets

  add_to_lines-IsSum :
      (l : CuttingLayout) (lines : List MaterialLine) (shares costs sheets : ℕ)
      → IsSum shares costs sheets lines
      → IsSum
          (shares + catalog_share l)
          (costs + l.material.cost_per_unit)
          (sheets + 1)
          (add_to_lines format_dims resolved l lines)
  unfolding add_to_lines new_line
  add_to_lines-IsSum l [] shares costs sheets h = record {
    named = (refl, tt);
    catalog = ground (arith, h.catalog);
    cost = omega (arith, h.cost);
    count = omega (arith, h.count);
  }
  add_to_lines-IsSum l (e ∷ es) shares costs sheets h =
      elim (Bool-cases (is_line_of format_dims resolved l e)) [
        | inl f ↦
            let key : e.material_key ≡ l.material.id =
              same_text_eq e.material_key l.material.id (ground (arith, f)) in
            let id : e.product_id ≡ product_of_key l.material.id =
              h.named.0 ∙ ap product_of_key key in
            rw f (record {
              named = h.named;
              catalog = ground (arith, h.catalog, id);
              cost = omega (arith, h.cost);
              count = omega (arith, h.count);
            })
        | inr f ↦
            let rest =
              add_to_lines-IsSum l es (sum_by line_share es) (sum_by (λ x. x.total_cost) es)
                (sum_by (λ x. x.count) es)
                (record { named = h.named.1; catalog = refl; cost = refl; count = refl }) in
            rw f (record {
              named = (h.named.0, rest.named);
              catalog = omega (arith, h.catalog, rest.catalog);
              cost = omega (arith, h.cost, rest.cost);
              count = omega (arith, h.count, rest.count);
            })
      ]

  add_all-IsSum :
      (ls : List CuttingLayout) (lines : List MaterialLine) (shares costs sheets : ℕ)
      → IsSum shares costs sheets lines
      → IsSum
          (shares + sum_by catalog_share ls)
          (costs + sum_by (λ l. l.material.cost_per_unit) ls)
          (sheets + length ls)
          (add_all format_dims resolved ls lines)
  unfolding add_all
  add_all-IsSum [] lines shares costs sheets h = record {
    named = h.named;
    catalog = omega (arith, h.catalog);
    cost = omega (arith, h.cost);
    count = omega (arith, h.count);
  }
  add_all-IsSum (l ∷ ls) lines shares costs sheets h =
      let rest =
        add_all-IsSum ls (add_to_lines format_dims resolved l lines) (shares + catalog_share l)
          (costs + l.material.cost_per_unit) (sheets + 1)
          (add_to_lines-IsSum l lines shares costs sheets h) in
      record {
        named = rest.named;
        catalog = omega (arith, rest.catalog);
        cost = omega (arith, rest.cost);
        count = omega (arith, rest.count);
      }

  summary-IsSum :
      (ls : List CuttingLayout)
      → IsSum
          (sum_by catalog_share ls)
          (sum_by (λ l. l.material.cost_per_unit) ls)
          (length ls)
          (build_materials_summary format_dims resolved ls)
  unfolding build_materials_summary
  summary-IsSum ls =
      let h =
        add_all-IsSum ls [] 0 0 0
          (record { named = tt; catalog = refl; cost = refl; count = refl }) in
      record {
        named = h.named;
        catalog = omega (arith, h.catalog);
        cost = omega (arith, h.cost);
        count = omega (arith, h.count);
      }

  -- The lines of the materials summary count every sheet once and add up to the cost of all sheets.
  pub summary_balance :
      (ls : List CuttingLayout)
      → let lines = build_materials_summary format_dims resolved ls in
        (sum_by (λ e. e.count) lines ≡ length ls)
        × (sum_by (λ e. e.total_cost) lines ≡ sum_by (λ l. l.material.cost_per_unit) ls)
  summary_balance ls = let h = summary-IsSum ls in (h.count, h.cost)

  module _ (known : All IsResolved resolved) where
    share-le :
        (l : CuttingLayout)
        → catalog_share l
          ≤ (if is_pooled_offcut format_dims resolved l then 0 else l.material.cost_per_unit)
    share-le l = elim (Option-cases (find_resolved l.material.id resolved)) [
      | inl e ↦ rw e (omega arith)
      | inr (rm, e) ↦ elim (find_resolved-All IsResolved l.material.id resolved known e) [
        | inl no_product ↦ rw (e, no_product) (omega arith)
        | inr no_pool ↦ ground (arith, e, no_pool)
      ]
    ]

    shares-le :
        (ls : List CuttingLayout)
        → sum_by catalog_share ls ≤ total_boards_cost format_dims resolved ls
    unfolding total_boards_cost
    shares-le [] = omega arith
    shares-le (l ∷ ls) = elim (Bool-cases (is_pooled_offcut format_dims resolved l)) [
      | inl e ↦
          let here : catalog_share l ≤ 0 = rw e at (share-le l) in
          rw e (omega (arith, here, shares-le ls))
      | inr e ↦
          let here : catalog_share l ≤ l.material.cost_per_unit = rw e at (share-le l) in
          rw e (omega (arith, here, shares-le ls))
    ]

    line_shares :
        (lines : List MaterialLine)
        → sum_by catalog_cost
            (map (λ e. record { product_id = e.product_id; total_cost = e.total_cost }) lines)
          ≡ sum_by line_share lines
    line_shares [] = refl
    line_shares (e ∷ es) = ground (arith, line_shares es)

    -- The quote of an optimization, whatever its sheets and services: where the rate of the tier is at
    -- most 100%, the total is no less than the edge bandings and the services, it and the discount
    -- add up to the subtotal and the services, the discount is at most its base, and it is the rate of the base to the
    -- nearest cent.
    pub quote-IsPriced :
        (products : List Product) (waste : ℕ) (reqs : List Requirement) (ls : List CuttingLayout)
        (tier : PriceTier) (services : List ServiceLine)
        → tier.rate ≤ 10000
        → (n : ℕ) × IsPriced
            (payload_of format_dims resolved products waste reqs ls)
            tier
            services
            n
    unfolding payload_of
    quote-IsPriced products waste reqs ls tier services h =
        build_pricing-IsPriced (payload_of format_dims resolved products waste reqs ls) tier
          services h
          (omega (
            arith,
            line_shares (build_materials_summary format_dims resolved ls),
            (summary-IsSum ls).catalog,
            shares-le ls,
          ))
