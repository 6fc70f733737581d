-- ===== src/Optimizations/Summary.antt =====
-- src/modules/optimizations/service.py: `_build_materials_summary`, `_build_edge_bandings_summary` and
-- the totals of `_build_result_payload`. An area is in square centimetres, an edge length is in
-- hundredths of a millimetre and is billed in centimetres; rounding is to the nearest, a tie upwards.
-- The average efficiency (a mean of floats) is not modelled. `format_dims` is f"{width:g}×{height:g}".
pub mod Totals
use opticutter.Prelude.{
  ℕ, ◌+◌, ◌*◌, ◌/◌, Bool, true, false, not, ◌&&◌, Option, none, some, List, [], ◌∷◌, ◌++◌, map,
  filter, length, sum_by, ◌==◌, if◌then◌else◌,
}
use opticutter.Prelude.Text.{Text, codes, same_text}
use opticutter.Cutting.Models.{CuttingLayout, material_area}
use opticutter.Optimizations.Materials.{MaterialSource, Product, find_product, ResolvedMaterial}
use opticutter.Optimizations.HalfBoards.{find_resolved}
use opticutter.Optimizations.Pieces.{Requirement, EdgeBandingSpec, side_length}
use opticutter.Optimizations.Pricing.{SummaryLine, Payload}

pub record MaterialLine : Type 0 where
  pub material_key : Text
  pub source : Option MaterialSource
  pub product_id : Option ℕ
  pub product_code : Text
  pub product_name : Text
  pub width : ℕ
  pub height : ℕ
  pub thickness : ℕ
  pub count : ℕ
  pub total_area : ℕ
  pub cost_per_unit : ℕ
  pub total_cost : ℕ
  pub half_board : Bool

-- `value or other`, for a text that may be missing or empty
abbrev pub text_or : Option Text → Text → Text
text_or none other = other
text_or (some []) other = other
text_or (some (c ∷ cs)) other = c ∷ cs

-- an attribute of the resolved material, if there is one
abbrev pub of_resolved {ℓ} :
    {A : Type ℓ} → Option ResolvedMaterial → (ResolvedMaterial → Option A) → Option A
of_resolved none f = none
of_resolved (some rm) f = f rm

abbrev pub same_flag : Bool → Bool → Bool
same_flag true b = b
same_flag false b = not b

-- round(area / 1_000_000, 4), from hundredths of a millimetre squared
abbrev pub rounded_area : ℕ → ℕ
rounded_area a = (a + 500000) / 1000000

module _ (format_dims : ℕ → ℕ → Text) (resolved : List ResolvedMaterial) where
  unfoldable pub new_line : CuttingLayout → MaterialLine
  unfolding find_resolved
  new_line l =
      let m = l.material in
      let rm = find_resolved m.id resolved in
      let base_name = text_or (of_resolved rm (λ r. r.name)) (format_dims m.width m.height) in
      record {
        material_key = m.id;
        source = of_resolved rm (λ r. some r.source);
        product_id = of_resolved rm (λ r. r.product_id);
        product_code = text_or (of_resolved rm (λ r. r.code)) m.id;
        product_name = if m.half_board then base_name ++ codes " (medio tablero)" else base_name;
        width = m.width;
        height = m.height;
        thickness = m.thickness;
        count = 0;
        total_area = 0;
        cost_per_unit = m.cost_per_unit;
        total_cost = 0;
        half_board = m.half_board;
      }

  abbrev pub add_sheet : CuttingLayout → MaterialLine → MaterialLine
  add_sheet l e = record e {
    count = e.count + 1;
    total_area = e.total_area + rounded_area (material_area l.material);
    total_cost = e.total_cost + l.material.cost_per_unit;
  }

  abbrev pub is_line_of : CuttingLayout → MaterialLine → Bool
  is_line_of l e =
      same_text e.material_key l.material.id && same_flag e.half_board l.material.half_board

  -- the body of the loop
  unfoldable pub add_to_lines : CuttingLayout → List MaterialLine → List MaterialLine
  unfolding new_line
  add_to_lines l [] = add_sheet l (new_line l) ∷ []
  add_to_lines l (e ∷ es) =
      let rest = e ∷ add_to_lines l es in if is_line_of l e then add_sheet l e ∷ es else rest

  unfoldable pub add_all : List CuttingLayout → List MaterialLine → List MaterialLine
  unfolding add_to_lines
  add_all [] lines = lines
  add_all (l ∷ ls) lines = add_all ls (add_to_lines l lines)

  unfoldable pub build_materials_summary : List CuttingLayout → List MaterialLine
  unfolding add_all
  build_materials_summary layouts = add_all layouts []

  abbrev pub is_pooled_offcut : CuttingLayout → Bool
  is_pooled_offcut l = elim (find_resolved l.material.id resolved) [
    | none ↦ false
    | some rm ↦ elim rm.pool_key [ none ↦ false | some key ↦ true ]
  ]

  abbrev pub billed_layouts : List CuttingLayout → List CuttingLayout
  billed_layouts layouts = filter (λ l. not (is_pooled_offcut l)) layouts

  abbrev pub total_boards_used : List CuttingLayout → ℕ
  total_boards_used layouts = length (billed_layouts layouts)

  unfoldable pub total_boards_cost : List CuttingLayout → ℕ
  total_boards_cost layouts = sum_by (λ l. l.material.cost_per_unit) (billed_layouts layouts)

pub record EdgeLine : Type 0 where
  pub product_id : Option ℕ
  pub product_code : Option Text
  pub product_name : Option Text
  pub color : Option Text
  pub band_type : Option Text
  pub net_linear_m : ℕ
  pub billed_linear_m : ℕ
  pub price_per_m : ℕ
  pub total_cost : ℕ

abbrev pub same_id : Option ℕ → Option ℕ → Bool
same_id none none = true
same_id (some a) (some b) = a == b
same_id _ _ = false

-- net_mm[id] += length
unfoldable pub add_net : Option ℕ → ℕ → List (Option ℕ × ℕ) → List (Option ℕ × ℕ)
add_net id n [] = (id, n) ∷ []
add_net id n ((i, m) ∷ rest) =
    let later = (i, m) ∷ add_net id n rest in if same_id i id then (i, m + n) ∷ rest else later

-- the banded length of all pieces of a requirement
unfoldable pub banded_length : Requirement → EdgeBandingSpec → ℕ
banded_length req spec = sum_by (side_length req) spec.sides * req.quantity

unfoldable pub net_lengths : List Requirement → List (Option ℕ × ℕ) → List (Option ℕ × ℕ)
unfolding add_net banded_length
net_lengths [] net = net
net_lengths (req ∷ reqs) net = elim req.edge_banding [
  | none ↦ net_lengths reqs net
  | some spec ↦ net_lengths reqs (add_net spec.product_id (banded_length req spec) net)
]

-- the product of an id that has been resolved
abbrev pub product_of : Option ℕ → List Product → Option Product
product_of none products = none
product_of (some id) products = find_product id products

-- round(net_m * (1 + waste), 2)
unfoldable pub billed_of : ℕ → ℕ → ℕ
billed_of waste net = (net * (10000 + waste) + 5000000) / 10000000

abbrev pub price_of : Option Product → ℕ
price_of none = 0
price_of (some p) = p.price

unfoldable pub edge_line : List Product → ℕ → Option ℕ × ℕ → EdgeLine
unfolding billed_of
edge_line products waste (id, net) =
    let product = product_of id products in
    record {
      product_id = id;
      product_code = elim product [ none ↦ none | some p ↦ some p.code ];
      product_name = elim product [ none ↦ none | some p ↦ some p.name ];
      color = elim product [ none ↦ none | some p ↦ p.attributes.color ];
      band_type = elim product [ none ↦ none | some p ↦ p.attributes.band_type ];
      net_linear_m = (net + 500) / 1000;
      billed_linear_m = billed_of waste net;
      price_per_m = price_of product;
      total_cost = (billed_of waste net * price_of product + 50) / 100;
    }

unfoldable pub build_edge_bandings_summary : List Requirement → List Product → ℕ → List EdgeLine × ℕ
unfolding net_lengths edge_line
build_edge_bandings_summary reqs products waste =
    let lines = map (edge_line products waste) (net_lengths reqs []) in
    (lines, sum_by (λ e. e.total_cost) lines)

-- what `build_pricing` reads of the payload
unfoldable pub payload_of :
    (ℕ → ℕ → Text)
    → List ResolvedMaterial
    → List Product
    → ℕ
    → List Requirement
    → List CuttingLayout
    → Payload
unfolding build_materials_summary total_boards_cost build_edge_bandings_summary
payload_of format_dims resolved products waste reqs layouts = record {
  materials_summary =
      map (λ e. record { product_id = e.product_id; total_cost = e.total_cost })
        (build_materials_summary format_dims resolved layouts);
  total_boards_cost = total_boards_cost format_dims resolved layouts;
  total_edge_banding_cost = (build_edge_bandings_summary reqs products waste).1;
}
