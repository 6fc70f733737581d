-- ===== src/Optimizations/HalfBoards.antt =====
-- src/modules/optimizations/half_boards.py. The markup is in ten-thousandths, and an amount is rounded
-- to the nearest cent, a tie upwards.
pub mod Sound
use opticutter.Prelude.{
  ℕ, ◌+◌, ◌*◌, ◌/◌, Bool, true, false, Option, none, some, List, [], ◌∷◌, map, if◌then◌else◌, ok,
  err,
}
use opticutter.Prelude.Text.{Text, same_text}
use opticutter.Cutting.Models.{
  PackingStrategy, CuttingParameters, Piece, PlacedPiece, Material, CuttingLayout,
}
use opticutter.Cutting.Guillotine.{Sheet, init, optimize}
use opticutter.Optimizations.Materials.{ResolvedMaterial, is_catalog}

-- resolved.get(key)
unfoldable pub find_resolved : Text → List ResolvedMaterial → Option ResolvedMaterial
find_resolved key [] = none
find_resolved key (rm ∷ rms) = if same_text rm.key key then some rm else find_resolved key rms

-- round(cost / 2 * (1 + markup), 2)
unfoldable pub half_cost : ℕ → ℕ → ℕ
half_cost cost markup = (cost * (10000 + markup) + 10000) / 20000

unfoldable pub half_material : CuttingLayout → ResolvedMaterial → ℕ → Material
unfolding half_cost
half_material layout rm markup = record {
  id = layout.material.id;
  width = rm.width / 2;
  height = rm.height;
  thickness = rm.thickness;
  cost_per_unit = half_cost rm.cost_per_unit markup;
  half_board = true;
}

-- `if unplaced: return None`
unfoldable pub half_layout :
    Material → ℕ → Sheet × (List PlacedPiece × List Piece) → Option CuttingLayout
half_layout material sheet_number (s, (placed, [])) = some (record {
  material = material;
  placed_pieces = placed;
  remainders = s.remainders;
  sheet_number = sheet_number;
  cuts = s.cuts;
})
half_layout material sheet_number (s, (placed, p ∷ unplaced)) = none

module _ (params : CuttingParameters) (strategy : PackingStrategy) (markup min_rect_size : ℕ) where
  unfoldable pub repack : Material → ℕ → List Piece → Option CuttingLayout
  unfolding half_layout
  repack material sheet_number [] = none
  repack material sheet_number (p ∷ pieces) =
      elim (init material (some params) none min_rect_size strategy) [
        | err e ↦ none
        | ok (c, s) ↦ half_layout material sheet_number (optimize c (p ∷ pieces) s)
      ]

  unfoldable pub fit_on_half_board : CuttingLayout → ResolvedMaterial → Option CuttingLayout
  unfolding half_material repack
  fit_on_half_board layout rm =
      repack (half_material layout rm markup) layout.sheet_number
        (map (λ p. p.piece) layout.placed_pieces)

  unfoldable pub halved : List ResolvedMaterial → CuttingLayout → CuttingLayout
  unfolding find_resolved fit_on_half_board
  halved resolved layout = elim (find_resolved layout.material.id resolved) [
    | none ↦ layout
    | some rm ↦
        if is_catalog rm
        then (elim (fit_on_half_board layout rm) [ none ↦ layout | some half ↦ half ])
        else layout
  ]

  -- the layouts of each material, after the loop
  unfoldable pub apply_half_boards :
      List ResolvedMaterial → List (List CuttingLayout) → List (List CuttingLayout)
  unfolding halved
  apply_half_boards resolved results = map (map (halved resolved)) results
