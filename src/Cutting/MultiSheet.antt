-- ===== src/Cutting/MultiSheet.antt =====
-- src/cutting/optimizer.py: `MultiSheetGuillotineOptimizer`. The attributes that `__init__` sets are
-- a `Multi`; `self.layouts` is passed on and returned.
pub mod Progress
pub mod Conservation
pub mod Completeness
use opticutter.Prelude.{ℕ, zero, suc, Option, none, some, List, [], ◌∷◌, ◌++◌, false, ok, err}
use opticutter.Cutting.Models.{
  SplitRule, PackingStrategy, packing_strategy_split_rule, CuttingParameters, default_parameters,
  Piece, PlacedPiece, Material, CuttingLayout,
}
use opticutter.Cutting.Guillotine.{Sheet, init, optimize, expand, sort_pieces, get_or_default}

pub record Multi : Type 0 where
  pub material_template : Material
  pub strategy : PackingStrategy
  pub split_rule : SplitRule
  pub cutting_params : CuttingParameters
  pub max_sheets : ℕ
  pub min_rect_size : ℕ

unfoldable pub make_multi :
    Material → Option CuttingParameters → Option SplitRule → ℕ → ℕ → PackingStrategy → Multi
make_multi template params split_rule max_sheets min_rect_size strategy = record {
  material_template = template;
  strategy = strategy;
  split_rule = get_or_default split_rule (packing_strategy_split_rule strategy);
  cutting_params = get_or_default params default_parameters;
  max_sheets = max_sheets;
  min_rect_size = min_rect_size;
}

-- the copy of the template that each round makes; `half_board` takes its default
abbrev pub board : Multi → Material
board m = record m.material_template { half_board = false }

-- `if placed: layout = CuttingLayout(…)`; `none` leaves the loop
unfoldable pub layout_of :
    Material → ℕ → Sheet × (List PlacedPiece × List Piece) → Option (CuttingLayout × List Piece)
layout_of material sheet_number (s, ([], unplaced)) = none
layout_of material sheet_number (s, (p ∷ placed, unplaced)) = some (
  record {
    material = material;
    placed_pieces = p ∷ placed;
    remainders = s.remainders;
    sheet_number = sheet_number;
    cuts = s.cuts;
  },
  unplaced,
)

-- The body of the loop; `none` leaves it.
unfoldable pub fill_sheet : Multi → ℕ → List Piece → Option (CuttingLayout × List Piece)
unfolding layout_of
fill_sheet m sheet_number remaining =
    elim (init (board m) (some m.cutting_params) (some m.split_rule) m.min_rect_size m.strategy) [
      | err e ↦ none
      | ok (c, s) ↦ layout_of (board m) sheet_number (optimize c remaining s)
    ]

-- `while remaining_pieces and sheet_count < self.max_sheets`, with `left` sheets to go
unfoldable pub fill_sheets :
    Multi → ℕ → ℕ → List Piece → List CuttingLayout → List CuttingLayout × List Piece
fill_sheets m zero sheet_count remaining layouts = (layouts, remaining)
fill_sheets m (suc left) sheet_count [] layouts = (layouts, [])
fill_sheets m (suc left) sheet_count (p ∷ remaining) layouts =
    elim (fill_sheet m (suc sheet_count) (p ∷ remaining)) [
      | none ↦ (layouts, p ∷ remaining)
      | some (layout, unplaced) ↦
          fill_sheets m left (suc sheet_count) unplaced (layouts ++ layout ∷ [])
    ]

-- On an optimizer that has no layouts yet.
unfoldable pub optimize_multi : Multi → List Piece → List CuttingLayout × List Piece
optimize_multi m [] = ([], [])
optimize_multi m (p ∷ pieces) =
    fill_sheets m m.max_sheets 0 (sort_pieces (expand (p ∷ pieces)) m.strategy) []
