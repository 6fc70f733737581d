-- ===== src/Optimizations/Pool.antt =====
-- src/modules/optimizations/pool.py. Sizes of materials are positive, as the request's validation leaves
-- them.
pub mod Outcome
pub mod FillOrder
use opticutter.Prelude.{
  ℕ, zero, suc, ◌+◌, Bool, true, false, ◌||◌, ◌&&◌, Option, none, some, List, [], ◌∷◌, ◌++◌, length,
  filter, sum_by, ltb, ◌==◌, if◌then◌else◌, ok, err,
}
use opticutter.Prelude.Text.{Text, same_text}
pub use opticutter.Optimizations.Materials.{
  ResolvedMaterial, PoolFillOrder, auto, offcuts_first, catalog_first,
}
use opticutter.Cutting.Models.{
  PackingStrategy, CuttingParameters, Piece, PlacedPiece, Material, CuttingLayout, waste_area,
}
use opticutter.Cutting.Guillotine.{Config, Sheet, init, optimize}
use opticutter.Cutting.MultiSheet.{make_multi, optimize_multi, layout_of}

abbrev pub domain_material : ResolvedMaterial → Material
domain_material rm = record {
  id = rm.key;
  width = rm.width;
  height = rm.height;
  thickness = rm.thickness;
  cost_per_unit = rm.cost_per_unit;
  half_board = false;
}

-- `offcut.quantity or 1`
abbrev pub units_of : ResolvedMaterial → ℕ
units_of rm = elim rm.quantity [ none ↦ 1 | some zero ↦ 1 | some (suc n) ↦ suc n ]

-- the score of a candidate, compared as a tuple
pub record WasteScore : Type 0 where
  pub catalog_waste : ℕ
  pub catalog_sheets : ℕ
  pub sheets : ℕ

unfoldable pub waste_score_lt : WasteScore → WasteScore → Bool
waste_score_lt a b =
    ltb a.catalog_waste b.catalog_waste
    || a.catalog_waste == b.catalog_waste
      && (ltb a.catalog_sheets b.catalog_sheets
          || a.catalog_sheets == b.catalog_sheets && ltb a.sheets b.sheets)

unfoldable pub catalog_waste_score : List CuttingLayout → Text → WasteScore
catalog_waste_score layouts catalog_key =
    let catalog = filter (λ l. same_text l.material.id catalog_key) layouts in
    record {
      catalog_waste = sum_by waste_area catalog;
      catalog_sheets = length catalog;
      sheets = length layouts;
    }

-- `min` keeps the first of two equal candidates
unfoldable pub least_waste : List CuttingLayout → List CuttingLayout → Text → List CuttingLayout
unfolding waste_score_lt catalog_waste_score
least_waste first second catalog_key =
    if waste_score_lt (catalog_waste_score second catalog_key)
      (catalog_waste_score first catalog_key)
    then second
    else first

-- `if not remaining: return layouts`
abbrev pub if_none_left : List Piece → List CuttingLayout → List CuttingLayout → List CuttingLayout
if_none_left [] layouts later = layouts
if_none_left (p ∷ ps) layouts later = later

module _ (cutting_params : CuttingParameters) (strategy : PackingStrategy) (min_rect_size : ℕ) where
  -- what a run on an offcut returns, with its layout if something is placed
  unfoldable pub offcut_layout :
      Material → ℕ → Sheet × (List PlacedPiece × List Piece) → Option CuttingLayout × List Piece
  offcut_layout material sheet_number (s, ([], unplaced)) = (none, unplaced)
  offcut_layout material sheet_number (s, (p ∷ placed, unplaced)) = (
    some (record {
      material = material;
      placed_pieces = p ∷ placed;
      remainders = s.remainders;
      sheet_number = sheet_number;
      cuts = s.cuts;
    }),
    unplaced,
  )

  unfoldable pub pack_offcut : Material → List Piece → ℕ → Option CuttingLayout × List Piece
  unfolding offcut_layout
  pack_offcut material pieces sheet_number =
      elim (init material (some cutting_params) none min_rect_size strategy) [
        | err e ↦ (none, pieces)
        | ok (c, s) ↦ offcut_layout material sheet_number (optimize c pieces s)
      ]

  -- `for unit in range(1, units + 1)`, with `left` units to go
  unfoldable pub fill_units : Material → ℕ → ℕ → List Piece → List CuttingLayout × List Piece
  fill_units material zero sheet_number remaining = ([], remaining)
  fill_units material (suc left) sheet_number [] = ([], [])
  fill_units material (suc left) sheet_number (p ∷ remaining) =
      let (layout, unplaced) = pack_offcut material (p ∷ remaining) sheet_number in
      let (layouts, last) = fill_units material left (suc sheet_number) unplaced in
      elim layout [ none ↦ ([], unplaced) | some l ↦ (l ∷ layouts, last) ]

  unfoldable pub fill_offcuts : List ResolvedMaterial → List Piece → List CuttingLayout × List Piece
  unfolding fill_units
  fill_offcuts [] remaining = ([], remaining)
  fill_offcuts (offcut ∷ offcuts) remaining =
      let (layouts, unplaced) = fill_units (domain_material offcut) (units_of offcut) 1 remaining in
      let (more, last) = fill_offcuts offcuts unplaced in (layouts ++ more, last)

  unfoldable pub fill_catalog : ResolvedMaterial → List Piece → ℕ → List CuttingLayout × List Piece
  fill_catalog primary [] max_sheets = ([], [])
  fill_catalog primary (p ∷ pieces) zero = ([], p ∷ pieces)
  fill_catalog primary (p ∷ pieces) (suc n) =
      optimize_multi
        (make_multi (domain_material primary) (some cutting_params) none (suc n) min_rect_size
          strategy)
        (p ∷ pieces)

  module _ (pieces : List Piece) (primary : ResolvedMaterial) (offcuts : List ResolvedMaterial)
      (max_sheets : ℕ) where
    unfoldable pub fill_offcuts_first : List CuttingLayout
    unfolding fill_offcuts fill_catalog
    fill_offcuts_first =
        let (offcut_layouts, remaining) = fill_offcuts offcuts pieces in
        let (catalog_layouts, unplaced) = fill_catalog primary remaining max_sheets in
        offcut_layouts ++ catalog_layouts

    -- `k` catalog boards first, then the offcuts
    unfoldable pub with_boards : ℕ → List CuttingLayout × List Piece
    unfolding fill_offcuts fill_catalog
    with_boards k =
        let (catalog_layouts, remaining) = fill_catalog primary pieces k in
        let (offcut_layouts, last) = fill_offcuts offcuts remaining in
        (catalog_layouts ++ offcut_layouts, last)

    -- `for k in range(nc + 1)`, with `left` values to go; `catalog_only` after the last
    unfoldable pub fewest_boards : List CuttingLayout → ℕ → ℕ → List CuttingLayout
    unfolding with_boards
    fewest_boards catalog_only zero k = catalog_only
    fewest_boards catalog_only (suc left) k =
        let later = fewest_boards catalog_only left (suc k) in
        let (layouts, remaining) = with_boards k in if_none_left remaining layouts later

    unfoldable pub fill_catalog_first : List CuttingLayout
    unfolding fill_catalog fewest_boards
    fill_catalog_first =
        let (catalog_only, unplaced) = fill_catalog primary pieces max_sheets in
        fewest_boards catalog_only (suc (length catalog_only)) 0

    abbrev pub by_order : PoolFillOrder → List CuttingLayout
    by_order offcuts_first = fill_offcuts_first
    by_order catalog_first = fill_catalog_first
    by_order auto = least_waste fill_offcuts_first fill_catalog_first primary.key

  unfoldable pub optimize_pool :
      List Piece → ResolvedMaterial → List ResolvedMaterial → ℕ → List CuttingLayout
  unfolding fill_catalog least_waste fill_offcuts_first fill_catalog_first
  optimize_pool [] primary offcuts max_sheets = []
  optimize_pool (p ∷ pieces) primary [] max_sheets =
      (fill_catalog primary (p ∷ pieces) max_sheets).0
  optimize_pool (p ∷ pieces) primary (o ∷ offcuts) max_sheets =
      by_order (p ∷ pieces) primary (o ∷ offcuts) max_sheets primary.fill_order
