-- ===== src/Optimizations/Tests.antt =====
-- A board and one offcut: what the theorems on pools say of a concrete case.
use mathlib.Core.List.{Perm}
use opticutter.Prelude.{◌≡◌, refl, true, none, some, List, [], ◌∷◌}
use opticutter.Cutting.Models.{
  contains, packing_strategy_split_rule, max_efficiency, CuttingParameters, Piece,
}
use opticutter.Cutting.Guillotine.{
  create_split_rectangles, attempt, configure, cuts_for, expand_copies, fit_score,
  horizontal_split_first, improve, instance_id, max_area, place_at, place_best, place_in, score_lt,
  split_orientation, usable, vertical_split_first, sort_pieces, expand, piece_before, init,
  optimize, place_all, place_piece, scan, consider, split_remainder,
}
use opticutter.Cutting.MultiSheet.{optimize_multi, fill_sheets, make_multi, fill_sheet, layout_of}
use opticutter.Prelude.Stable.{sort_by}
use opticutter.Prelude.Text.{decimal, digits_loop}
use opticutter.Cutting.MultiSheet.Conservation.{all_pieces}
use opticutter.Optimizations.Materials.{catalog, client_offcut}
use opticutter.Optimizations.Pool.{
  ResolvedMaterial, auto, fill_catalog, fill_catalog_first, optimize_pool,
}
use opticutter.Optimizations.Pool.FillOrder.{IsPool, optimize_pool-IsPool, catalog_first-complete}

abbrev blade : CuttingParameters
blade = record { kerf = 3; top_trim = 0; bottom_trim = 0; left_trim = 0; right_trim = 0 }

abbrev board : ResolvedMaterial
board = record {
  key = 66 ∷ [];
  width = 200;
  height = 100;
  thickness = 15;
  cost_per_unit = 40;
  source = catalog;
  product_id = some 1;
  code = none;
  name = none;
  quantity = none;
  pool_key = none;
  fill_order = auto;
}

abbrev offcut : ResolvedMaterial
offcut = record {
  key = 79 ∷ [];
  width = 80;
  height = 50;
  thickness = 15;
  cost_per_unit = 0;
  source = client_offcut;
  product_id = none;
  code = none;
  name = none;
  quantity = some 1;
  pool_key = some (66 ∷ []);
  fill_order = auto;
}

abbrev pieces : List Piece
pieces =
    record { id = 80 ∷ []; width = 70; height = 40; quantity = 1; can_rotate = true; priority = 0 }
    ∷ record {
      id = 81 ∷ [];
      width = 150;
      height = 90;
      quantity = 1;
      can_rotate = true;
      priority = 0;
    }
    ∷ []

optimize_pool-IsPool_example :
    IsPool blade max_efficiency 10 board
      (offcut ∷ [])
      5
      pieces
      (optimize_pool blade max_efficiency 10 pieces board (offcut ∷ []) 5)
optimize_pool-IsPool_example =
    optimize_pool-IsPool blade max_efficiency 10 board (offcut ∷ []) 5 pieces

catalog_places_all : (fill_catalog blade max_efficiency 10 board pieces 5).1 ≡ []
unfolding fill_catalog create_split_rectangles attempt configure cuts_for expand_copies fit_score
    horizontal_split_first improve instance_id max_area place_at place_best place_in score_lt
    split_orientation usable vertical_split_first sort_pieces expand piece_before init optimize
    place_all place_piece scan consider split_remainder contains packing_strategy_split_rule
    optimize_multi fill_sheets make_multi fill_sheet layout_of sort_by decimal digits_loop
catalog_places_all = refl

catalog_first-complete_example :
    Perm
      (all_pieces (fill_catalog_first blade max_efficiency 10 pieces board (offcut ∷ []) 5))
      (expand pieces)
catalog_first-complete_example =
    catalog_first-complete blade max_efficiency 10 board (offcut ∷ []) 5 pieces catalog_places_all
