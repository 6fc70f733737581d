-- ===== src/Cutting/Tests.antt =====
-- Runs on small boards: what each of the theorems on the cutting engine says of a concrete case.
use mathlib.Core.List.{Perm}
use opticutter.Prelude.{
  ◌≤◌, ◌≡◌, ◌⊎◌, refl, true, false, none, some, List, [], ◌∷◌, ◌++◌, map, All, AllPairs, length,
  sum_by, ok, arith,
}
use opticutter.Cutting.Models.{
  packing_strategy_split_rule, max_efficiency, CuttingParameters, Piece, PlacedPiece, Material,
  contains,
}
use opticutter.Cutting.Guillotine.{
  Config, Sheet, init, optimize, expand, usable, empty_sheet, place_piece, configure, place_all,
  sort_pieces, piece_before, scan, consider, split_remainder, create_split_rectangles,
  split_orientation, horizontal_split_first, score_lt, attempt, cuts_for, expand_copies, fit_score,
  improve, instance_id, max_area, place_at, place_best, place_in, vertical_split_first,
}
use opticutter.Prelude.Text.{decimal, digits_loop}
use opticutter.Prelude.Stable.{sort_by}
use opticutter.Cutting.Guillotine.Packing.{IsPacked}
use opticutter.Cutting.Guillotine.Placement.{NoFit, IsPlacement, place_piece-cases}
use opticutter.Cutting.Guillotine.Expand.{length-expand}
use opticutter.Cutting.Guillotine.Run.{
  IsTrimmed, settings, optimize-ordered, optimize_sound, optimize-perm, optimize-maximal,
}
use opticutter.Cutting.MultiSheet.{Multi, make_multi, optimize_multi}
use opticutter.Cutting.MultiSheet.Progress.{HasRoom, FitsBoard}
use opticutter.Cutting.MultiSheet.Conservation.{IsOutcome, optimize_multi-IsOutcome}
use opticutter.Cutting.Guillotine.Sorting.{Leads}
use opticutter.Cutting.MultiSheet.Completeness.{optimize_multi_complete}

abbrev blade : CuttingParameters
blade = record { kerf = 3; top_trim = 5; bottom_trim = 5; left_trim = 5; right_trim = 5 }

abbrev sheet : Material
sheet = record {
  id = 65 ∷ [];
  width = 200;
  height = 100;
  thickness = 15;
  cost_per_unit = 40;
  half_board = false;
}

abbrev narrow : Material
narrow = record sheet { width = 10 }

-- three shelves of 90 by 40 and a door of 60 by 80
abbrev shelf : Piece
shelf = record {
  id = 83 ∷ [];
  width = 90;
  height = 40;
  quantity = 3;
  can_rotate = true;
  priority = 0;
}

abbrev door : Piece
door = record {
  id = 68 ∷ [];
  width = 60;
  height = 80;
  quantity = 1;
  can_rotate = false;
  priority = 1;
}

abbrev order : List Piece
order = shelf ∷ door ∷ []

abbrev config : Config
config = settings sheet (some blade) none 10 max_efficiency

sheet_built : init sheet (some blade) none 10 max_efficiency ≡ ok (config, empty_sheet config)
unfolding init
sheet_built = refl

abbrev run : Sheet × (List PlacedPiece × List Piece)
run = optimize config order (empty_sheet config)

run_places : length run.1.0 ≡ 3
unfolding optimize place_all sort_pieces sort_by expand piece_before configure place_piece scan
    consider contains usable split_remainder create_split_rectangles split_orientation
    packing_strategy_split_rule horizontal_split_first score_lt attempt cuts_for expand_copies
    fit_score improve instance_id max_area place_at place_best place_in vertical_split_first decimal
    digits_loop
run_places = refl

optimize_sound_example : IsTrimmed config × IsPacked config run.0 × (run.1.0 ≡ run.0.placed_pieces)
optimize_sound_example = optimize_sound sheet (some blade) none 10 max_efficiency sheet_built order

optimize-perm_example : Perm (map (λ p. p.piece) run.1.0 ++ run.1.1) (expand order)
optimize-perm_example = optimize-perm sheet (some blade) none 10 max_efficiency sheet_built order

optimize-maximal_example : All (λ q. NoFit q run.0.remainders) run.1.1
optimize-maximal_example =
    optimize-maximal sheet (some blade) none 10 max_efficiency sheet_built order

optimize-ordered_example :
    AllPairs (Leads max_efficiency) (map (λ p. p.piece) run.1.0)
    × AllPairs (Leads max_efficiency) run.1.1
optimize-ordered_example =
    optimize-ordered sheet (some blade) none 10 max_efficiency sheet_built order

place_piece-cases_example :
    (NoFit shelf (empty_sheet config).remainders
      × (place_piece config shelf (empty_sheet config) ≡ (empty_sheet config, false)))
    ⊎ (((place_piece config shelf (empty_sheet config)).1 ≡ true)
        × IsPlacement config shelf
            (empty_sheet config)
            (place_piece config shelf (empty_sheet config)).0)
place_piece-cases_example = place_piece-cases config shelf (empty_sheet config)

length-expand_example : length (expand order) ≡ 4
length-expand_example = length-expand order

abbrev boards : Multi
boards = make_multi sheet (some blade) none 4 10 max_efficiency

optimize_multi-IsOutcome_example :
    let (layouts, remaining) = optimize_multi boards order in
    IsOutcome boards (expand order) layouts remaining × (length layouts ≤ 4)
unfolding make_multi
optimize_multi-IsOutcome_example = optimize_multi-IsOutcome boards order

boards-HasRoom : HasRoom boards
unfolding make_multi configure
boards-HasRoom = record { across = omega arith; along = omega arith }

order-FitsBoard : All (FitsBoard boards) order
unfolding make_multi configure usable contains
order-FitsBoard = (refl, (refl, tt))

quantities : sum_by (λ p. p.quantity) order ≤ boards.max_sheets
unfolding make_multi
quantities = omega arith

optimize_multi_complete_example : (optimize_multi boards order).1 ≡ []
optimize_multi_complete_example =
    optimize_multi_complete boards boards-HasRoom order order-FitsBoard quantities
