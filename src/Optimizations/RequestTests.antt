-- ===== src/Optimizations/RequestTests.antt =====
-- A small request: its pieces, its patterns, a half board and its price.
use opticutter.Prelude.{
  ℕ, ◌≡◌, ◌≤◌, refl, ap, ◌<◌, inr, Bool, true, false, ◌&&◌, none, some, List, [], ◌∷◌, leb, ltb,
  if◌then◌else◌, ok, All, arith,
}
use mathlib.Core.Option.{some-injective}
use opticutter.Prelude.Text.{Text, codes, digits_loop, decimal}
use opticutter.Cutting.Models.{
  max_efficiency, CuttingParameters, Piece, PlacedPiece, CuttingLayout, make_piece,
}
use opticutter.Cutting.Guillotine.{instance_id}
use opticutter.Settings.{PriceTier}
use opticutter.Optimizations.Materials.{catalog, auto, ResolvedMaterial}
use opticutter.Optimizations.Patterns.{number_end, base_label, group_layouts}
use opticutter.Optimizations.Patterns.Labels.{IsDigits, base_label-instance_id}
use opticutter.Optimizations.Patterns.Groups.{IsGrouping, group_layouts-IsGrouping}
use opticutter.Optimizations.Pieces.{
  Requirement, Built, base_of, based, rounds, total_of, count_of, uid_of, add_piece, build_round,
  build_pieces,
}
use opticutter.Optimizations.Pieces.Unique.{IsBuilt, build_pieces-IsBuilt}
use opticutter.Optimizations.HalfBoards.{find_resolved, halved, apply_half_boards}
use opticutter.Optimizations.HalfBoards.Sound.{
  AllZip, IsBilled, apply_half_boards-IsBilled, halved-cost,
}
use opticutter.Optimizations.Summary.{payload_of}
use opticutter.Optimizations.Pricing.Bounds.{IsPriced}
use opticutter.Optimizations.Summary.Totals.{quote-IsPriced}

abbrev is_ascii : ℕ → Bool
is_ascii c = leb 48 c && leb c 57

is_ascii-IsDigits : IsDigits is_ascii
is_ascii-IsDigits = record { digits = λ d. ground arith; hash = refl }

abbrev door : Requirement
door = record {
  priority = 0;
  height = 30;
  width = 40;
  quantity = 2;
  material_key = codes "b1";
  label = some (codes "A");
  can_rotate = true;
  edge_banding = none;
}

abbrev shelf : Requirement
shelf = record door { label = none; quantity = 1 }

abbrev door_piece : Piece
door_piece = record {
  id = codes "A";
  width = 40;
  height = 30;
  quantity = 2;
  can_rotate = true;
  priority = 0;
}

base_label-instance_id_example :
    base_label is_ascii (instance_id door_piece 1)
    ≡ (if ltb 1 door_piece.quantity then door_piece.id else base_label is_ascii door_piece.id)
base_label-instance_id_example = base_label-instance_id is_ascii is_ascii-IsDigits door_piece 1

two_plain :
    All
      (λ r. (base_label is_ascii r.0 ≡ r.0) × ((0 < r.1.width) × (0 < r.1.height)))
      (based 0 (door ∷ shelf ∷ []))
unfolding based base_of base_label number_end decimal digits_loop
two_plain = ((refl, omega arith), ((refl, omega arith), tt))

build_pieces-IsBuilt_example : (built : Built) × IsBuilt (door ∷ shelf ∷ []) built
build_pieces-IsBuilt_example =
    build_pieces-IsBuilt is_ascii is_ascii-IsDigits (door ∷ shelf ∷ []) two_plain

-- Without the hypothesis two pieces can have the same id.
abbrev copied : Requirement
copied = record door { label = some (codes "A#1"); quantity = 1 }

same_id_twice :
    build_pieces (door ∷ copied ∷ [])
    ≡ ok (record {
      pieces =
          record door_piece { id = codes "A#1"; quantity = 1 }
          ∷ record door_piece { id = codes "A#2"; quantity = 1 }
          ∷ record door_piece { id = codes "A#1"; quantity = 1 }
          ∷ [];
      edge_map = [];
      net_map = [];
    })
unfolding build_pieces based base_of rounds total_of build_round count_of uid_of add_piece decimal
    digits_loop make_piece
same_id_twice = refl

abbrev placed : Text → PlacedPiece
placed id = record {
  piece = record door_piece { id = id; quantity = 1 };
  x = 0;
  y = 0;
  width = 40;
  height = 30;
  rotated = false;
}

abbrev sheet : ℕ → Text → CuttingLayout
sheet number id = record {
  material = record {
    id = codes "b1";
    width = 200;
    height = 100;
    thickness = 15;
    cost_per_unit = 4001;
    half_board = false;
  };
  placed_pieces = placed id ∷ [];
  remainders = [];
  sheet_number = number;
  cuts = [];
}

abbrev sheets : List CuttingLayout
sheets = sheet 1 (codes "A#1") ∷ sheet 2 (codes "A#2") ∷ []

group_layouts-IsGrouping_example : IsGrouping is_ascii sheets (group_layouts is_ascii sheets)
group_layouts-IsGrouping_example = group_layouts-IsGrouping is_ascii sheets

abbrev board : ResolvedMaterial
board = record {
  key = codes "b1";
  width = 200;
  height = 100;
  thickness = 15;
  cost_per_unit = 4001;
  source = catalog;
  product_id = some 1;
  code = none;
  name = none;
  quantity = none;
  pool_key = none;
  fill_order = auto;
}

abbrev blade : CuttingParameters
blade = record { kerf = 3; top_trim = 0; bottom_trim = 0; left_trim = 0; right_trim = 0 }

apply_half_boards-IsBilled_example :
    AllZip
      (AllZip (IsBilled blade max_efficiency 1000 10 (board ∷ [])))
      (sheets ∷ [])
      (apply_half_boards blade max_efficiency 1000 10 (board ∷ []) (sheets ∷ []))
apply_half_boards-IsBilled_example =
    apply_half_boards-IsBilled blade max_efficiency 1000 10 (board ∷ []) (sheets ∷ [])

priced_alike :
    (rm : ResolvedMaterial)
    → find_resolved (codes "b1") (board ∷ []) ≡ some rm
    → ◌≡◌ {A = ℕ} 4001 rm.cost_per_unit
unfolding find_resolved
priced_alike rm e = ap (λ r. r.cost_per_unit) (some-injective _ _ e)

halved-cost_example :
    (halved blade max_efficiency 1000 10 (board ∷ []) (sheet 1 (codes "A"))).material.cost_per_unit
    ≤ 4001
halved-cost_example =
    halved-cost blade max_efficiency 1000 10 (board ∷ []) (sheet 1 (codes "A")) (omega arith)
      priced_alike

abbrev dims : ℕ → ℕ → Text
dims w h = decimal w

abbrev carpenter : PriceTier
carpenter = record { code = codes "carpintero"; name = []; rate = 200; is_active = none }

quote-IsPriced_example :
    (n : ℕ) × IsPriced (payload_of dims (board ∷ []) [] 1000 [] sheets) carpenter [] n
quote-IsPriced_example =
    quote-IsPriced dims (board ∷ []) (inr refl, tt) [] 1000 [] sheets carpenter [] (omega arith)
