-- ===== src/Cutting/Models.antt =====
-- src/cutting/models.py, enums.py and parameters.py: the data of the cutting domain.
-- A length is a natural number of hundredths of a millimetre: boards and pieces come in whole
-- millimetres, half of a board's width and the configured kerf and trims are then exact.
use opticutter.Prelude.{
  ℕ, zero, suc, ◌-◌, ◌*◌, Bool, true, false, ◌&&◌, ◌||◌, List, leb, sum_by, Result, ok, value_error,
  ◌>>◌, raise_if, ℤ, pos, negsuc, is_negative, pos_part,
}
use opticutter.Prelude.Text.{Text}

pub data SplitRule : Type 0 where
  shorter_leftover_axis longer_leftover_axis minimize_area : SplitRule
  maximize_area shorter_axis longer_axis : SplitRule

pub data PackingStrategy : Type 0 where
  max_efficiency long_offcuts : PackingStrategy

unfoldable pub packing_strategy_split_rule : PackingStrategy → SplitRule
packing_strategy_split_rule max_efficiency = shorter_leftover_axis
packing_strategy_split_rule long_offcuts = longer_axis

pub record CuttingParameters : Type 0 where
  pub kerf : ℕ
  pub top_trim : ℕ
  pub bottom_trim : ℕ
  pub left_trim : ℕ
  pub right_trim : ℕ

-- `CuttingParameters()`
abbrev pub default_parameters : CuttingParameters
default_parameters = record {
  kerf = 0;
  top_trim = 0;
  bottom_trim = 0;
  left_trim = 0;
  right_trim = 0;
}

unfoldable pub make_parameters : ℤ → ℤ → ℤ → ℤ → ℤ → Result CuttingParameters
make_parameters kerf top bottom left right = do
  raise_if (is_negative kerf) value_error
  raise_if (is_negative top) value_error
  raise_if (is_negative bottom) value_error
  raise_if (is_negative left) value_error
  raise_if (is_negative right) value_error
  ok (record {
    kerf = pos_part kerf;
    top_trim = pos_part top;
    bottom_trim = pos_part bottom;
    left_trim = pos_part left;
    right_trim = pos_part right;
  })

-- The optimizer builds rectangles from differences that it has tested, so none is negative.
pub record Rectangle : Type 0 where
  pub x : ℕ
  pub y : ℕ
  pub width : ℕ
  pub height : ℕ

unfoldable pub rectangle_post_init : ℤ → ℤ → Result (Unit {0})
rectangle_post_init width height = raise_if (is_negative width || is_negative height) value_error

abbrev pub area : Rectangle → ℕ
area r = r.width * r.height

unfoldable pub contains : Rectangle → ℕ → ℕ → Bool
contains r width height = leb width r.width && leb height r.height

pub record Cut : Type 0 where
  pub x : ℕ
  pub y : ℕ
  pub length : ℕ
  pub is_horizontal : Bool

pub record Piece : Type 0 where
  pub id : Text
  pub width : ℕ
  pub height : ℕ
  pub quantity : ℕ
  pub can_rotate : Bool
  pub priority : ℕ

abbrev pub piece_area : Piece → ℕ
piece_area p = p.width * p.height

-- z <= 0
abbrev pub is_nonpositive : ℤ → Bool
is_nonpositive (pos zero) = true
is_nonpositive (pos (suc n)) = false
is_nonpositive (negsuc n) = true

unfoldable pub make_piece : Text → ℤ → ℤ → ℤ → Bool → ℕ → Result Piece
make_piece id width height quantity can_rotate priority = do
  raise_if (is_nonpositive width || is_nonpositive height) value_error
  raise_if (is_nonpositive quantity) value_error
  ok (record {
    id = id;
    width = pos_part width;
    height = pos_part height;
    quantity = pos_part quantity;
    can_rotate = can_rotate;
    priority = priority;
  })

pub record PlacedPiece : Type 0 where
  pub piece : Piece
  pub x : ℕ
  pub y : ℕ
  pub width : ℕ
  pub height : ℕ
  pub rotated : Bool

pub record Material : Type 0 where
  pub id : Text
  pub width : ℕ
  pub height : ℕ
  pub thickness : ℕ
  pub cost_per_unit : ℕ
  pub half_board : Bool

abbrev pub material_area : Material → ℕ
material_area m = m.width * m.height

unfoldable pub make_material : Text → ℤ → ℤ → ℤ → ℕ → Bool → Result Material
make_material id width height thickness cost_per_unit half_board = do
  raise_if (is_nonpositive width || is_nonpositive height) value_error
  raise_if (is_negative thickness) value_error
  ok (record {
    id = id;
    width = pos_part width;
    height = pos_part height;
    thickness = pos_part thickness;
    cost_per_unit = cost_per_unit;
    half_board = half_board;
  })

pub record CuttingLayout : Type 0 where
  pub material : Material
  pub placed_pieces : List PlacedPiece
  pub remainders : List Rectangle
  pub sheet_number : ℕ
  pub cuts : List Cut

abbrev pub placed_area : PlacedPiece → ℕ
placed_area p = p.width * p.height

unfoldable pub used_area : CuttingLayout → ℕ
used_area l = sum_by placed_area l.placed_pieces

unfoldable pub cut_length : CuttingLayout → ℕ
cut_length l = sum_by (λ c. c.length) l.cuts

-- The subtraction is exact where the pieces fit on the board, which is proved of every layout built.
unfoldable pub waste_area : CuttingLayout → ℕ
waste_area l = material_area l.material - used_area l
