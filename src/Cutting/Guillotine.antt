-- ===== src/Cutting/Guillotine.antt =====
-- src/cutting/optimizer.py: `_sort_pieces` and `GuillotineOptimizer`. What `__init__` computes once
-- is a `Config`; the lists that the methods change are a `Sheet`, passed on and returned.
pub mod Geometry
pub mod Split
pub mod Choice
pub mod Packing
pub mod Placement
pub mod Conservation
pub mod Expand
pub mod Sorting
pub mod Run
use opticutter.Prelude.{
  ℕ, zero, suc, ◌+◌, ◌-◌, max, Bool, true, false, ◌&&◌, ◌||◌, Option, none, some, List, [], ◌∷◌,
  ◌++◌, get_elem?, remove_at, filter, ltb, leb, ◌==◌, if◌then◌else◌, Result, ok, value_error, ◌>>=◌,
  ◌>>◌, raise_if,
}
use opticutter.Prelude.Text.{Text, decimal}
use opticutter.Prelude.Stable.{sort_by}
use opticutter.Cutting.Models.{
  SplitRule, shorter_leftover_axis, longer_leftover_axis, minimize_area, maximize_area,
  shorter_axis, longer_axis, PackingStrategy, max_efficiency, long_offcuts,
  packing_strategy_split_rule, CuttingParameters, default_parameters, Rectangle, area, contains,
  Cut, Piece, piece_area, PlacedPiece, Material,
}

-- The keys (-priority, -area) and (-priority, -height, -width) compared.
unfoldable pub piece_before : PackingStrategy → Piece → Piece → Bool
piece_before max_efficiency a b =
    ltb b.priority a.priority || (a.priority == b.priority && ltb (piece_area b) (piece_area a))
piece_before long_offcuts a b =
    ltb b.priority a.priority
    || (a.priority == b.priority
        && (ltb b.height a.height || (a.height == b.height && ltb b.width a.width)))

unfoldable pub sort_pieces : List Piece → PackingStrategy → List Piece
sort_pieces pieces strategy = sort_by (piece_before strategy) pieces

pub record Config : Type 0 where
  pub material : Material
  pub strategy : PackingStrategy
  pub split_rule : SplitRule
  pub kerf : ℕ
  pub top_trim : ℕ
  pub bottom_trim : ℕ
  pub left_trim : ℕ
  pub right_trim : ℕ
  pub min_rect_size : ℕ

pub record Sheet : Type 0 where
  pub remainders : List Rectangle
  pub placed_pieces : List PlacedPiece
  pub cuts : List Cut

abbrev pub get_or_default {ℓ} : {A : Type ℓ} → Option A → A → A
get_or_default none d = d
get_or_default (some a) d = a

-- 0.01 mm is the unit, so `max(0.01, min_rect_size)` is `max 1 min_rect_size`.
unfoldable pub configure :
    Material → Option CuttingParameters → Option SplitRule → ℕ → PackingStrategy → Config
configure material params split_rule min_rect_size strategy =
    let p = get_or_default params default_parameters in
    record {
      material = material;
      strategy = strategy;
      split_rule = get_or_default split_rule (packing_strategy_split_rule strategy);
      kerf = max 0 p.kerf;
      top_trim = max 0 p.top_trim;
      bottom_trim = max 0 p.bottom_trim;
      left_trim = max 0 p.left_trim;
      right_trim = max 0 p.right_trim;
      min_rect_size = max 1 min_rect_size;
    }

-- the rectangle that the trims leave, the first remainder
unfoldable pub usable : Config → Rectangle
usable c = record {
  x = c.left_trim;
  y = c.bottom_trim;
  width = c.material.width - c.left_trim - c.right_trim;
  height = c.material.height - c.top_trim - c.bottom_trim;
}

abbrev pub empty_sheet : Config → Sheet
empty_sheet c = record { remainders = usable c ∷ []; placed_pieces = []; cuts = [] }

unfoldable pub init :
    Material
    → Option CuttingParameters
    → Option SplitRule
    → ℕ
    → PackingStrategy
    → Result (Config × Sheet)
unfolding configure usable
init material params split_rule min_rect_size strategy =
    let c = configure material params split_rule min_rect_size strategy in
    raise_if (leb material.width (c.left_trim + c.right_trim)) value_error
    >> raise_if (leb material.height (c.top_trim + c.bottom_trim)) value_error
    >> ok (c, empty_sheet c)

-- f"{piece.id}#{i+1}" if piece.quantity > 1 else piece.id
unfoldable pub instance_id : Piece → ℕ → Text
instance_id piece i = if ltb 1 piece.quantity then piece.id ++ b'#' ∷ decimal (i + 1) else piece.id

-- `for i in range(piece.quantity)`, from `i` with `left` rounds to go
unfoldable pub expand_copies : Piece → ℕ → ℕ → List Piece
expand_copies piece i zero = []
expand_copies piece i (suc left) =
    record piece { id = instance_id piece i; quantity = 1 } ∷ expand_copies piece (suc i) left

unfoldable pub expand : List Piece → List Piece
unfolding expand_copies
expand [] = []
expand (piece ∷ rest) = expand_copies piece 0 piece.quantity ++ expand rest

-- A number, or a triple that is compared from the left.
pub data Score : Type 0 where
  leftover : ℕ → Score
  corner : ℕ → ℕ → ℕ → Score

-- Scores of one run are of one kind.
unfoldable pub score_lt : Score → Score → Bool
score_lt (leftover a) (leftover b) = ltb a b
score_lt (corner x y a) (corner u v b) = ltb x u || (x == u && (ltb y v || (y == v && ltb a b)))
score_lt _ _ = false

unfoldable pub fit_score : PackingStrategy → Rectangle → Piece → Score
fit_score max_efficiency rect piece = leftover (area rect - piece_area piece)
fit_score long_offcuts rect piece = corner rect.x rect.y (area rect - piece_area piece)

-- the variables `best_score`, `best_rect_index` and `best_rotated`
pub record Best : Type 0 where
  pub score : Score
  pub index : ℕ
  pub rotated : Bool

unfoldable pub improve : Option Best → Best → Option Best
improve none new = some new
improve (some best) new = if score_lt new.score best.score then some new else some best

-- `if fits: if best_score is None or score < best_score: …`
unfoldable pub attempt : Bool → Option Best → Best → Option Best
unfolding improve
attempt true best new = improve best new
attempt false best new = best

-- the candidate at index `i`, upright or turned
abbrev pub candidate : PackingStrategy → Piece → ℕ → Rectangle → Bool → Best
candidate strategy piece i rect rotated = record {
  score = fit_score strategy rect piece;
  index = i;
  rotated = rotated;
}

abbrev pub fits_upright : Piece → Rectangle → Bool
fits_upright piece rect = contains rect piece.width piece.height

abbrev pub fits_turned : Piece → Rectangle → Bool
fits_turned piece rect = piece.can_rotate && contains rect piece.height piece.width

-- one round of the loop over `enumerate(self.remainders)`
unfoldable pub consider : PackingStrategy → Piece → ℕ → Rectangle → Option Best → Option Best
unfolding attempt
consider strategy piece i rect best =
    attempt (fits_turned piece rect)
      (attempt (fits_upright piece rect) best (candidate strategy piece i rect false))
      (candidate strategy piece i rect true)

unfoldable pub scan : PackingStrategy → Piece → ℕ → List Rectangle → Option Best → Option Best
scan strategy piece i [] best = best
scan strategy piece i (rect ∷ rest) best =
    scan strategy piece (suc i) rest (consider strategy piece i rect best)

unfoldable pub vertical_split_first : Config → Rectangle → ℕ → ℕ → ℕ → ℕ → List Rectangle
vertical_split_first c rect effective_width effective_height width_leftover height_leftover =
    (if ltb 0 width_leftover && ltb 0 (rect.width - effective_width)
      then record {
        x = rect.x + effective_width;
        y = rect.y;
        width = rect.width - effective_width;
        height = if ltb 0 height_leftover then effective_height - c.kerf else effective_height;
      }
        ∷ []
      else [])
    ++ (if ltb 0 height_leftover && ltb 0 (rect.height - effective_height)
        then record {
          x = rect.x;
          y = rect.y + effective_height;
          width = rect.width;
          height = rect.height - effective_height;
        }
          ∷ []
        else [])

unfoldable pub horizontal_split_first : Config → Rectangle → ℕ → ℕ → ℕ → ℕ → List Rectangle
horizontal_split_first c rect effective_width effective_height width_leftover height_leftover =
    (if ltb 0 height_leftover && ltb 0 (rect.height - effective_height)
      then record {
        x = rect.x;
        y = rect.y + effective_height;
        width = if ltb 0 width_leftover then effective_width - c.kerf else effective_width;
        height = rect.height - effective_height;
      }
        ∷ []
      else [])
    ++ (if ltb 0 width_leftover && ltb 0 (rect.width - effective_width)
        then record {
          x = rect.x + effective_width;
          y = rect.y;
          width = rect.width - effective_width;
          height = rect.height;
        }
          ∷ []
        else [])

-- max((r.area for r in rects), default=0)
unfoldable pub max_area : List Rectangle → ℕ
max_area [] = 0
max_area (r ∷ rest) = max (area r) (max_area rest)

pub data Orientation : Type 0 where
  vertical_first horizontal_first : Orientation

abbrev pub choose : Bool → Orientation
choose true = vertical_first
choose false = horizontal_first

-- The rule that the `if` chain of `_create_split_rectangles` picks the orientation by.
unfoldable pub split_orientation :
    SplitRule → Rectangle → ℕ → ℕ → List Rectangle → List Rectangle → Orientation
unfolding max_area
split_orientation shorter_leftover_axis rect wl hl vertical horizontal = choose (leb wl hl)
split_orientation longer_leftover_axis rect wl hl vertical horizontal = choose (leb hl wl)
split_orientation shorter_axis rect wl hl vertical horizontal = choose (leb rect.width rect.height)
split_orientation longer_axis rect wl hl vertical horizontal = choose (leb rect.height rect.width)
split_orientation minimize_area rect wl hl vertical horizontal =
    choose (leb (max_area vertical) (max_area horizontal))
split_orientation maximize_area rect wl hl vertical horizontal =
    choose (leb (max_area horizontal) (max_area vertical))

abbrev pub by_orientation {ℓ} : {A : Type ℓ} → Orientation → A → A → A
by_orientation vertical_first v h = v
by_orientation horizontal_first v h = h

unfoldable pub create_split_rectangles :
    Config → Rectangle → ℕ → ℕ → ℕ → ℕ → List Rectangle × Orientation
create_split_rectangles c rect effective_width effective_height width_leftover height_leftover =
    let vertical =
      vertical_split_first c rect effective_width effective_height width_leftover height_leftover in
    let horizontal =
      horizontal_split_first c rect effective_width effective_height width_leftover
        height_leftover in
    let orientation =
      split_orientation c.split_rule rect width_leftover height_leftover vertical horizontal in
    (by_orientation orientation vertical horizontal, orientation)

unfoldable pub cuts_for : Rectangle → PlacedPiece → ℕ → ℕ → Orientation → List Cut
cuts_for rect placed width_leftover height_leftover vertical_first =
    (if ltb 0 height_leftover
      then record {
        x = rect.x;
        y = rect.y + placed.height;
        length = rect.width;
        is_horizontal = true;
      }
        ∷ []
      else [])
    ++ (if ltb 0 width_leftover
        then record {
          x = rect.x + placed.width;
          y = rect.y;
          length = placed.height;
          is_horizontal = false;
        }
          ∷ []
        else [])
cuts_for rect placed width_leftover height_leftover horizontal_first =
    (if ltb 0 width_leftover
      then record {
        x = rect.x + placed.width;
        y = rect.y;
        length = rect.height;
        is_horizontal = false;
      }
        ∷ []
      else [])
    ++ (if ltb 0 height_leftover
        then record {
          x = rect.x;
          y = rect.y + placed.height;
          length = placed.width;
          is_horizontal = true;
        }
          ∷ []
        else [])

abbrev pub large_enough : Config → Rectangle → Bool
large_enough c r = leb c.min_rect_size r.width && leb c.min_rect_size r.height

-- placed.width + (self.kerf if width_leftover > 0 else 0), and the same for the height
abbrev pub effective : Config → ℕ → ℕ → ℕ
effective c side side_leftover = side + (if ltb 0 side_leftover then c.kerf else 0)

-- `rect` is `self.remainders[rect_index]`
unfoldable pub split_remainder : Config → ℕ → Rectangle → PlacedPiece → Sheet → Sheet
split_remainder c rect_index rect placed s =
    let width_leftover = rect.width - placed.width in
    let height_leftover = rect.height - placed.height in
    let (new_rects, orientation) =
      create_split_rectangles c rect (effective c placed.width width_leftover)
        (effective c placed.height height_leftover) width_leftover height_leftover in
    record s {
      remainders =
          sort_by (λ a b. ltb (area a) (area b))
            (remove_at s.remainders rect_index ++ filter (large_enough c) new_rects);
      cuts = s.cuts ++ cuts_for rect placed width_leftover height_leftover orientation;
    }

unfoldable pub place_in : Piece → Rectangle → Bool → PlacedPiece
place_in piece rect rotated = record {
  piece = piece;
  x = rect.x;
  y = rect.y;
  width = if rotated then piece.height else piece.width;
  height = if rotated then piece.width else piece.height;
  rotated = rotated;
}

-- The index comes from the scan of the same list, so the second argument is never `none`.
unfoldable pub place_at : Config → Piece → Best → Option Rectangle → Sheet → Sheet × Bool
unfolding place_in
place_at c piece best none s = (s, false)
place_at c piece best (some rect) s =
    let placed = place_in piece rect best.rotated in
    let s' = record s { placed_pieces = s.placed_pieces ++ placed ∷ [] } in
    (split_remainder c best.index rect placed s', true)

unfoldable pub place_best : Config → Piece → Option Best → Sheet → Sheet × Bool
unfolding place_at
place_best c piece none s = (s, false)
place_best c piece (some best) s = place_at c piece best (get_elem? s.remainders best.index) s

unfoldable pub place_piece : Config → Piece → Sheet → Sheet × Bool
unfolding place_best
place_piece c piece s = place_best c piece (scan c.strategy piece 0 s.remainders none) s

-- the loop over the sorted pieces: the sheet, and the unplaced pieces in order
unfoldable pub place_all : Config → List Piece → Sheet → Sheet × List Piece
place_all c [] s = (s, [])
place_all c (piece ∷ rest) s =
    let (s', placed) = place_piece c piece s in
    let (s'', unplaced) = place_all c rest s' in
    (s'', if placed then unplaced else piece ∷ unplaced)

-- The sheet after the call, and what the call returns.
unfoldable pub optimize : Config → List Piece → Sheet → Sheet × (List PlacedPiece × List Piece)
optimize c [] s = (s, ([], []))
optimize c (piece ∷ rest) s =
    let (s', unplaced) = place_all c (sort_pieces (expand (piece ∷ rest)) c.strategy) s in
    (s', (s'.placed_pieces, unplaced))
