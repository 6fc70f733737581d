-- ===== src/Cutting/Guillotine/Split.antt =====
-- What the two ways to split a remainder leave of it.
use opticutter.Prelude.{ℕ, ◌+◌, ◌-◌, ◌*◌, ◌≤◌, List, All, AllPairs, sum_by, arith}
use native.Mathlib.Nat.{mul-le-mul_left, mul-le-mul_right}
use opticutter.Cutting.Models.{Rectangle, area}
use opticutter.Cutting.Guillotine.{
  Config, effective, Orientation, vertical_first, horizontal_first, create_split_rectangles,
  by_orientation, vertical_split_first, horizontal_split_first,
}
use opticutter.Cutting.Guillotine.Geometry.{Inside, Separated}

-- The pieces of `rect` besides a placed rectangle of `width` and `height` in its lower left corner.
pub record IsSplit (k : ℕ) (rect : Rectangle) (placed : Rectangle) (parts : List Rectangle)
    : Type 0 where
  pub inside : All (Inside rect) parts
  pub apart : All (Separated k placed) parts
  pub disjoint : AllPairs (Separated k) parts

abbrev pub corner_of : Rectangle → ℕ → ℕ → Rectangle
corner_of rect w h = record { x = rect.x; y = rect.y; width = w; height = h }

module _ (c : Config) (rect : Rectangle) (w h : ℕ) (fits_width : w ≤ rect.width)
    (fits_height : h ≤ rect.height) where
  vertical-IsSplit : IsSplit c.kerf rect (corner_of rect w h) (
      vertical_split_first c rect
        (effective c w (rect.width - w))
        (effective c h (rect.height - h))
        (rect.width - w)
        (rect.height - h))
  unfolding vertical_split_first
  vertical-IsSplit = ground arith

  horizontal-IsSplit : IsSplit c.kerf rect (corner_of rect w h) (
      horizontal_split_first c rect
        (effective c w (rect.width - w))
        (effective c h (rect.height - h))
        (rect.width - w)
        (rect.height - h))
  unfolding horizontal_split_first
  horizontal-IsSplit = ground arith

  -- the part at the right has the placed height, the part on top the whole width
  area_vertical :
      (a b : ℕ)
      → w + a ≤ rect.width
      → h + b ≤ rect.height
      → a * h + rect.width * b + w * h ≤ area rect
  area_vertical a b ha hb = omega (arith, mul-le-mul_right h ha, mul-le-mul_left rect.width hb)

  -- the part on top has the placed width, the part at the right the whole height
  area_horizontal :
      (a b : ℕ)
      → w + a ≤ rect.width
      → h + b ≤ rect.height
      → w * b + a * rect.height + w * h ≤ area rect
  area_horizontal a b ha hb = omega (arith, mul-le-mul_left w hb, mul-le-mul_right rect.height ha)

  vertical-area :
      sum_by area (
          vertical_split_first c rect
            (effective c w (rect.width - w))
            (effective c h (rect.height - h))
            (rect.width - w)
            (rect.height - h))
        + w * h
      ≤ area rect
  unfolding vertical_split_first
  vertical-area =
      let a : ℕ = rect.width - (w + c.kerf) in
      let b : ℕ = rect.height - (h + c.kerf) in
      ground (arith, area_vertical a b, area_vertical a 0, area_vertical 0 b, area_vertical 0 0)

  horizontal-area :
      sum_by area (
          horizontal_split_first c rect
            (effective c w (rect.width - w))
            (effective c h (rect.height - h))
            (rect.width - w)
            (rect.height - h))
        + w * h
      ≤ area rect
  unfolding horizontal_split_first
  horizontal-area =
      let a : ℕ = rect.width - (w + c.kerf) in
      let b : ℕ = rect.height - (h + c.kerf) in
      ground
        (arith, area_horizontal a b, area_horizontal a 0, area_horizontal 0 b, area_horizontal 0 0)

  -- the call that `_split_remainder` makes
  abbrev pub halves_of : List Rectangle × Orientation
  halves_of =
      create_split_rectangles c rect (effective c w (rect.width - w))
        (effective c h (rect.height - h)) (rect.width - w) (rect.height - h)

  by_orientation-elim :
      (P : List Rectangle → Type 0) (o : Orientation) (v r : List Rectangle)
      → P v
      → P r
      → P (by_orientation o v r)
  by_orientation-elim P vertical_first v r hv hr = hv
  by_orientation-elim P horizontal_first v r hv hr = hr

  pub halves_of-IsSplit : IsSplit c.kerf rect (corner_of rect w h) halves_of.0
  unfolding create_split_rectangles
  halves_of-IsSplit =
      by_orientation-elim (IsSplit c.kerf rect (corner_of rect w h)) _ _ _ vertical-IsSplit
        horizontal-IsSplit

  pub halves_of-area : sum_by area halves_of.0 + w * h ≤ area rect
  unfolding create_split_rectangles
  halves_of-area =
      by_orientation-elim (λ parts. sum_by area parts + w * h ≤ area rect) _ _ _ vertical-area
        horizontal-area
