-- ===== src/Cutting/Guillotine/Packing.antt =====
-- The invariant of a sheet: nothing overlaps, a blade passes between any two things on it, all of
-- it lies inside the trims, and no area is counted twice.
use opticutter.Prelude.{
  ℕ, ◌+◌, ◌*◌, ◌≤◌, ◌≡◌, Bool, Option, none, some, List, [], ◌∷◌, ◌++◌, get_elem?, remove_at,
  filter, ltb, All, AllPairs, All-append, All-get, All-map, All-remove_at, All-filter,
  AllPairs-append, AllPairs-remove_at, AllPairs-filter, AllPairs-get, sum_by, sum_by-append,
  sum_by-filter, sum_by-remove_at, arith,
}
use opticutter.Prelude.Stable.{All-sort_by, AllPairs-sort_by, sum_by-sort_by}
use opticutter.Cutting.Models.{Rectangle, Piece, PlacedPiece, placed_area, area}
use opticutter.Cutting.Guillotine.{
  Config, Sheet, usable, empty_sheet, large_enough, split_remainder, place_in, Best, place_best,
  place_piece, place_all, optimize,
}
use opticutter.Cutting.Guillotine.Geometry.{
  Inside, Separated, frame, Separated-sym, Separated-Inside, Inside-trans,
}
use opticutter.Cutting.Guillotine.Split.{
  IsSplit, corner_of, halves_of, halves_of-IsSplit, halves_of-area,
}
use opticutter.Cutting.Guillotine.Choice.{side_x, side_y, FitsIn, IsChoice, scan-IsChoice}

abbrev pub Apart : ℕ → PlacedPiece → PlacedPiece → Type 0
Apart k p q = Separated k (frame p) (frame q)

pub record IsPacked (c : Config) (s : Sheet) : Type 0 where
  pub placed_inside : All (λ p. Inside (usable c) (frame p)) s.placed_pieces
  pub placed_apart : AllPairs (Apart c.kerf) s.placed_pieces
  pub free_inside : All (Inside (usable c)) s.remainders
  pub free_apart : AllPairs (Separated c.kerf) s.remainders
  pub placed_free : All (λ p. All (Separated c.kerf (frame p)) s.remainders) s.placed_pieces
  pub area_bound : sum_by placed_area s.placed_pieces + sum_by area s.remainders ≤ area (usable c)

pub empty_sheet-IsPacked : (c : Config) → IsPacked c (empty_sheet c)
empty_sheet-IsPacked c = record {
  placed_inside = tt;
  placed_apart = tt;
  free_inside = omega arith;
  free_apart = (tt, tt);
  placed_free = tt;
  area_bound = omega arith;
}

-- One placement: `piece` goes to the remainder at index `i`, which is `rect`.
module _ (c : Config) (s : Sheet) (packed : IsPacked c s) (i : ℕ) (rect : Rectangle)
    (at_index : get_elem? s.remainders i ≡ some rect) (piece : Piece) (rotated : Bool)
    (fit : FitsIn piece rect rotated) where
  abbrev corner : Rectangle
  corner = corner_of rect (side_x piece rotated) (side_y piece rotated)

  abbrev parts : List Rectangle
  parts =
      filter (large_enough c)
        (halves_of c rect (side_x piece rotated) (side_y piece rotated) fit.fits_x fit.fits_y).0

  abbrev others : List Rectangle
  others = remove_at s.remainders i

  split : IsSplit c.kerf rect corner parts
  split =
      let whole =
        halves_of-IsSplit c rect (side_x piece rotated) (side_y piece rotated) fit.fits_x
          fit.fits_y in
      record {
        inside = All-filter _ _ _ whole.inside;
        apart = All-filter _ _ _ whole.apart;
        disjoint = AllPairs-filter _ _ _ whole.disjoint;
      }

  corner-Inside : Inside rect corner
  corner-Inside = omega (arith, fit)

  rect-Inside : Inside (usable c) rect
  rect-Inside = All-get _ s.remainders i at_index packed.free_inside

  rest_apart : All (Separated c.kerf rect) others
  rest_apart = AllPairs-get _ (Separated-sym c.kerf) s.remainders i at_index packed.free_apart

  -- what is apart from `rect` is apart from its parts
  parts_apart : (a : Rectangle) → Separated c.kerf a rect → All (Separated c.kerf a) parts
  parts_apart a h =
      All-map (λ b. λ inside. Separated-Inside c.kerf a rect b inside h) _ split.inside

  free-Inside' : All (Inside (usable c)) (others ++ parts)
  free-Inside' =
      All-append _ others parts (All-remove_at _ s.remainders i packed.free_inside)
        (All-map (λ b. λ inside. Inside-trans (usable c) rect b rect-Inside inside) _ split.inside)

  free_apart' : AllPairs (Separated c.kerf) (others ++ parts)
  free_apart' =
      AllPairs-append _ others parts (AllPairs-remove_at _ s.remainders i packed.free_apart)
        split.disjoint
        (All-map (λ a. λ h. parts_apart a (Separated-sym c.kerf rect a h)) others rest_apart)

  corner_free : All (Separated c.kerf corner) (others ++ parts)
  corner_free =
      All-append _ others parts
        (All-map
          (λ a. λ h.
            Separated-sym c.kerf a corner
              (Separated-Inside c.kerf a rect corner corner-Inside (Separated-sym c.kerf rect a h)))
          others rest_apart)
        split.apart

  placed_free' :
      (p : PlacedPiece)
      → All (Separated c.kerf (frame p)) s.remainders
      → All (Separated c.kerf (frame p)) (others ++ parts)
  placed_free' p h =
      All-append _ others parts (All-remove_at _ s.remainders i h)
        (parts_apart (frame p) (All-get _ s.remainders i at_index h))

  area' :
      sum_by area (others ++ parts) + side_x piece rotated * side_y piece rotated
      ≤ sum_by area s.remainders
  area' = omega (
    arith,
    sum_by-append {0} area others parts,
    sum_by-remove_at {0} area s.remainders i at_index,
    sum_by-filter {0} area (large_enough c)
        (halves_of c rect (side_x piece rotated) (side_y piece rotated) fit.fits_x fit.fits_y).0,
    halves_of-area c rect (side_x piece rotated) (side_y piece rotated) fit.fits_x fit.fits_y,
  )

  abbrev placed : PlacedPiece
  placed = place_in piece rect rotated

  split_remainder-IsPacked : IsPacked c (
      split_remainder c i rect placed (record s { placed_pieces = s.placed_pieces ++ placed ∷ [] }))
  unfolding split_remainder place_in
  split_remainder-IsPacked = record {
    placed_inside =
        All-append _ s.placed_pieces (placed ∷ []) packed.placed_inside
          (Inside-trans (usable c) rect corner rect-Inside corner-Inside, tt);
    placed_apart =
        AllPairs-append (Apart c.kerf) s.placed_pieces (placed ∷ []) packed.placed_apart (tt, tt)
          (All-map
            (λ p. λ h. (
              Separated-Inside c.kerf (frame p) rect corner corner-Inside
                  (All-get _ s.remainders i at_index h),
              tt,
            ))
            _ packed.placed_free);
    free_inside = All-sort_by _ _ (others ++ parts) free-Inside';
    free_apart = AllPairs-sort_by _ _ (Separated-sym c.kerf) (others ++ parts) free_apart';
    placed_free =
        All-append _ s.placed_pieces (placed ∷ [])
          (All-map (λ p. λ h. All-sort_by _ _ (others ++ parts) (placed_free' p h)) _
            packed.placed_free)
          (All-sort_by _ _ (others ++ parts) corner_free, tt);
    area_bound = omega (
      arith,
      packed.area_bound,
      area',
      sum_by-append {0} placed_area s.placed_pieces (placed ∷ []),
      sum_by-sort_by {0} (λ a b. ltb (area a) (area b)) area (others ++ parts),
    );
  }

module _ (c : Config) where
  place_best-IsPacked :
      (piece : Piece) (best : Option Best) (s : Sheet)
      → IsPacked c s
      → IsChoice c.strategy s.remainders piece best
      → IsPacked c (place_best c piece best s).0
  unfolding place_best
  place_best-IsPacked piece none s h choice = h
  place_best-IsPacked piece (some best) s h (rect, e, fit, _) =
      rw e (split_remainder-IsPacked c s h best.index rect e piece best.rotated fit)

  pub place_piece-IsPacked :
      (piece : Piece) (s : Sheet) → IsPacked c s → IsPacked c (place_piece c piece s).0
  unfolding place_piece
  place_piece-IsPacked piece s h =
      place_best-IsPacked piece _ s h (scan-IsChoice c.strategy piece s.remainders)

  pub place_all-IsPacked :
      (pieces : List Piece) (s : Sheet) → IsPacked c s → IsPacked c (place_all c pieces s).0
  unfolding place_all
  place_all-IsPacked [] s h = h
  place_all-IsPacked (piece ∷ later) s h =
      place_all-IsPacked later (place_piece c piece s).0 (place_piece-IsPacked piece s h)

  -- `optimize` keeps the invariant of the sheet, whatever the pieces.
  pub optimize-IsPacked :
      (pieces : List Piece) (s : Sheet) → IsPacked c s → IsPacked c (optimize c pieces s).0
  unfolding optimize
  optimize-IsPacked [] s h = h
  optimize-IsPacked (piece ∷ later) s h = place_all-IsPacked _ s h
