-- ===== src/Cutting/Guillotine/Placement.antt =====
-- Which pieces are placed: none is lost or invented, and what is left over fits nowhere.
use mathlib.Core.List.{map-append}
use opticutter.Prelude.{
  ℕ, ◌≡◌, refl, subst, ◌⊎◌, inl, inr, Bool, true, false, Option, none, some, List, [], ◌∷◌, ◌++◌,
  map, get_elem?, remove_at, All, All-append, All-get, All-map, All-remove_at, All-filter, arith,
}
use opticutter.Prelude.Stable.{All-sort_by}
use opticutter.Cutting.Models.{Rectangle, Piece, contains}
use opticutter.Cutting.Guillotine.{
  Config, Sheet, Best, large_enough, split_remainder, place_in, fit_score, score_lt, scan,
  place_best, place_piece,
}
use opticutter.Cutting.Guillotine.Geometry.{Inside}
use opticutter.Cutting.Guillotine.Split.{halves_of-IsSplit}
use opticutter.Cutting.Guillotine.Choice.{
  side_x, side_y, FitsIn, IsChoice, scan-IsChoice, fits_somehow, NotBetter, scan_best, scan-none,
  scan-none_iff,
}

-- `piece` fits in none of the rectangles, upright or turned.
abbrev pub NoFit : Piece → List Rectangle → Type 0
NoFit piece rects = All (λ r. fits_somehow piece r ≡ false) rects

abbrev pub pieces_on : Sheet → List Piece
pieces_on s = map (λ p. p.piece) s.placed_pieces

-- What one call of `_place_piece` did.
pub record IsPlacement (c : Config) (piece : Piece) (s s' : Sheet) : Type 0 where
  pub index : ℕ
  pub rect : Rectangle
  pub rotated : Bool
  pub at_index : get_elem? s.remainders index ≡ some rect
  pub fits : FitsIn piece rect rotated
  pub result :
      s'
      ≡ split_remainder c index rect
          (place_in piece rect rotated)
          (record s { placed_pieces = s.placed_pieces ++ place_in piece rect rotated ∷ [] })
  pub best :
      All
        (λ r.
          fits_somehow piece r ≡ true
          → NotBetter (fit_score c.strategy r piece) (
              some (record {
                score = fit_score c.strategy rect piece;
                index = index;
                rotated = rotated;
              })))
        s.remainders

module _ (c : Config) (piece : Piece) (s : Sheet) where
  -- the rest of `_place_piece`, for any result of the scan
  place_best-cases :
      (best : Option Best)
      → IsChoice c.strategy s.remainders piece best
      → All
          (λ r. fits_somehow piece r ≡ true → NotBetter (fit_score c.strategy r piece) best)
          s.remainders
      → ((best ≡ none) × (place_best c piece best s ≡ (s, false)))
        ⊎ (((place_best c piece best s).1 ≡ true)
            × IsPlacement c piece s (place_best c piece best s).0)
  unfolding place_best
  place_best-cases none choice optimal = inl (refl, refl)
  place_best-cases (some best) (rect, e, fit, score) optimal = inr (
    rw e refl,
    record {
      index = best.index;
      rect = rect;
      rotated = best.rotated;
      at_index = e;
      fits = fit;
      result = rw e refl;
      best =
          All-map
            (λ r. λ h.
              λ fits. subst (λ x. score_lt (fit_score c.strategy r piece) x ≡ false) score (h fits))
            _ optimal;
    },
  )

  -- `_place_piece` puts the piece in a remainder that takes it with the best score, or fails and
  -- changes nothing, exactly where no remainder takes the piece.
  pub place_piece-cases :
      (NoFit piece s.remainders × (place_piece c piece s ≡ (s, false)))
      ⊎ (((place_piece c piece s).1 ≡ true) × IsPlacement c piece s (place_piece c piece s).0)
  unfolding place_piece
  place_piece-cases =
      elim (place_best-cases (scan c.strategy piece 0 s.remainders none)
        (scan-IsChoice c.strategy piece s.remainders)
        (scan_best c.strategy piece 0 s.remainders none)) [
          | inl (e, same) ↦ inl ((scan-none_iff c.strategy piece s.remainders).0 e, same)
          | inr found ↦ inr found
        ]

  pub place_piece-NoFit : NoFit piece s.remainders → place_piece c piece s ≡ (s, false)
  unfolding place_piece place_best
  place_piece-NoFit h = rw (scan-none c.strategy piece 0 s.remainders h)

-- What does not fit in a rectangle fits in no part of it.
fits_somehow-Inside :
    (q : Piece) (r part : Rectangle)
    → fits_somehow q r ≡ false
    → Inside r part
    → fits_somehow q part ≡ false
unfolding contains
fits_somehow-Inside q r part n h = ground arith

module _ (c : Config) (piece : Piece) {s s' : Sheet} (step : IsPlacement c piece s s') where
  pub pieces_on-step : pieces_on s' ≡ pieces_on s ++ piece ∷ []
  unfolding split_remainder place_in
  pieces_on-step = rw (step.result) (map-append (λ p. p.piece) s.placed_pieces _)

  pub NoFit-step : (q : Piece) → NoFit q s.remainders → NoFit q s'.remainders
  unfolding split_remainder place_in
  NoFit-step q h =
      let w : ℕ = side_x piece step.rotated in
      let v : ℕ = side_y piece step.rotated in
      let whole = halves_of-IsSplit c step.rect w v step.fits.fits_x step.fits.fits_y in
      rw (step.result) (
        All-sort_by _ _ _ (
          All-append _ (remove_at s.remainders step.index) _
            (All-remove_at _ s.remainders step.index h)
            (All-filter _ (large_enough c) _ (
              All-map
                (λ part. λ inside.
                  fits_somehow-Inside q step.rect part
                    (All-get _ s.remainders step.index step.at_index h) inside)
                _ whole.inside))))
