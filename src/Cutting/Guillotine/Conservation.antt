-- ===== src/Cutting/Guillotine/Conservation.antt =====
-- The loop over the pieces: none is lost or invented, and what is left over fits nowhere.
use mathlib.Core.List.{Perm, perm_middle}
use mathlib.Core.List.Perm
use opticutter.Prelude.{
  ◌≤◌, ◌<◌, ◌≡◌, ap, subst, ◌∙◌, inl, inr, true, List, [], ◌∷◌, ◌++◌, append_assoc, length,
  length-append, length-map, All, arith,
}
use opticutter.Cutting.Models.{Piece, PlacedPiece}
use opticutter.Cutting.Guillotine.{Config, Sheet, usable, empty_sheet, place_piece, place_all}
use opticutter.Cutting.Guillotine.Choice.{fits_somehow}
use opticutter.Cutting.Guillotine.Placement.{
  NoFit, pieces_on, place_piece-cases, pieces_on-step, NoFit-step,
}

module _ (c : Config) where
  -- Every piece given is placed or left over, once.
  pub place_all-perm :
      (pieces : List Piece) (s : Sheet)
      → let (s', unplaced) = place_all c pieces s in
        Perm (pieces_on s' ++ unplaced) (pieces_on s ++ pieces)
  unfolding place_all
  place_all-perm [] s = Perm.rfl
  place_all-perm (piece ∷ later) s = elim (place_piece-cases c piece s) [
    | inl (_, same) ↦ rw same (
        Perm.trans (perm_middle _ _)
          (Perm.trans (Perm.cons piece (place_all-perm later s)) (Perm.symm (perm_middle _ _))))
    | inr (done, step) ↦ rw done (
        subst
          (λ l.
            let (s', unplaced) = place_all c later (place_piece c piece s).0 in
            Perm (pieces_on s' ++ unplaced) l)
          (ap (λ l. l ++ later) (pieces_on-step c piece step)
            ∙ append_assoc (pieces_on s) (piece ∷ []) later)
          (place_all-perm later (place_piece c piece s).0))
  ]

  pub place_piece-keeps-NoFit :
      (q piece : Piece) (s : Sheet)
      → NoFit q s.remainders
      → NoFit q (place_piece c piece s).0.remainders
  place_piece-keeps-NoFit q piece s h = elim (place_piece-cases c piece s) [
    | inl (_, same) ↦ rw same h
    | inr (_, step) ↦ NoFit-step c piece step q h
  ]

  pub place_all-keeps-NoFit :
      (q : Piece) (pieces : List Piece) (s : Sheet)
      → NoFit q s.remainders
      → NoFit q (place_all c pieces s).0.remainders
  unfolding place_all
  place_all-keeps-NoFit q [] s h = h
  place_all-keeps-NoFit q (piece ∷ later) s h =
      place_all-keeps-NoFit q later (place_piece c piece s).0 (place_piece-keeps-NoFit q piece s h)

  -- At the end no piece that is left over fits in any remainder.
  pub place_all-maximal :
      (pieces : List Piece) (s : Sheet)
      → let (s', unplaced) = place_all c pieces s in All (λ q. NoFit q s'.remainders) unplaced
  unfolding place_all
  place_all-maximal [] s = tt
  place_all-maximal (piece ∷ later) s = elim (place_piece-cases c piece s) [
    | inl (none_fits, same) ↦
        rw same (place_all-keeps-NoFit piece later s none_fits, place_all-maximal later s)
    | inr (done, step) ↦ rw done (place_all-maximal later (place_piece c piece s).0)
  ]

  place_piece-grows :
      (piece : Piece) (s : Sheet)
      → length (pieces_on s) ≤ length (pieces_on (place_piece c piece s).0)
  place_piece-grows piece s = elim (place_piece-cases c piece s) [
    | inl (_, same) ↦ rw same (omega arith)
    | inr (_, step) ↦
        omega
          (arith, ap length (pieces_on-step c piece step), length-append (pieces_on s) (piece ∷ []))
  ]

  pub place_all-grows :
      (pieces : List Piece) (s : Sheet)
      → length (pieces_on s) ≤ length (pieces_on (place_all c pieces s).0)
  unfolding place_all
  place_all-grows [] s = omega arith
  place_all-grows (piece ∷ later) s =
      omega (arith, place_piece-grows piece s, place_all-grows later (place_piece c piece s).0)

  -- On an empty sheet the first piece is placed if it fits between the trims.
  pub place_all_first :
      (piece : Piece) (later : List Piece)
      → fits_somehow piece (usable c) ≡ true
      → 1 ≤ length (pieces_on (place_all c (piece ∷ later) (empty_sheet c)).0)
  unfolding place_all
  place_all_first piece later fits = elim (place_piece-cases c piece (empty_sheet c)) [
    | inl (none_fits, _) ↦ absurd (ground (arith, none_fits, fits))
    | inr (_, step) ↦ omega (
      arith,
      ap length (pieces_on-step c piece step),
      place_all-grows later (place_piece c piece (empty_sheet c)).0,
    )
  ]

  pub place_all_some :
      (pieces : List Piece)
      → 0 < length pieces
      → All (λ q. fits_somehow q (usable c) ≡ true) pieces
      → 0 < length (place_all c pieces (empty_sheet c)).0.placed_pieces
  place_all_some [] h fits = absurd (omega arith)
  place_all_some (piece ∷ later) h fits = omega (
    arith,
    place_all_first piece later fits.0,
    length-map (λ (p : PlacedPiece). p.piece)
        (place_all c (piece ∷ later) (empty_sheet c)).0.placed_pieces,
  )
