-- ===== src/Cutting/MultiSheet/Completeness.antt =====
-- When `MultiSheetGuillotineOptimizer.optimize` places everything, and why it stops where it does not.
use mathlib.Core.List.{Perm}
use mathlib.Core.List.Perm
use native.Mathlib.Nat.{ℕ_set}
use opticutter.Prelude.{
  ℕ, zero, suc, ◌≤◌, ◌<◌, ◌≡◌, refl, List, [], ◌∷◌, ◌++◌, length, length-append, length-perm,
  length-map, All, All-perm, All-append_right, sum_by, arith,
}
use opticutter.Prelude.Stable.{sort_by-perm, All-sort_by}
use opticutter.Cutting.Models.{Piece, CuttingLayout}
use opticutter.Cutting.Guillotine.{expand, sort_pieces}
use opticutter.Cutting.Guillotine.Expand.{
  IsUnit, expand-unit, expand-IsUnit, length-expand, All-expand,
}
use opticutter.Cutting.MultiSheet.{Multi, fill_sheets, optimize_multi}
use opticutter.Cutting.MultiSheet.Progress.{
  IsRound, HasRoom, FitsBoard, layout_pieces, fill_sheet-IsRound, fill_sheet_goes_on,
}
use opticutter.Cutting.MultiSheet.Conservation.{fill_sheets_step}

module _ (m : Multi) (room : HasRoom m) where
  -- a round leaves fewer pieces, of the same kind
  round_shrinks :
      {number : ℕ} {l : CuttingLayout} (remaining unplaced : List Piece)
      → IsRound m number remaining l unplaced
      → All IsUnit remaining
      → All (FitsBoard m) remaining
      → All IsUnit unplaced × All (FitsBoard m) unplaced × (length unplaced < length remaining)
  round_shrinks {l} remaining unplaced round unit fits =
      let kept : Perm (layout_pieces l ++ unplaced) remaining =
        rw (expand-unit remaining unit) at round.kept in
      (
        All-append_right IsUnit (layout_pieces l) unplaced
            (All-perm IsUnit (λ p. ℕ_set _ _) (Perm.symm kept) unit),
        All-append_right (FitsBoard m) (layout_pieces l) unplaced
            (All-perm (FitsBoard m) (λ p. hlevel) (Perm.symm kept) fits),
        omega (
          arith,
          length-perm kept,
          length-append (layout_pieces l) unplaced,
          length-map (λ p. p.piece) l.placed_pieces,
          round.sound.nonempty,
        ),
      )

  fill_sheets_complete :
      (left count : ℕ) (remaining : List Piece) (layouts : List CuttingLayout)
      → length remaining ≤ left
      → All IsUnit remaining
      → All (FitsBoard m) remaining
      → (fill_sheets m left count remaining layouts).1 ≡ []
  unfolding fill_sheets
  fill_sheets_complete zero count [] layouts h unit fits = refl
  fill_sheets_complete zero count (p ∷ later) layouts h unit fits = absurd (omega arith)
  fill_sheets_complete (suc left) count [] layouts h unit fits = refl
  fill_sheets_complete (suc left) count (p ∷ later) layouts h unit fits =
      let ((l, unplaced), e) = fill_sheet_goes_on m (suc count) p later room unit fits in
      let (unit', fits', fewer) =
        round_shrinks (p ∷ later) unplaced (fill_sheet-IsRound m (suc count) (p ∷ later) e) unit
          fits in
      rw (fill_sheets_step m left count p later layouts e) (
        fill_sheets_complete left (suc count) unplaced (layouts ++ l ∷ []) (omega arith) unit'
          fits')

  -- If the trims leave room, every piece fits on an empty board and there may be as many sheets as
  -- copies are asked for, then every copy is placed.
  pub optimize_multi_complete :
      (pieces : List Piece)
      → All (FitsBoard m) pieces
      → sum_by (λ p. p.quantity) pieces ≤ m.max_sheets
      → (optimize_multi m pieces).1 ≡ []
  unfolding optimize_multi sort_pieces
  optimize_multi_complete [] fits h = refl
  optimize_multi_complete (p ∷ later) fits h =
      let copies = expand (p ∷ later) in
      fill_sheets_complete m.max_sheets 0 (sort_pieces copies m.strategy) []
        (omega (arith, length-perm (sort_by-perm _ copies), length-expand (p ∷ later)))
        (All-sort_by _ IsUnit copies (expand-IsUnit (p ∷ later)))
        (All-sort_by _ (FitsBoard m) copies
          (All-expand (FitsBoard m) (λ q i fit. fit) (p ∷ later) fits))
