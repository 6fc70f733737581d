-- ===== src/Cutting/MultiSheet/Conservation.antt =====
-- The loop of `MultiSheetGuillotineOptimizer.optimize`: pieces, layouts and how it ends.
use mathlib.Core.List.{Perm}
use mathlib.Core.List.Perm
use native.Mathlib.Nat.{ℕ_set}
use opticutter.Prelude.{
  ℕ, zero, suc, ◌+◌, ◌≤◌, ◌≡◌, refl, sym, ap, ◌∙◌, inl, inr, none, some, List, [], ◌∷◌, ◌++◌,
  append_assoc, append-nil, length, length-append, All, All-append, All-perm, All-append_right,
  Option-cases, arith,
}
use opticutter.Prelude.Stable.{sort_by-perm, All-sort_by}
use opticutter.Cutting.Models.{Piece, CuttingLayout}
use opticutter.Cutting.Guillotine.{expand, sort_pieces}
use opticutter.Cutting.Guillotine.Expand.{IsUnit, expand-unit, expand-IsUnit}
use opticutter.Cutting.MultiSheet.{Multi, fill_sheet, fill_sheets, optimize_multi}
use opticutter.Cutting.MultiSheet.Progress.{IsSound, IsRound, layout_pieces, fill_sheet-IsRound}

unfoldable pub all_pieces : List CuttingLayout → List Piece
all_pieces [] = []
all_pieces (l ∷ ls) = layout_pieces l ++ all_pieces ls

pub all_pieces-append :
    (ls ms : List CuttingLayout) → all_pieces (ls ++ ms) ≡ all_pieces ls ++ all_pieces ms
unfolding all_pieces
all_pieces-append [] ms = refl
all_pieces-append (l ∷ ls) ms =
    ap (λ t. layout_pieces l ++ t) (all_pieces-append ls ms)
    ∙ sym (append_assoc (layout_pieces l) (all_pieces ls) (all_pieces ms))

-- Sheets numbered one after another from `k`.
abbrev pub NumberedFrom : ℕ → List CuttingLayout → Type 0
NumberedFrom k [] = Unit
NumberedFrom k (l ∷ ls) = (l.sheet_number ≡ k) × NumberedFrom (suc k) ls

NumberedFrom-append :
    (k : ℕ) (ls : List CuttingLayout) (l : CuttingLayout)
    → NumberedFrom k ls
    → l.sheet_number ≡ k + length ls
    → NumberedFrom k (ls ++ l ∷ [])
NumberedFrom-append k [] l h e = (omega (arith, e), tt)
NumberedFrom-append k (x ∷ ls) l h e =
    (h.0, NumberedFrom-append (suc k) ls l h.1 (omega (arith, e)))

pub IsUnit-perm : {xs ys : List Piece} → Perm xs ys → All IsUnit xs → All IsUnit ys
IsUnit-perm = All-perm IsUnit (λ p. ℕ_set _ _)

module _ (m : Multi) where
  -- What the loop promises at its end, of all the layouts and the pieces still there.
  pub record IsOutcome (pieces : List Piece) (layouts : List CuttingLayout) (remaining : List Piece)
      : Type 0 where
    pub sound : All (IsSound m) layouts
    pub numbered : NumberedFrom 1 layouts
    pub kept : Perm (all_pieces layouts ++ remaining) pieces
    pub unit : All IsUnit remaining

  last_pieces :
      (l : CuttingLayout) (unplaced remaining : List Piece)
      → Perm (layout_pieces l ++ unplaced) (expand remaining)
      → All IsUnit remaining
      → Perm (all_pieces (l ∷ []) ++ unplaced) remaining
  unfolding all_pieces
  last_pieces l unplaced remaining kept unit =
      rw (append-nil (layout_pieces l)) (rw (expand-unit remaining unit) at kept)

  round-kept :
      (pieces : List Piece) (remaining : List Piece) (layouts : List CuttingLayout) (number : ℕ)
      (l : CuttingLayout) (unplaced : List Piece)
      → IsOutcome pieces layouts remaining
      → number ≡ suc (length layouts)
      → IsRound m number remaining l unplaced
      → IsOutcome pieces (layouts ++ l ∷ []) unplaced
  round-kept pieces remaining layouts number l unplaced h n round = record {
    sound = All-append _ layouts (l ∷ []) h.sound (round.sound, tt);
    numbered = NumberedFrom-append 1 layouts l h.numbered (omega (arith, round.numbered));
    kept =
        Perm.trans
          (rw
            (
              all_pieces-append layouts (l ∷ []),
              append_assoc (all_pieces layouts) (all_pieces (l ∷ [])) unplaced,
            )
            (Perm.append (Perm.refl (all_pieces layouts))
              (last_pieces l unplaced remaining round.kept h.unit)))
          h.kept;
    unit =
        All-append_right IsUnit (layout_pieces l) unplaced
          (IsUnit-perm (Perm.symm round.kept) (expand-IsUnit remaining));
  }

  module _ (left count : ℕ) (p : Piece) (later : List Piece) (layouts : List CuttingLayout) where
    pub fill_sheets_stop :
        fill_sheet m (suc count) (p ∷ later) ≡ none
        → fill_sheets m (suc left) count (p ∷ later) layouts ≡ (layouts, p ∷ later)
    unfolding fill_sheets
    fill_sheets_stop e = rw (e, fill_sheets)

    pub fill_sheets_step :
        {l : CuttingLayout} {unplaced : List Piece}
        → fill_sheet m (suc count) (p ∷ later) ≡ some (l, unplaced)
        → fill_sheets m (suc left) count (p ∷ later) layouts
          ≡ fill_sheets m left (suc count) unplaced (layouts ++ l ∷ [])
    unfolding fill_sheets
    fill_sheets_step e = rw (e, fill_sheets)

  fill_sheets-IsOutcome :
      (pieces : List Piece) (left : ℕ) (count : ℕ) (remaining : List Piece)
      (layouts : List CuttingLayout)
      → count ≡ length layouts
      → IsOutcome pieces layouts remaining
      → let (ls, rest) = fill_sheets m left count remaining layouts in
        IsOutcome pieces ls rest × (length ls ≤ count + left)
  unfolding fill_sheets
  fill_sheets-IsOutcome pieces zero count remaining layouts n h = (h, omega arith)
  fill_sheets-IsOutcome pieces (suc left) count [] layouts n h = (h, omega arith)
  fill_sheets-IsOutcome pieces (suc left) count (p ∷ later) layouts n h =
      elim (Option-cases (fill_sheet m (suc count) (p ∷ later))) [
        | inl e ↦ rw (fill_sheets_stop left count p later layouts e) (h, omega arith)
        | inr ((l, unplaced), e) ↦
            let next = layouts ++ l ∷ [] in
            let round = fill_sheet-IsRound m (suc count) (p ∷ later) e in
            let (outcome, bound) =
              fill_sheets-IsOutcome pieces left (suc count) unplaced next
                (omega (arith, length-append {0} layouts (l ∷ [])))
                (round-kept pieces (p ∷ later) layouts (suc count) l unplaced h (ap suc n) round) in
            rw (fill_sheets_step left count p later layouts e) (outcome, omega arith)
      ]

  start :
      (pieces : List Piece) → IsOutcome (expand pieces) [] (sort_pieces (expand pieces) m.strategy)
  unfolding sort_pieces
  start pieces = record {
    sound = tt;
    numbered = tt;
    kept = unfold all_pieces in sort_by-perm _ (expand pieces);
    unit = All-sort_by _ IsUnit (expand pieces) (expand-IsUnit pieces);
  }

  -- Whatever the pieces: each layout is sound, sheets are numbered from 1, there are at most
  -- `max_sheets` of them, and every copy asked for is on one layout or remains.
  pub optimize_multi-IsOutcome :
      (pieces : List Piece)
      → let (layouts, remaining) = optimize_multi m pieces in
        IsOutcome (expand pieces) layouts remaining × (length layouts ≤ m.max_sheets)
  unfolding optimize_multi
  optimize_multi-IsOutcome [] = (
    record { sound = tt; numbered = tt; kept = unfold all_pieces expand in Perm.rfl; unit = tt },
    omega arith,
  )
  optimize_multi-IsOutcome (p ∷ later) =
      let (outcome, bound) =
        fill_sheets-IsOutcome (expand (p ∷ later)) m.max_sheets 0
          (sort_pieces (expand (p ∷ later)) m.strategy) [] refl (start (p ∷ later)) in
      (outcome, omega arith)
