-- ===== src/Cutting/MultiSheet/Progress.antt =====
-- What one round of the loop of `MultiSheetGuillotineOptimizer.optimize` does.
use mathlib.Core.List.{Perm}
use mathlib.Core.Option.{some-injective}
use opticutter.Prelude.{
  ℕ, ◌+◌, ◌<◌, ◌≡◌, refl, sym, subst, none, some, List, [], ◌∷◌, ◌++◌, map, length, length-perm,
  All, ok, err, true, arith, Result,
}
use opticutter.Cutting.Models.{Piece, PlacedPiece, Material, CuttingLayout}
use opticutter.Cutting.Guillotine.{
  Config, Sheet, usable, empty_sheet, init, optimize, expand, sort_pieces, piece_before,
}
use opticutter.Cutting.Guillotine.Expand.{IsUnit, expand-unit}
use opticutter.Prelude.Stable.{sort_by, sort_by-perm, All-sort_by}
use opticutter.Cutting.Guillotine.Conservation.{place_all_some}
use opticutter.Cutting.Guillotine.Choice.{fits_somehow}
use opticutter.Cutting.Guillotine.Packing.{IsPacked}
use opticutter.Cutting.Guillotine.Placement.{NoFit}
use opticutter.Cutting.Guillotine.Run.{
  IsTrimmed, settings, init-config, init-ok, optimize_sound, optimize-perm, optimize-maximal,
}
use opticutter.Cutting.MultiSheet.{Multi, board, layout_of, fill_sheet}

abbrev pub sheet_config : Multi → Config
sheet_config m =
    settings (board m) (some m.cutting_params) (some m.split_rule) m.min_rect_size m.strategy

abbrev pub sheet_of : CuttingLayout → Sheet
sheet_of l = record { remainders = l.remainders; placed_pieces = l.placed_pieces; cuts = l.cuts }

abbrev pub layout_pieces : CuttingLayout → List Piece
layout_pieces l = map (λ p. p.piece) l.placed_pieces

-- What is promised of each layout.
pub record IsSound (m : Multi) (l : CuttingLayout) : Type 0 where
  pub material : l.material ≡ board m
  pub trimmed : IsTrimmed (sheet_config m)
  pub packed : IsPacked (sheet_config m) (sheet_of l)
  pub nonempty : 0 < length l.placed_pieces

-- What a round that goes on has done.
pub record IsRound (m : Multi) (number : ℕ) (remaining : List Piece) (l : CuttingLayout)
    (unplaced : List Piece) : Type 0 where
  pub sound : IsSound m l
  pub numbered : l.sheet_number ≡ number
  pub kept : Perm (layout_pieces l ++ unplaced) (expand remaining)
  pub maximal : All (λ q. NoFit q l.remainders) unplaced

module _ (m : Multi) (number : ℕ) (remaining : List Piece) where
  IsRound-of_run :
      (s : Sheet) (placed : List PlacedPiece) (unplaced : List Piece) {l : CuttingLayout}
      {left_over : List Piece}
      → IsTrimmed (sheet_config m) × IsPacked (sheet_config m) s × (placed ≡ s.placed_pieces)
      → Perm (map (λ p. p.piece) placed ++ unplaced) (expand remaining)
      → All (λ q. NoFit q s.remainders) unplaced
      → layout_of (board m) number (s, (placed, unplaced)) ≡ some (l, left_over)
      → IsRound m number remaining l left_over
  unfolding layout_of
  IsRound-of_run s [] unplaced facts kept maximal e = absurd (ground arith)
  IsRound-of_run s (p ∷ placed) unplaced (trimmed, packed, same) kept maximal e =
      subst (λ (r : CuttingLayout × List Piece). IsRound m number remaining r.0 r.1)
        (some-injective _ _ e)
        (record {
          sound = record {
            material = refl;
            trimmed = trimmed;
            packed =
                subst (λ ps. IsPacked (sheet_config m) (record s { placed_pieces = ps })) (sym same)
                  packed;
            nonempty = omega arith;
          };
          numbered = refl;
          kept = kept;
          maximal = maximal;
        })

  IsRound-of_init :
      {l : CuttingLayout} {unplaced : List Piece} {c : Config} {s : Sheet}
      → init (board m) (some m.cutting_params) (some m.split_rule) m.min_rect_size m.strategy
        ≡ ok (c, s)
      → layout_of (board m) number (optimize c remaining s) ≡ some (l, unplaced)
      → IsRound m number remaining l unplaced
  IsRound-of_init {c} {s} built e =
      let (s', (placed, unplaced)) = optimize c remaining s in
      let sound = optimize_sound _ _ _ _ _ built remaining in
      IsRound-of_run s' placed unplaced
        (subst (λ d. IsTrimmed d × IsPacked d s' × (placed ≡ s'.placed_pieces))
          (sym (init-config _ _ _ _ _ built remaining)) sound)
        (optimize-perm _ _ _ _ _ built remaining) (optimize-maximal _ _ _ _ _ built remaining) e

  -- A round that goes on has made a sound layout and passed on what it did not place.
  pub fill_sheet-IsRound :
      {l : CuttingLayout} {unplaced : List Piece}
      → fill_sheet m number remaining ≡ some (l, unplaced)
      → IsRound m number remaining l unplaced
  unfolding fill_sheet
  fill_sheet-IsRound {l} {unplaced} =
      go (init (board m) (some m.cutting_params) (some m.split_rule) m.min_rect_size m.strategy)
        refl
    where
      go :
          (r : Result (Config × Sheet))
          → init (board m) (some m.cutting_params) (some m.split_rule) m.min_rect_size m.strategy
            ≡ r
          → elim r [
            | err e ↦ none
            | ok (c, s) ↦ layout_of (board m) number (optimize c remaining s)
          ]
            ≡ some (l, unplaced)
          → IsRound m number remaining l unplaced
      go (err e) built h = absurd (ground arith)
      go (ok (c, s)) built h = IsRound-of_init built h

-- The trims leave something of the board.
pub record HasRoom (m : Multi) : Type 0 where
  pub across : (sheet_config m).left_trim + (sheet_config m).right_trim < m.material_template.width
  pub along : (sheet_config m).top_trim + (sheet_config m).bottom_trim < m.material_template.height

-- The piece fits on an empty board.
abbrev pub FitsBoard : Multi → Piece → Type 0
FitsBoard m q = fits_somehow q (usable (sheet_config m)) ≡ true

layout_of-placed :
    (material : Material) (number : ℕ) (s : Sheet) (placed : List PlacedPiece)
    (unplaced : List Piece)
    → 0 < length placed
    → (r : CuttingLayout × List Piece) × (layout_of material number (s, (placed, unplaced))
        ≡ some r)
unfolding layout_of
layout_of-placed material number s [] unplaced h = absurd (omega arith)
layout_of-placed material number s (p ∷ placed) unplaced h = (_, refl)

-- A run over pieces that all fit places one at least.
optimize_places :
    (c : Config) (p : Piece) (later : List Piece)
    → All IsUnit (p ∷ later)
    → All (λ q. fits_somehow q (usable c) ≡ true) (p ∷ later)
    → 0 < length (optimize c (p ∷ later) (empty_sheet c)).1.0
unfolding optimize sort_pieces
optimize_places c p later unit fits =
    let sorted = sort_by (piece_before c.strategy) (p ∷ later) in
    rw (expand-unit (p ∷ later) unit) (
      place_all_some c sorted
        (rw (length-perm (sort_by-perm (piece_before c.strategy) (p ∷ later))) (omega arith))
        (All-sort_by (piece_before c.strategy) _ (p ∷ later) fits))

-- While pieces remain and all of them fit on an empty board, the round goes on.
pub fill_sheet_goes_on :
    (m : Multi) (number : ℕ) (p : Piece) (later : List Piece)
    → HasRoom m
    → All IsUnit (p ∷ later)
    → All (FitsBoard m) (p ∷ later)
    → (r : CuttingLayout × List Piece) × (fill_sheet m number (p ∷ later) ≡ some r)
unfolding fill_sheet
fill_sheet_goes_on m number p later room unit fits =
    let run = optimize (sheet_config m) (p ∷ later) (empty_sheet (sheet_config m)) in
    rw (init-ok _ _ _ _ _ room.across room.along, fill_sheet)
      (layout_of-placed (board m) number run.0 run.1.0 run.1.1
        (optimize_places (sheet_config m) p later unit fits))
