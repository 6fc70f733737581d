-- ===== src/Cutting/Guillotine/Run.antt =====
-- `GuillotineOptimizer(…).optimize(pieces)` as a whole: the constructor and the run.
use mathlib.Core.List.{Perm}
use mathlib.Core.List.Perm
use opticutter.Prelude.{
  ℕ, ◌+◌, ◌<◌, ◌≡◌, refl, sym, ap, subst, List, [], ◌∷◌, ◌++◌, map, All, AllPairs, ok, value_error,
  Option, arith, leb, false, guards_passed,
}
use opticutter.Prelude.Stable.{sort_by-perm}
use opticutter.Cutting.Models.{Piece, Material, CuttingParameters, SplitRule, PackingStrategy}
use opticutter.Cutting.Guillotine.{
  Config, Sheet, usable, empty_sheet, sort_pieces, expand, configure, optimize, init,
}
use opticutter.Cutting.Guillotine.Packing.{IsPacked, empty_sheet-IsPacked, optimize-IsPacked}
use opticutter.Cutting.Guillotine.Placement.{NoFit}
use opticutter.Cutting.Guillotine.Sorting.{Leads, optimize-Leads}
use opticutter.Cutting.Guillotine.Conservation.{place_all-perm, place_all-maximal}

-- The usable rectangle and the trims make up the board.
pub record IsTrimmed (c : Config) : Type 0 where
  pub across : c.left_trim + (usable c).width + c.right_trim ≡ c.material.width
  pub along : c.bottom_trim + (usable c).height + c.top_trim ≡ c.material.height
  pub left : (usable c).x ≡ c.left_trim
  pub bottom : (usable c).y ≡ c.bottom_trim
  pub nonempty : (0 < (usable c).width) × (0 < (usable c).height)

-- the list returned is the sheet's, for a sheet that starts empty
run_placed :
    (c : Config) (pieces : List Piece)
    → let (s', (placed, unplaced)) = optimize c pieces (empty_sheet c) in placed ≡ s'.placed_pieces
unfolding optimize
run_placed c [] = refl
run_placed c (piece ∷ later) = refl

run_perm :
    (c : Config) (pieces : List Piece)
    → let (s', (placed, unplaced)) = optimize c pieces (empty_sheet c) in
      Perm (map (λ p. p.piece) placed ++ unplaced) (expand pieces)
unfolding optimize sort_pieces
run_perm c [] = unfold expand in Perm.rfl
run_perm c (piece ∷ later) =
    Perm.trans (place_all-perm c (sort_pieces (expand (piece ∷ later)) c.strategy) (empty_sheet c))
      (sort_by-perm _ (expand (piece ∷ later)))

run_maximal :
    (c : Config) (pieces : List Piece) (s : Sheet)
    → let (s', (placed, unplaced)) = optimize c pieces s in
      All (λ q. NoFit q s'.remainders) unplaced
unfolding optimize
run_maximal c [] s = tt
run_maximal c (piece ∷ later) s = place_all-maximal c _ s

module _ (material : Material) (params : Option CuttingParameters) (split_rule : Option SplitRule)
    (min_rect_size : ℕ) (strategy : PackingStrategy) where
  abbrev pub settings : Config
  settings = configure material params split_rule min_rect_size strategy

  module _ {c : Config} {s : Sheet}
      (built : init material params split_rule min_rect_size strategy ≡ ok (c, s))
      (pieces : List Piece) where
    passed :
        (leb material.width (settings.left_trim + settings.right_trim) ≡ false)
        × (leb material.height (settings.top_trim + settings.bottom_trim) ≡ false)
        × ◌≡◌ {A = Config × Sheet} (settings, empty_sheet settings) (c, s)
    unfolding init
    passed = guards_passed _ _ value_error value_error built

    settings-IsTrimmed : IsTrimmed settings
    unfolding init
    settings-IsTrimmed = ground (arith, passed)

    pub init-config : settings ≡ c
    init-config = ap (λ (p : Config × Sheet). p.0) passed.2

    pub init-fresh : (s ≡ empty_sheet c) × IsTrimmed c
    init-fresh =
        subst (λ (p : Config × Sheet). (p.1 ≡ empty_sheet p.0) × IsTrimmed p.0) passed.2
          (refl, settings-IsTrimmed)

    -- On a board that the constructor accepts, whatever the pieces: every placed piece and every
    -- remainder lies between the trims, any two of them are a kerf apart, and their areas add up to
    -- at most the usable area.
    pub optimize_sound :
        let (s', (placed, unplaced)) = optimize c pieces s in
        IsTrimmed c × IsPacked c s' × (placed ≡ s'.placed_pieces)
    optimize_sound = (
      init-fresh.1,
      optimize-IsPacked c pieces s (rw (init-fresh.0) (empty_sheet-IsPacked c)),
      rw (init-fresh.0) (run_placed c pieces),
    )

    -- Each copy of each piece asked for is placed once or returned as unplaced once.
    pub optimize-perm :
        let (s', (placed, unplaced)) = optimize c pieces s in
        Perm (map (λ p. p.piece) placed ++ unplaced) (expand pieces)
    optimize-perm = rw (init-fresh.0) (run_perm c pieces)

    -- No piece returned as unplaced fits in a remainder, upright or, where allowed, turned.
    pub optimize-maximal :
        let (s', (placed, unplaced)) = optimize c pieces s in
        All (λ q. NoFit q s'.remainders) unplaced
    optimize-maximal = run_maximal c pieces s

    -- The pieces that are placed, in the order of their placing, and those that are returned as
    -- unplaced are each in the order of the strategy: a higher priority first, then a larger area, or
    -- with `long_offcuts` a larger height and then a larger width.
    pub optimize-ordered :
        let (s', (placed, unplaced)) = optimize c pieces s in
        AllPairs (Leads strategy) (map (λ p. p.piece) placed) × AllPairs (Leads strategy) unplaced
    unfolding configure
    optimize-ordered =
        subst
          (λ k.
            let (s', (placed, unplaced)) = optimize c pieces s in
            AllPairs (Leads k) (map (λ p. p.piece) placed) × AllPairs (Leads k) unplaced)
          (ap (λ d. d.strategy) (sym init-config))
          (optimize-Leads c pieces s (ap (λ t. t.placed_pieces) (init-fresh.0)))

  pub init-ok :
      settings.left_trim + settings.right_trim < material.width
      → settings.top_trim + settings.bottom_trim < material.height
      → init material params split_rule min_rect_size strategy ≡ ok (settings, empty_sheet settings)
  unfolding init
  init-ok h k = ground arith
