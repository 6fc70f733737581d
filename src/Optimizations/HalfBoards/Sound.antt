-- ===== src/Optimizations/HalfBoards/Sound.antt =====
-- A sheet that is billed as a half board is a sound packing of the same pieces on half the width.
use mathlib.Core.List.{Perm}
use mathlib.Core.Option.{some-injective}
use opticutter.Prelude.{
  ℕ, ◌+◌, ◌≤◌, ◌≡◌, ◌⊎◌, refl, sym, ap, subst, inl, inr, true, none, some, List, [], ◌∷◌, ◌++◌, map,
  append-nil, Bool-cases, Option-cases, Result-cases, arith,
}
use opticutter.Cutting.Models.{
  PackingStrategy, CuttingParameters, Piece, PlacedPiece, Material, CuttingLayout,
}
use opticutter.Cutting.Guillotine.{Sheet, init, optimize, expand}
use opticutter.Cutting.Guillotine.Packing.{IsPacked}
use opticutter.Cutting.Guillotine.Run.{
  IsTrimmed, settings, init-config, optimize_sound, optimize-perm,
}
use opticutter.Cutting.MultiSheet.Progress.{sheet_of, layout_pieces}
use opticutter.Optimizations.Materials.{ResolvedMaterial, is_catalog}
use opticutter.Optimizations.HalfBoards.{
  find_resolved, half_cost, half_material, half_layout, repack, fit_on_half_board, halved,
  apply_half_boards,
}

-- the lists agree in length, and entry by entry in the relation
abbrev pub AllZip {ℓ} : {A : Type ℓ} → (A → A → Type 0) → List A → List A → Type 0
AllZip R [] [] = Unit
AllZip R [] (y ∷ ys) = ⊥
AllZip R (x ∷ xs) [] = ⊥
AllZip R (x ∷ xs) (y ∷ ys) = R x y × AllZip R xs ys

AllZip-map {ℓ} :
    {A : Type ℓ} (R : A → A → Type 0) (f : A → A)
    → ((a : A) → R a (f a))
    → (xs : List A) → AllZip R xs (map f xs)
AllZip-map R f h [] = tt
AllZip-map R f h (x ∷ xs) = (h x, AllZip-map R f h xs)

module _ (params : CuttingParameters) (strategy : PackingStrategy) (markup min_rect_size : ℕ)
    (resolved : List ResolvedMaterial) where
  -- a board of half the width, rounded down to a hundredth of a millimetre, and the same height
  abbrev pub HasHalfWidth : ResolvedMaterial → Material → Type 0
  HasHalfWidth whole half =
      (half.width + half.width ≤ whole.width)
      × (whole.width ≤ half.width + half.width + 1)
      × (half.height ≡ whole.height)
      × (half.half_board ≡ true)

  half_material-HasHalfWidth :
      (layout : CuttingLayout) (rm : ResolvedMaterial)
      → HasHalfWidth rm (half_material layout rm markup)
  unfolding half_material
  half_material-HasHalfWidth layout rm = (omega arith, omega arith, refl, refl)

  -- The layout `half` bills the sheet `full` of a catalog board as a half board.
  pub record IsHalf (full half : CuttingLayout) : Type 0 where
    pub material : ResolvedMaterial
    pub found : find_resolved full.material.id resolved ≡ some material
    pub from_catalog : is_catalog material ≡ true
    pub board : half.material ≡ half_material full material markup
    pub half_width : HasHalfWidth material half.material
    pub trimmed : IsTrimmed (settings half.material (some params) none min_rect_size strategy)
    pub packed :
        IsPacked (settings half.material (some params) none min_rect_size strategy) (sheet_of half)
    pub number : half.sheet_number ≡ full.sheet_number
    pub kept : Perm (layout_pieces half) (expand (layout_pieces full))

  -- what a repack that finds room returns
  record IsRepack (material : Material) (number : ℕ) (pieces : List Piece) (half : CuttingLayout)
      : Type 0 where
    board : half.material ≡ material
    trimmed : IsTrimmed (settings material (some params) none min_rect_size strategy)
    packed : IsPacked (settings material (some params) none min_rect_size strategy) (sheet_of half)
    numbered : half.sheet_number ≡ number
    kept : Perm (layout_pieces half) (expand pieces)

  half_layout-IsRepack :
      (material : Material) (number : ℕ) (pieces : List Piece) (s : Sheet)
      (placed : List PlacedPiece) (unplaced : List Piece) {half : CuttingLayout}
      → (let c = settings material (some params) none min_rect_size strategy in
          IsTrimmed c × IsPacked c s × (placed ≡ s.placed_pieces))
      → Perm (map (λ p. p.piece) placed ++ unplaced) (expand pieces)
      → half_layout material number (s, (placed, unplaced)) ≡ some half
      → IsRepack material number pieces half
  unfolding half_layout
  half_layout-IsRepack material number pieces s placed (p ∷ unplaced) facts kept h =
      absurd (ground (arith, h))
  half_layout-IsRepack material number pieces s placed [] (trimmed, packed, same) kept h =
      subst (IsRepack material number pieces) (some-injective _ _ h) (record {
        board = refl;
        trimmed = trimmed;
        packed =
            subst
              (λ ps.
                IsPacked (settings material (some params) none min_rect_size strategy)
                  (record s { placed_pieces = ps }))
              (sym same) packed;
        numbered = refl;
        kept = rw (append-nil (map (λ p. p.piece) placed)) at kept;
      })

  repack-IsRepack :
      (material : Material) (number : ℕ) (pieces : List Piece) {half : CuttingLayout}
      → repack params strategy markup min_rect_size material number pieces ≡ some half
      → IsRepack material number pieces half
  unfolding repack
  repack-IsRepack material number [] h = absurd (ground (arith, h))
  repack-IsRepack material number (p ∷ later) h =
      elim (Result-cases (init material (some params) none min_rect_size strategy)) [
        | inr (e, f) ↦ absurd (ground (arith, rw (f, repack) at h))
        | inl ((c, s), f) ↦
            let (s', (placed, unplaced)) = optimize c (p ∷ later) s in
            half_layout-IsRepack material number (p ∷ later) s' placed unplaced
              (subst (λ d. IsTrimmed d × IsPacked d s' × (placed ≡ s'.placed_pieces))
                (sym (init-config _ _ _ _ _ f (p ∷ later)))
                (optimize_sound _ _ _ _ _ f (p ∷ later)))
              (optimize-perm _ _ _ _ _ f (p ∷ later)) (rw (f, repack) at h)
      ]

  abbrev half_of : CuttingLayout → CuttingLayout
  half_of l = halved params strategy markup min_rect_size resolved l

  abbrev pub IsBilled : CuttingLayout → CuttingLayout → Type 0
  IsBilled full half = (half ≡ full) ⊎ IsHalf full half

  halved-IsBilled : (l : CuttingLayout) → IsBilled l (half_of l)
  unfolding halved fit_on_half_board
  halved-IsBilled l = elim (Option-cases (find_resolved l.material.id resolved)) [
    | inl e ↦ inl (rw (e, halved) refl)
    | inr (rm, e) ↦ elim (Bool-cases (is_catalog rm)) [
      | inr f ↦ inl (rw (e, halved, f) refl)
      | inl f ↦ elim (Option-cases (fit_on_half_board params strategy markup min_rect_size l rm)) [
        | inl g ↦ inl (rw (e, halved, f, g) refl)
        | inr (half, g) ↦
            let r =
              repack-IsRepack (half_material l rm markup) l.sheet_number (layout_pieces l) g in
            let is_half : IsHalf l half = record {
              material = rm;
              found = e;
              from_catalog = f;
              board = r.board;
              half_width = subst (HasHalfWidth rm) (sym r.board) (half_material-HasHalfWidth l rm);
              trimmed =
                  subst (λ m. IsTrimmed (settings m (some params) none min_rect_size strategy))
                    (sym r.board) r.trimmed;
              packed =
                  subst
                    (λ m.
                      IsPacked (settings m (some params) none min_rect_size strategy)
                        (sheet_of half))
                    (sym r.board) r.packed;
              number = r.numbered;
              kept = r.kept;
            } in
            inr (rw (e, halved, f, g) is_half)
      ]
    ]
  ]

  -- `apply_half_boards` leaves each sheet as it is, or replaces a sheet of a catalog board by one of
  -- half its width with the same number, on which the same pieces are packed as soundly.
  pub apply_half_boards-IsBilled :
      (results : List (List CuttingLayout))
      → AllZip
          (AllZip IsBilled)
          results
          (apply_half_boards params strategy markup min_rect_size resolved results)
  unfolding apply_half_boards
  apply_half_boards-IsBilled results =
      AllZip-map (AllZip IsBilled) (map half_of) (AllZip-map IsBilled half_of halved-IsBilled)
        results

  half_cost-le : (cost : ℕ) → markup ≤ 10000 → half_cost cost markup ≤ cost
  unfolding half_cost
  half_cost-le cost h = grind arith

  -- With a markup of at most 100%, a sheet whose cost is that of its material is not billed higher
  -- after the replacement than before.
  pub halved-cost :
      (l : CuttingLayout)
      → markup ≤ 10000
      → ((rm : ResolvedMaterial)
          → find_resolved l.material.id resolved ≡ some rm
          → l.material.cost_per_unit ≡ rm.cost_per_unit)
      → (halved params strategy markup min_rect_size resolved l).material.cost_per_unit
        ≤ l.material.cost_per_unit
  unfolding half_material
  halved-cost l h priced = elim (halved-IsBilled l) [
    | inl same ↦ rw same (omega arith)
    | inr half ↦
        let cost : (half_of l).material.cost_per_unit
            ≡ half_cost half.material.cost_per_unit markup =
          ap (λ m. m.cost_per_unit) half.board in
        omega
          (arith, cost, priced half.material half.found, half_cost-le half.material.cost_per_unit h)
  ]
