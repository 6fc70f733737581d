-- ===== src/Optimizations/Pool/Outcome.antt =====
-- What the layouts of a pool hold: sheets of the materials given, and each copy of each piece once.
use mathlib.Core.List.{Perm}
use mathlib.Core.List.Perm
use opticutter.Prelude.{
  ℕ, zero, suc, ◌≤◌, ◌<◌, ◌≡◌, sym, subst, inl, inr, Option, none, some, List, [], ◌∷◌, ◌++◌, map,
  sum_by, length-append, append_assoc, append-nil, length, All, All-append, All-map,
  All-append_right, Result-cases, Option-cases, arith,
}
use opticutter.Cutting.Models.{
  PackingStrategy, CuttingParameters, Piece, PlacedPiece, Material, CuttingLayout,
}
use opticutter.Cutting.Guillotine.{Config, Sheet, configure, init, optimize, expand}
use opticutter.Cutting.Guillotine.Expand.{IsUnit, expand-unit, expand-IsUnit}
use opticutter.Cutting.Guillotine.Packing.{IsPacked}
use opticutter.Cutting.Guillotine.Run.{
  IsTrimmed, settings, init-config, optimize_sound, optimize-perm,
}
use opticutter.Cutting.MultiSheet.{Multi, make_multi, optimize_multi}
use opticutter.Cutting.MultiSheet.Progress.{sheet_of, IsSound}
use opticutter.Cutting.MultiSheet.Conservation.{
  all_pieces, all_pieces-append, IsUnit-perm, optimize_multi-IsOutcome,
}
use opticutter.Optimizations.Pool.{
  ResolvedMaterial, domain_material, units_of, offcut_layout, pack_offcut, fill_units, fill_offcuts,
  fill_catalog,
}

module _ (params : CuttingParameters) (strategy : PackingStrategy) (min_rect_size : ℕ)
    (Source : Material → Type 0) where
  abbrev pub config_on : Material → Config
  config_on material = settings material (some params) none min_rect_size strategy

  pub record IsSheet (l : CuttingLayout) : Type 0 where
    pub source : Source l.material
    pub trimmed : IsTrimmed (config_on l.material)
    pub packed : IsPacked (config_on l.material) (sheet_of l)
    pub nonempty : 0 < length l.placed_pieces

  -- the layouts and what is left of the pieces
  pub record IsFilled (pieces : List Piece) (layouts : List CuttingLayout) (rest : List Piece)
      : Type 0 where
    pub sheets : All IsSheet layouts
    pub kept : Perm (all_pieces layouts ++ expand rest) (expand pieces)

  pub IsFilled-none : (pieces : List Piece) → IsFilled pieces [] pieces
  unfolding all_pieces
  IsFilled-none pieces = record { sheets = tt; kept = Perm.rfl }

  pub IsFilled-append :
      (pieces rest last : List Piece) (ls ms : List CuttingLayout)
      → IsFilled pieces ls rest
      → IsFilled rest ms last
      → IsFilled pieces (ls ++ ms) last
  IsFilled-append pieces rest last ls ms h k = record {
    sheets = All-append IsSheet ls ms h.sheets k.sheets;
    kept =
        Perm.trans
          (rw (all_pieces-append ls ms, append_assoc (all_pieces ls) (all_pieces ms) (expand last))
            (Perm.append (Perm.refl (all_pieces ls)) k.kept))
          h.kept;
  }

  abbrev listed : Option CuttingLayout → List CuttingLayout
  listed none = []
  listed (some l) = l ∷ []

  -- pieces that are copies already
  last_unit :
      (placed unplaced pieces : List Piece)
      → Perm (placed ++ unplaced) (expand pieces)
      → Perm (placed ++ expand unplaced) (expand pieces)
  last_unit placed unplaced pieces h =
      rw
        (expand-unit unplaced (
          All-append_right IsUnit placed unplaced
            (IsUnit-perm (Perm.symm h) (expand-IsUnit pieces))))
        h

  module _ (material : Material) (source : Source material) where
    offcut_layout-IsFilled :
        (number : ℕ) (pieces : List Piece) (s : Sheet) (placed : List PlacedPiece)
        (unplaced : List Piece)
        → IsTrimmed (config_on material)
          × IsPacked (config_on material) s
          × (placed ≡ s.placed_pieces)
        → Perm (map (λ p. p.piece) placed ++ unplaced) (expand pieces)
        → let (layout, rest) =
            offcut_layout params strategy min_rect_size material number (s, (placed, unplaced)) in
          IsFilled pieces (listed layout) rest
    unfolding offcut_layout all_pieces
    offcut_layout-IsFilled number pieces s [] unplaced facts kept = record {
      sheets = tt;
      kept = last_unit [] unplaced pieces kept;
    }
    offcut_layout-IsFilled number pieces s (p ∷ placed) unplaced (trimmed, packed, same) kept =
        let all = map (λ q. q.piece) (p ∷ placed) in
        record {
          sheets = (
            record {
              source = source;
              trimmed = trimmed;
              packed =
                  subst (λ ps. IsPacked (config_on material) (record s { placed_pieces = ps }))
                    (sym same) packed;
              nonempty = omega arith;
            },
            tt,
          );
          kept = rw (append-nil (map (λ q. q.piece) placed)) (last_unit all unplaced pieces kept);
        }

    pack_offcut-IsFilled :
        (pieces : List Piece) (number : ℕ)
        → let (layout, rest) = pack_offcut params strategy min_rect_size material pieces number in
          IsFilled pieces (listed layout) rest
    unfolding pack_offcut
    pack_offcut-IsFilled pieces number =
        elim (Result-cases (init material (some params) none min_rect_size strategy)) [
          | inr (e, f) ↦ rw (f, pack_offcut) (IsFilled-none pieces)
          | inl ((c, s), f) ↦
              let (s', (placed, unplaced)) = optimize c pieces s in
              rw (f, pack_offcut)
                (offcut_layout-IsFilled number pieces s' placed unplaced
                  (subst (λ d. IsTrimmed d × IsPacked d s' × (placed ≡ s'.placed_pieces))
                    (sym (init-config _ _ _ _ _ f pieces)) (optimize_sound _ _ _ _ _ f pieces))
                  (optimize-perm _ _ _ _ _ f pieces))
        ]

    fill_units-IsFilled :
        (left number : ℕ) (pieces : List Piece)
        → let (layouts, rest) =
            fill_units params strategy min_rect_size material left number pieces in
          IsFilled pieces layouts rest × (length layouts ≤ left)
    unfolding fill_units
    fill_units-IsFilled zero number pieces = (IsFilled-none pieces, omega arith)
    fill_units-IsFilled (suc left) number [] = (IsFilled-none [], omega arith)
    fill_units-IsFilled (suc left) number (p ∷ later) =
        let packed = pack_offcut-IsFilled (p ∷ later) number in
        let rest = (pack_offcut params strategy min_rect_size material (p ∷ later) number).1 in
        let (more, bound) = fill_units-IsFilled left (suc number) rest in
        elim (Option-cases
          (pack_offcut params strategy min_rect_size material (p ∷ later) number).0) [
            | inl e ↦ rw (e, fill_units) (rw (e) at packed, omega arith)
            | inr (l, e) ↦
                rw (e, fill_units)
                  (
                    IsFilled-append (p ∷ later) rest _ (l ∷ []) _ (rw (e) at packed) more,
                    omega (arith, bound),
                  )
          ]

  pub fill_offcuts-IsFilled :
      (offcuts : List ResolvedMaterial) (pieces : List Piece)
      → All (λ o. Source (domain_material o)) offcuts
      → let (layouts, rest) = fill_offcuts params strategy min_rect_size offcuts pieces in
        IsFilled pieces layouts rest × (length layouts ≤ sum_by units_of offcuts)
  unfolding fill_offcuts
  fill_offcuts-IsFilled [] pieces h = (IsFilled-none pieces, omega arith)
  fill_offcuts-IsFilled (o ∷ os) pieces h =
      let (ls, rest) =
        fill_units params strategy min_rect_size (domain_material o) (units_of o) 1 pieces in
      let (ms, last) = fill_offcuts params strategy min_rect_size os rest in
      let (filled, bound) = fill_units-IsFilled (domain_material o) h.0 (units_of o) 1 pieces in
      let (more, bound') = fill_offcuts-IsFilled os rest h.1 in
      (
        IsFilled-append pieces rest last ls ms filled more,
        omega (arith, length-append {0} ls ms, bound, bound'),
      )

  module _ (primary : ResolvedMaterial) (source : Source (domain_material primary)) where
    abbrev catalog : ℕ → Multi
    catalog n = make_multi (domain_material primary) (some params) none n min_rect_size strategy

    IsSheet-sound : (n : ℕ) (l : CuttingLayout) → IsSound (catalog n) l → IsSheet l
    unfolding make_multi configure
    IsSheet-sound n l h = record {
      source = subst Source (sym h.material) source;
      trimmed = subst (λ x. IsTrimmed (config_on x)) (sym h.material) h.trimmed;
      packed = subst (λ x. IsPacked (config_on x) (sheet_of l)) (sym h.material) h.packed;
      nonempty = h.nonempty;
    }

    pub fill_catalog-IsFilled :
        (pieces : List Piece) (n : ℕ)
        → let (layouts, rest) = fill_catalog params strategy min_rect_size primary pieces n in
          IsFilled pieces layouts rest × (length layouts ≤ n)
    unfolding fill_catalog
    fill_catalog-IsFilled [] n = (IsFilled-none [], omega arith)
    fill_catalog-IsFilled (p ∷ later) zero = (IsFilled-none (p ∷ later), omega arith)
    fill_catalog-IsFilled (p ∷ later) (suc n) =
        let (layouts, rest) = optimize_multi (catalog (suc n)) (p ∷ later) in
        let (h, bound) = optimize_multi-IsOutcome (catalog (suc n)) (p ∷ later) in
        (
          record {
            sheets = All-map (λ l. IsSheet-sound (suc n) l) layouts h.sound;
            kept = rw (expand-unit rest h.unit) h.kept;
          },
          unfold make_multi in bound,
        )
