-- ===== src/Optimizations/Pool/FillOrder.antt =====
-- The three fill orders of `optimize_pool`.
use mathlib.Core.List.{Perm}
use opticutter.Prelude.{
  ℕ, zero, suc, ◌≡◌, refl, sym, subst, ◌⊎◌, inl, inr, List, [], ◌∷◌, append-nil, length, All, true,
  false, arith, Bool-cases,
}
use opticutter.Prelude.Text.{Text}
use opticutter.Cutting.Models.{PackingStrategy, CuttingParameters, Piece, Material, CuttingLayout}
use opticutter.Cutting.Guillotine.{expand}
use opticutter.Cutting.MultiSheet.Conservation.{all_pieces}
use opticutter.Optimizations.Pool.{
  WasteScore, PoolFillOrder, auto, offcuts_first, catalog_first, ResolvedMaterial, domain_material,
  fill_offcuts, fill_catalog, by_order, if_none_left, fill_offcuts_first, with_boards,
  fewest_boards, fill_catalog_first, least_waste, waste_score_lt, catalog_waste_score,
  optimize_pool,
}
use opticutter.Optimizations.Pool.Outcome.{
  IsFilled, IsFilled-none, IsFilled-append, fill_offcuts-IsFilled, fill_catalog-IsFilled,
}

-- the boards of the pool: an offcut's or the catalog's
abbrev pub OneOf : List ResolvedMaterial → Material → Type 0
OneOf [] m = ⊥
OneOf (o ∷ os) m = (m ≡ domain_material o) ⊎ OneOf os m

abbrev pub Supplied : ResolvedMaterial → List ResolvedMaterial → Material → Type 0
Supplied primary offcuts m = (m ≡ domain_material primary) ⊎ OneOf offcuts m

OneOf-All :
    (Q : Material → Type 0) (os : List ResolvedMaterial)
    → ((m : Material) → OneOf os m → Q m)
    → All (λ o. Q (domain_material o)) os
OneOf-All Q [] h = tt
OneOf-All Q (o ∷ os) h = (h (domain_material o) (inl refl), OneOf-All Q os (λ m k. h m (inr k)))

module _ (params : CuttingParameters) (strategy : PackingStrategy) (min_rect_size : ℕ)
    (primary : ResolvedMaterial) (offcuts : List ResolvedMaterial) (max_sheets : ℕ) where
  abbrev Source : Material → Type 0
  Source m = Supplied primary offcuts m

  -- The layouts are sound sheets of the pool's boards, and with the pieces left out they hold each
  -- copy once.
  abbrev pub IsPool : List Piece → List CuttingLayout → Type 0
  IsPool pieces layouts =
      (rest : List Piece) × IsFilled params strategy min_rect_size Source pieces layouts rest

  catalog-IsPool :
      (pieces : List Piece) (n : ℕ)
      → let (layouts, rest) = fill_catalog params strategy min_rect_size primary pieces n in
        IsFilled params strategy min_rect_size Source pieces layouts rest
  catalog-IsPool pieces n =
      (fill_catalog-IsFilled params strategy min_rect_size Source primary (inl refl) pieces n).0

  offcuts-IsPool :
      (pieces : List Piece)
      → let (layouts, rest) = fill_offcuts params strategy min_rect_size offcuts pieces in
        IsFilled params strategy min_rect_size Source pieces layouts rest
  offcuts-IsPool pieces =
      (fill_offcuts-IsFilled params strategy min_rect_size Source offcuts pieces
        (OneOf-All Source offcuts (λ m k. inr k))).0

  module _ (pieces : List Piece) where
    offcuts_first-IsPool :
        IsPool pieces
          (fill_offcuts_first params strategy min_rect_size pieces primary offcuts max_sheets)
    unfolding fill_offcuts_first
    offcuts_first-IsPool =
        let (ls, rest) = fill_offcuts params strategy min_rect_size offcuts pieces in
        let (ms, last) = fill_catalog params strategy min_rect_size primary rest max_sheets in
        (
          last,
          IsFilled-append params strategy min_rect_size Source pieces rest last ls ms
              (offcuts-IsPool pieces) (catalog-IsPool rest max_sheets),
        )

    with_boards-IsFilled :
        (k : ℕ)
        → let (layouts, rest) =
            with_boards params strategy min_rect_size pieces primary offcuts max_sheets k in
          IsFilled params strategy min_rect_size Source pieces layouts rest
    unfolding with_boards
    with_boards-IsFilled k =
        let (ls, rest) = fill_catalog params strategy min_rect_size primary pieces k in
        let (ms, last) = fill_offcuts params strategy min_rect_size offcuts rest in
        IsFilled-append params strategy min_rect_size Source pieces rest last ls ms
          (catalog-IsPool pieces k) (offcuts-IsPool rest)

    fewest_step :
        (catalog_only later layouts : List CuttingLayout) (remaining : List Piece)
        → IsFilled params strategy min_rect_size Source pieces layouts remaining
        → IsFilled params strategy min_rect_size Source pieces later [] ⊎ (later ≡ catalog_only)
        → let result = if_none_left remaining layouts later in
          IsFilled params strategy min_rect_size Source pieces result [] ⊎ (result ≡ catalog_only)
    fewest_step catalog_only later layouts [] filled h = inl filled
    fewest_step catalog_only later layouts (p ∷ ps) filled h = h

    -- the search ends with nothing left, or with the catalog's layouts
    fewest_boards-cases :
        (catalog_only : List CuttingLayout) (left k : ℕ)
        → let layouts =
            fewest_boards params strategy min_rect_size pieces primary offcuts max_sheets
              catalog_only left k in
          IsFilled params strategy min_rect_size Source pieces layouts [] ⊎ (layouts ≡ catalog_only)
    unfolding fewest_boards
    fewest_boards-cases catalog_only zero k = inr refl
    fewest_boards-cases catalog_only (suc left) k =
        fewest_step catalog_only _
          (with_boards params strategy min_rect_size pieces primary offcuts max_sheets k).0
          (with_boards params strategy min_rect_size pieces primary offcuts max_sheets k).1
          (with_boards-IsFilled k) (fewest_boards-cases catalog_only left (suc k))

    catalog_first-cases :
        let layouts =
          fill_catalog_first params strategy min_rect_size pieces primary offcuts max_sheets in
        IsFilled params strategy min_rect_size Source pieces layouts []
        ⊎ (layouts ≡ (fill_catalog params strategy min_rect_size primary pieces max_sheets).0)
    unfolding fill_catalog_first
    catalog_first-cases =
        let catalog_only =
          (fill_catalog params strategy min_rect_size primary pieces max_sheets).0 in
        fewest_boards-cases catalog_only (suc (length catalog_only)) 0

    catalog_first-IsPool :
        IsPool pieces
          (fill_catalog_first params strategy min_rect_size pieces primary offcuts max_sheets)
    catalog_first-IsPool = elim catalog_first-cases [
      | inl h ↦ ([], h)
      | inr e ↦ subst (IsPool pieces) (sym e) (_, catalog-IsPool pieces max_sheets)
    ]

    all_placed :
        (layouts : List CuttingLayout)
        → IsFilled params strategy min_rect_size Source pieces layouts []
        → Perm (all_pieces layouts) (expand pieces)
    unfolding expand
    all_placed layouts h = rw (append-nil (all_pieces layouts)) at h.kept

    -- Where the catalog alone leaves no piece out, filling the catalog first leaves none out either.
    pub catalog_first-complete :
        (fill_catalog params strategy min_rect_size primary pieces max_sheets).1 ≡ []
        → Perm
            (all_pieces
              (fill_catalog_first params strategy min_rect_size pieces primary offcuts max_sheets))
            (expand pieces)
    catalog_first-complete none_left = elim catalog_first-cases [
      | inl h ↦ all_placed _ h
      | inr e ↦ rw (e) (
          all_placed _ (
            subst
              (λ r.
                IsFilled params strategy min_rect_size Source pieces
                  (fill_catalog params strategy min_rect_size primary pieces max_sheets).0 r)
              none_left (catalog-IsPool pieces max_sheets)))
    ]

    by_order-IsPool :
        (order : PoolFillOrder)
        → IsPool pieces
            (by_order params strategy min_rect_size pieces primary offcuts max_sheets order)
    unfolding least_waste
    by_order-IsPool offcuts_first = offcuts_first-IsPool
    by_order-IsPool catalog_first = catalog_first-IsPool
    by_order-IsPool auto =
        let first =
          fill_offcuts_first params strategy min_rect_size pieces primary offcuts max_sheets in
        let second =
          fill_catalog_first params strategy min_rect_size pieces primary offcuts max_sheets in
        elim (Bool-cases (
          waste_score_lt (catalog_waste_score second primary.key)
            (catalog_waste_score first primary.key))) [
              | inl e ↦ rw (e, least_waste) catalog_first-IsPool
              | inr e ↦ rw (e, least_waste) offcuts_first-IsPool
            ]

waste_score_lt_irrefl : (a : WasteScore) → waste_score_lt a a ≡ false
unfolding waste_score_lt
waste_score_lt_irrefl a = ground arith

waste_score_lt-asym : (a b : WasteScore) → waste_score_lt a b ≡ true → waste_score_lt b a ≡ false
unfolding waste_score_lt
waste_score_lt-asym a b h = ground arith

-- Neither of the two candidates scores less than the one that is kept.
pub least_waste-least :
    (first second : List CuttingLayout) (key : Text)
    → let score = catalog_waste_score (least_waste first second key) key in
      (waste_score_lt (catalog_waste_score first key) score ≡ false)
      × (waste_score_lt (catalog_waste_score second key) score ≡ false)
unfolding least_waste
least_waste-least first second key =
    let a = catalog_waste_score first key in
    let b = catalog_waste_score second key in
    elim (Bool-cases (waste_score_lt b a)) [
      | inl e ↦ rw (e, least_waste) (waste_score_lt-asym b a e, waste_score_lt_irrefl b)
      | inr e ↦ rw (e, least_waste) (waste_score_lt_irrefl a, e)
    ]

module _ (params : CuttingParameters) (strategy : PackingStrategy) (min_rect_size : ℕ)
    (primary : ResolvedMaterial) where
  -- Whatever the fill order: each layout is a sound sheet of the catalog board or of one of the
  -- offcuts, and each copy of each piece asked for is on at most one of them, once.
  pub optimize_pool-IsPool :
      (offcuts : List ResolvedMaterial) (max_sheets : ℕ) (pieces : List Piece)
      → IsPool params strategy min_rect_size primary offcuts max_sheets pieces
          (optimize_pool params strategy min_rect_size pieces primary offcuts max_sheets)
  unfolding optimize_pool
  optimize_pool-IsPool offcuts max_sheets [] =
      ([], IsFilled-none params strategy min_rect_size _ [])
  optimize_pool-IsPool [] max_sheets (p ∷ later) =
      (_, catalog-IsPool params strategy min_rect_size primary [] max_sheets (p ∷ later) max_sheets)
  optimize_pool-IsPool (o ∷ offcuts) max_sheets (p ∷ later) =
      by_order-IsPool params strategy min_rect_size primary (o ∷ offcuts) max_sheets (p ∷ later)
        primary.fill_order
