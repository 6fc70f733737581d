-- ===== src/Optimizations/Edges/Drawn.antt =====
-- The sides that are drawn of a piece against those that are asked for.
use opticutter.Prelude.{
  ℕ, ◌+◌, ◌%◌, ◌≡◌, refl, ap, ◌∙◌, sym, Bool, true, false, ◌||◌, List, [], ◌∷◌, map, filter, sum_by,
  All, AllPairs, AllPairs-filter, if◌then◌else◌, arith,
}
use opticutter.Optimizations.Materials.{Product}
use opticutter.Optimizations.Pieces.{
  EdgeSide, top, bottom, left, right, EdgeBandingSpec, Requirement, side_length,
}
use opticutter.Optimizations.Edges.{
  same_side, has_side, cw_rotation, geometric_sides, GeometricEdges, geometric_edges,
}

abbrev pub DistinctSides : List EdgeSide → Type 0
DistinctSides sides = AllPairs (λ a b. same_side a b ≡ false) sides

-- the length of a side of a piece that is drawn `width` by `height`
abbrev pub drawn_length : ℕ → ℕ → EdgeSide → ℕ
drawn_length width height top = width
drawn_length width height bottom = width
drawn_length width height left = height
drawn_length width height right = height

abbrev counted_if : Bool → ℕ → ℕ
counted_if true n = n
counted_if false n = 0

-- the lengths of the sides of a list, in the order that they are drawn in
by_side : ℕ → ℕ → List EdgeSide → ℕ
by_side width height sides =
    counted_if (has_side top sides) width
    + counted_if (has_side bottom sides) width
    + counted_if (has_side left sides) height
    + counted_if (has_side right sides) height

same_side_comm : (a b : EdgeSide) → same_side a b ≡ same_side b a
same_side_comm a b = ground arith

absent :
    (s : EdgeSide) (sides : List EdgeSide)
    → All (λ b. same_side s b ≡ false) sides
    → has_side s sides ≡ false
absent s [] h = refl
absent s (b ∷ sides) h = rw (sym (same_side_comm s b) ∙ h.0) (absent s sides h.1)

sum-by_side :
    (width height : ℕ) (sides : List EdgeSide)
    → DistinctSides sides
    → sum_by (drawn_length width height) sides ≡ by_side width height sides
unfolding by_side
sum-by_side width height [] h = refl
sum-by_side width height (top ∷ sides) h =
    omega (
      arith,
      sum-by_side width height sides h.1,
      ap (λ b. counted_if b width) (absent top sides h.0),
    )
sum-by_side width height (bottom ∷ sides) h = omega (
  arith,
  sum-by_side width height sides h.1,
  ap (λ b. counted_if b width) (absent bottom sides h.0),
)
sum-by_side width height (left ∷ sides) h = omega (
  arith,
  sum-by_side width height sides h.1,
  ap (λ b. counted_if b height) (absent left sides h.0),
)
sum-by_side width height (right ∷ sides) h = omega (
  arith,
  sum-by_side width height sides h.1,
  ap (λ b. counted_if b height) (absent right sides h.0),
)

-- a turn of the piece moves each side
same_side-cw_rotation : (a b : EdgeSide) → same_side (cw_rotation a) (cw_rotation b) ≡ same_side a b
unfolding cw_rotation
same_side-cw_rotation a b = ground arith

has_side-cw_rotation :
    (s : EdgeSide) (sides : List EdgeSide)
    → has_side (cw_rotation s) (map cw_rotation sides) ≡ has_side s sides
has_side-cw_rotation s [] = refl
has_side-cw_rotation s (b ∷ sides) =
    ap (λ c. c || has_side (cw_rotation s) (map cw_rotation sides)) (same_side-cw_rotation b s)
    ∙ ap (λ c. same_side b s || c) (has_side-cw_rotation s sides)

-- where the piece comes out rotated, a side lies one turn further
abbrev pub turned : Bool → EdgeSide → EdgeSide
turned rotated s = if rotated then cw_rotation s else s

drawn : (EdgeSide → Bool) → List EdgeSide
drawn q = filter q (top ∷ bottom ∷ left ∷ right ∷ [])

drawn-IsDistinct : (q : EdgeSide → Bool) → DistinctSides (drawn q)
unfolding drawn
drawn-IsDistinct q =
    AllPairs-filter (λ a b. same_side a b ≡ false) q (top ∷ bottom ∷ left ∷ right ∷ [])
      ((refl, (refl, (refl, tt))), ((refl, (refl, tt)), ((refl, tt), (tt, tt))))

has_side-drawn : (q : EdgeSide → Bool) (s : EdgeSide) → has_side s (drawn q) ≡ q s
unfolding drawn
has_side-drawn q top = ground arith
has_side-drawn q bottom = ground arith
has_side-drawn q left = ground arith
has_side-drawn q right = ground arith

-- how many quarter turns clockwise a side is from the top
abbrev pub quarter : EdgeSide → ℕ
quarter top = 0
quarter right = 1
quarter bottom = 2
quarter left = 3

turned-quarter :
    (rotated : Bool) (s : EdgeSide)
    → quarter (turned rotated s) ≡ (quarter s + (if rotated then 1 else 0)) % 4
unfolding cw_rotation
turned-quarter true top = refl
turned-quarter true bottom = refl
turned-quarter true left = refl
turned-quarter true right = refl
turned-quarter false top = refl
turned-quarter false bottom = refl
turned-quarter false left = refl
turned-quarter false right = refl

-- What `_geometric_edges` says of a piece whose sides are banded.
pub record IsDrawn (req : Requirement) (spec : EdgeBandingSpec) (rotated : Bool)
    (edges : GeometricEdges) : Type 0 where
  pub once : DistinctSides edges.sides
  pub clockwise :
      (s : EdgeSide) → quarter (turned rotated s) ≡ (quarter s + (if rotated then 1 else 0)) % 4
  pub placed : (s : EdgeSide) → has_side (turned rotated s) edges.sides ≡ has_side s spec.sides
  pub same_length :
      sum_by
        (drawn_length
          (if rotated then req.height else req.width)
          (if rotated then req.width else req.height))
        edges.sides
      ≡ sum_by (side_length req) spec.sides

placed_sides :
    (sides : List EdgeSide) (rotated : Bool) (s : EdgeSide)
    → has_side (turned rotated s) (geometric_sides sides rotated) ≡ has_side s sides
unfolding geometric_sides drawn
placed_sides sides true s =
    has_side-drawn (λ b. has_side b (map cw_rotation sides)) (cw_rotation s)
    ∙ has_side-cw_rotation s sides
placed_sides sides false s = has_side-drawn (λ b. has_side b sides) s

distinct_sides :
    (sides : List EdgeSide) (rotated : Bool) → DistinctSides (geometric_sides sides rotated)
unfolding geometric_sides drawn
distinct_sides sides true = drawn-IsDistinct (λ b. has_side b (map cw_rotation sides))
distinct_sides sides false = drawn-IsDistinct (λ b. has_side b sides)

nominal_length :
    (req : Requirement) (sides : List EdgeSide)
    → sum_by (side_length req) sides ≡ sum_by (drawn_length req.width req.height) sides
nominal_length req [] = refl
nominal_length req (top ∷ sides) = omega (arith, nominal_length req sides)
nominal_length req (bottom ∷ sides) = omega (arith, nominal_length req sides)
nominal_length req (left ∷ sides) = omega (arith, nominal_length req sides)
nominal_length req (right ∷ sides) = omega (arith, nominal_length req sides)

-- a side of the turned piece is a side of the piece
turned_length :
    (width height : ℕ) (sides : List EdgeSide)
    → by_side height width (geometric_sides sides true) ≡ by_side width height sides
unfolding by_side cw_rotation
turned_length width height sides =
    let at : (s : EdgeSide)
        → has_side (cw_rotation s) (geometric_sides sides true) ≡ has_side s sides =
      placed_sides sides true in
    let t = ap (λ b. counted_if b width) (at top) in
    let b = ap (λ b. counted_if b width) (at bottom) in
    let l = ap (λ b. counted_if b height) (at left) in
    let r = ap (λ b. counted_if b height) (at right) in omega (arith, t, b, l, r)

kept_length :
    (width height : ℕ) (sides : List EdgeSide)
    → by_side width height (geometric_sides sides false) ≡ by_side width height sides
unfolding by_side
kept_length width height sides =
    let at : (s : EdgeSide) → has_side s (geometric_sides sides false) ≡ has_side s sides =
      placed_sides sides false in
    let t = ap (λ b. counted_if b width) (at top) in
    let b = ap (λ b. counted_if b width) (at bottom) in
    let l = ap (λ b. counted_if b height) (at left) in
    let r = ap (λ b. counted_if b height) (at right) in omega (arith, t, b, l, r)

drawn_sum :
    (req : Requirement) (sides : List EdgeSide) (rotated : Bool)
    → DistinctSides sides
    → sum_by
        (drawn_length
          (if rotated then req.height else req.width)
          (if rotated then req.width else req.height))
        (geometric_sides sides rotated)
      ≡ sum_by (side_length req) sides
drawn_sum req sides true h =
    sum-by_side req.height req.width (geometric_sides sides true) (distinct_sides sides true)
    ∙ turned_length req.width req.height sides
    ∙ sym (sum-by_side req.width req.height sides h)
    ∙ sym (nominal_length req sides)
drawn_sum req sides false h =
    sum-by_side req.width req.height (geometric_sides sides false) (distinct_sides sides false)
    ∙ kept_length req.width req.height sides
    ∙ sym (sum-by_side req.width req.height sides h)
    ∙ sym (nominal_length req sides)

-- Where no side is asked for twice: the drawn edges have no side twice; a side is among them, one
-- clockwise turn further where the piece is rotated, just when it was asked for; and on the piece as
-- it is drawn, with width and height swapped where it is rotated, their lengths add up to the
-- length that is billed for the piece.
pub geometric_edges-IsDrawn :
    (req : Requirement) (spec : EdgeBandingSpec) (eb_products : List Product) (rotated : Bool)
    → DistinctSides spec.sides
    → IsDrawn req spec rotated (geometric_edges spec eb_products rotated)
unfolding geometric_edges
geometric_edges-IsDrawn req spec eb_products rotated h = record {
  once = distinct_sides spec.sides rotated;
  clockwise = turned-quarter rotated;
  placed = placed_sides spec.sides rotated;
  same_length = drawn_sum req spec.sides rotated h;
}
