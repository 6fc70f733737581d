-- ===== src/Optimizations/Edges.antt =====
-- src/modules/optimizations/service.py: `_geometric_edges` and `_enrich_layout_pieces`, and
-- `edge_banding_notation` of src/modules/optimizations/labels.py. A set of sides is a list, in which the
-- validator of the request leaves no side twice.
pub mod Drawn
use opticutter.Prelude.{
  ℕ, Bool, true, false, ◌&&◌, ◌||◌, Option, none, some, List, [], ◌∷◌, ◌++◌, map, filter, length,
  ◌==◌, if◌then◌else◌,
}
use opticutter.Prelude.Text.{Text, codes, decimal, same_text}
use opticutter.Cutting.Models.{PlacedPiece}
use opticutter.Optimizations.Materials.{Product}
use opticutter.Optimizations.Pieces.{EdgeSide, top, bottom, left, right, EdgeBandingSpec}
use opticutter.Optimizations.Summary.{product_of}

abbrev pub same_side : EdgeSide → EdgeSide → Bool
same_side top top = true
same_side bottom bottom = true
same_side left left = true
same_side right right = true
same_side _ _ = false

-- side in sides
abbrev pub has_side : EdgeSide → List EdgeSide → Bool
has_side side [] = false
has_side side (s ∷ sides) = same_side s side || has_side side sides

-- `_CW_ROTATION`
unfoldable pub cw_rotation : EdgeSide → EdgeSide
cw_rotation top = right
cw_rotation right = bottom
cw_rotation bottom = left
cw_rotation left = top

unfoldable pub geometric_sides : List EdgeSide → Bool → List EdgeSide
geometric_sides nominal rotated =
    let sides = if rotated then map cw_rotation nominal else nominal in
    filter (λ s. has_side s sides) (top ∷ bottom ∷ left ∷ right ∷ [])

-- s in ("left", "right")
abbrev pub is_long : EdgeSide → Bool
is_long left = true
is_long right = true
is_long _ = false

-- s in ("top", "bottom")
abbrev pub is_short : EdgeSide → Bool
is_short top = true
is_short bottom = true
is_short _ = false

-- `_BAND_TYPE_ABBR.get(band_type)`
unfoldable pub band_type_abbr : Option Text → Option Text
band_type_abbr none = none
band_type_abbr (some t) =
    if same_text t (codes "Soft")
    then some (codes "CS")
    else (if same_text t (codes "Hard") then some (codes "CD") else none)

-- a count with its letter, unless it is zero
unfoldable pub counted : ℕ → Text → Text
counted n letter = if n == 0 then [] else decimal n ++ letter

unfoldable pub notation_parts : ℕ → ℕ → Text
unfolding counted
notation_parts long_count short_count =
    if long_count == 2 && short_count == 2
    then codes "4L"
    else counted long_count (codes "L") ++ counted short_count (codes "C")

unfoldable pub with_suffix : Text → Option Text → Text
with_suffix [] suffix = []
with_suffix parts none = parts
with_suffix parts (some suffix) = parts ++ codes " " ++ suffix

unfoldable pub edge_banding_notation : List EdgeSide → Option Text → Text
unfolding notation_parts with_suffix band_type_abbr
edge_banding_notation [] band_type = []
edge_banding_notation (s ∷ sides) band_type =
    with_suffix
      (notation_parts (length (filter is_long (s ∷ sides))) (length (filter is_short (s ∷ sides))))
      (band_type_abbr band_type)

pub record GeometricEdges : Type 0 where
  pub sides : List EdgeSide
  pub product_id : Option ℕ
  pub code : Option Text
  pub color : Option Text
  pub band_type : Option Text
  pub notation : Text

unfoldable pub geometric_edges : EdgeBandingSpec → List Product → Bool → GeometricEdges
unfolding geometric_sides edge_banding_notation
geometric_edges spec eb_products rotated =
    let product = product_of spec.product_id eb_products in
    let band_type : Option Text = elim product [ none ↦ none | some p ↦ p.attributes.band_type ] in
    record {
      sides = geometric_sides spec.sides rotated;
      product_id = spec.product_id;
      code = elim product [ none ↦ none | some p ↦ some p.code ];
      color = elim product [ none ↦ none | some p ↦ p.attributes.color ];
      band_type = band_type;
      notation = edge_banding_notation spec.sides band_type;
    }

-- edge_map.get(piece_id)
unfoldable pub find_spec : Text → List (Text × EdgeBandingSpec) → Option EdgeBandingSpec
find_spec id [] = none
find_spec id ((key, spec) ∷ rest) = if same_text key id then some spec else find_spec id rest

-- the placed pieces of a layout, each with its `edges` if it has any
unfoldable pub enrich_layout_pieces :
    List PlacedPiece
    → List (Text × EdgeBandingSpec)
    → List Product
    → List (PlacedPiece × Option GeometricEdges)
unfolding find_spec geometric_edges
enrich_layout_pieces [] edge_map eb_products = []
enrich_layout_pieces (placed ∷ rest) edge_map eb_products =
    (
      placed,
      elim (find_spec placed.piece.id edge_map) [
        | none ↦ none
        | some spec ↦ some (geometric_edges spec eb_products placed.rotated)
      ],
    )
    ∷ enrich_layout_pieces rest edge_map eb_products
