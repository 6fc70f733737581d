-- ===== src/Optimizations/EdgeTests.antt =====
-- A piece banded on three sides, drawn rotated, with its notation.
use opticutter.Prelude.{◌≡◌, refl, true, none, some, [], ◌∷◌}
use opticutter.Prelude.Text.{codes, digits_loop, decimal}
use opticutter.Optimizations.Pieces.{top, bottom, left, right, EdgeBandingSpec, Requirement}
use opticutter.Optimizations.Edges.{
  cw_rotation, geometric_sides, counted, notation_parts, with_suffix, band_type_abbr,
  edge_banding_notation, geometric_edges,
}
use opticutter.Optimizations.Edges.Drawn.{IsDrawn, geometric_edges-IsDrawn}

abbrev spec : EdgeBandingSpec
spec = record { sides = left ∷ right ∷ top ∷ []; product_id = none }

abbrev banded : Requirement
banded = record {
  priority = 0;
  height = 30;
  width = 40;
  quantity = 2;
  material_key = codes "b1";
  label = some (codes "A");
  can_rotate = true;
  edge_banding = some spec;
}

geometric_edges-IsDrawn_example : IsDrawn banded spec true (geometric_edges spec [] true)
geometric_edges-IsDrawn_example =
    geometric_edges-IsDrawn banded spec [] true ((refl, (refl, tt)), ((refl, tt), (tt, tt)))

rotated_sides : geometric_sides spec.sides true ≡ top ∷ bottom ∷ right ∷ []
unfolding geometric_sides cw_rotation
rotated_sides = refl

notation_runs : edge_banding_notation spec.sides (some (codes "Soft")) ≡ codes "2L1C CS"
unfolding edge_banding_notation notation_parts counted with_suffix band_type_abbr decimal
    digits_loop
notation_runs = refl
