-- ===== src/Optimizations/Pieces.antt =====
-- src/modules/optimizations/service.py: `_build_pieces`, on the requirements of schemas.py. The two
-- nested loops are one over their rounds. A dictionary is the list of its assignments, the last one
-- of a key first.
pub mod Unique
use opticutter.Prelude.{
  ℕ, zero, suc, ◌+◌, Bool, true, false, Option, none, some, List, [], ◌∷◌, ◌++◌, map, sum_by, ltb,
  if◌then◌else◌, Result, ok, err, validation_error, pos,
}
use opticutter.Prelude.Text.{Text, codes, decimal, same_text}
use opticutter.Cutting.Models.{Piece, make_piece}

pub data EdgeSide : Type 0 where
  top bottom left right : EdgeSide

-- The validator leaves no side twice.
pub record EdgeBandingSpec : Type 0 where
  pub sides : List EdgeSide
  pub product_id : Option ℕ

pub record Requirement : Type 0 where
  pub priority : ℕ
  pub height : ℕ
  pub width : ℕ
  pub quantity : ℕ
  pub material_key : Text
  pub label : Option Text
  pub can_rotate : Bool
  pub edge_banding : Option EdgeBandingSpec

-- p.label or f"piece_{i+1}"
unfoldable pub base_of : ℕ → Requirement → Text
unfolding decimal
base_of i p = elim p.label [
  | none ↦ codes "piece_" ++ decimal (i + 1)
  | some [] ↦ codes "piece_" ++ decimal (i + 1)
  | some (c ∷ cs) ↦ c ∷ cs
]

-- enumerate(reqs), with the base labels
unfoldable pub based : ℕ → List Requirement → List (Text × Requirement)
unfolding base_of
based i [] = []
based i (p ∷ ps) = (base_of i p, p) ∷ based (suc i) ps

-- totals[label]
unfoldable pub total_of : Text → List (Text × Requirement) → ℕ
total_of label rows = sum_by (λ r. if same_text r.0 label then r.1.quantity else 0) rows

abbrev pub repeated : ℕ → Text × Requirement → List (Text × Requirement)
repeated zero r = []
repeated (suc n) r = r ∷ repeated n r

-- the rounds of both loops
unfoldable pub rounds : List (Text × Requirement) → List (Text × Requirement)
rounds [] = []
rounds (r ∷ rs) = repeated r.1.quantity r ++ rounds rs

-- seen[label], where `seen` has the labels of the rounds before
unfoldable pub count_of : Text → List Text → ℕ
count_of label seen = sum_by (λ s. if same_text s label then 1 else 0) seen

unfoldable pub uid_of : ℕ → Text → ℕ → Text
unfolding decimal
uid_of total label nth = if ltb 1 total then label ++ b'#' ∷ decimal nth else label

abbrev pub side_length : Requirement → EdgeSide → ℕ
side_length p top = p.width
side_length p bottom = p.width
side_length p left = p.height
side_length p right = p.height

pub record Built : Type 0 where
  pub pieces : List Piece
  pub edge_map : List (Text × EdgeBandingSpec)
  pub net_map : List (Text × ℕ)

-- what one round adds in front of what the later ones do
unfoldable pub add_piece : Requirement → Piece → Built → Built
add_piece p piece later = elim p.edge_banding [
  | none ↦ record later { pieces = piece ∷ later.pieces }
  | some spec ↦ record {
    pieces = piece ∷ later.pieces;
    edge_map = later.edge_map ++ (piece.id, spec) ∷ [];
    net_map = later.net_map ++ (piece.id, sum_by (side_length p) spec.sides) ∷ [];
  }
]

unfoldable pub build_round : (Text → ℕ) → List Text → List (Text × Requirement) → Result Built
build_round totals seen [] = ok (record { pieces = []; edge_map = []; net_map = [] })
build_round totals seen ((label, p) ∷ rest) =
    elim (make_piece (uid_of (totals label) label (count_of label seen + 1)) (pos p.width)
      (pos p.height) (pos 1) p.can_rotate p.priority) [
        | err e ↦ err validation_error
        | ok piece ↦ elim (build_round totals (label ∷ seen) rest) [
          | err e ↦ err e
          | ok later ↦ ok (add_piece p piece later)
        ]
      ]

unfoldable pub build_pieces : List Requirement → Result Built
unfolding based total_of rounds build_round
build_pieces reqs =
    let rows = based 0 reqs in build_round (λ label. total_of label rows) [] (rounds rows)
