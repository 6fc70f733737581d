-- ===== src/Cutting/Guillotine/Geometry.antt =====
-- Where rectangles lie: the vocabulary in which the theorems on src/cutting/optimizer.py are stated.
use opticutter.Prelude.{ℕ, ◌+◌, ◌≤◌, ◌⊎◌, arith}
use opticutter.Cutting.Models.{Rectangle, PlacedPiece}

-- `a` lies in `b`.
abbrev pub Inside : Rectangle → Rectangle → Type 0
Inside b a =
    (b.x ≤ a.x) × (b.y ≤ a.y) × (a.x + a.width ≤ b.x + b.width) × (a.y + a.height ≤ b.y + b.height)

-- A saw blade of width `k` passes between `a` and `b`; they do not overlap.
abbrev pub Separated : ℕ → Rectangle → Rectangle → Type 0
Separated k a b =
    (a.x + a.width + k ≤ b.x)
    ⊎ ((b.x + b.width + k ≤ a.x) ⊎ ((a.y + a.height + k ≤ b.y) ⊎ (b.y + b.height + k ≤ a.y)))

abbrev pub frame : PlacedPiece → Rectangle
frame p = record { x = p.x; y = p.y; width = p.width; height = p.height }

pub Separated-sym : (k : ℕ) (a b : Rectangle) → Separated k a b → Separated k b a
Separated-sym k a b h = omega arith

pub Separated-Inside : (k : ℕ) (a b c : Rectangle) → Inside b c → Separated k a b → Separated k a c
Separated-Inside k a b c h s = omega arith

pub Inside-trans : (a b c : Rectangle) → Inside a b → Inside b c → Inside a c
Inside-trans a b c h s = omega arith
