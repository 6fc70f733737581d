-- ===== src/Cutting/Guillotine/Expand.antt =====
-- The copies that `optimize` makes of each piece, one for each unit of its quantity.
use opticutter.Prelude.{
  ℕ, zero, suc, ◌≡◌, refl, ap, ◌∙◌, List, [], ◌∷◌, ◌++◌, length, length-append, sum_by, All,
  All-append, arith,
}
use opticutter.Cutting.Models.{Piece}
use opticutter.Cutting.Guillotine.{instance_id, expand_copies, expand}

abbrev pub IsUnit : Piece → Type 0
IsUnit p = p.quantity ≡ 1

expand_copies-IsUnit : (p : Piece) (i n : ℕ) → All IsUnit (expand_copies p i n)
unfolding expand_copies
expand_copies-IsUnit p i zero = tt
expand_copies-IsUnit p i (suc n) = (refl, expand_copies-IsUnit p (suc i) n)

pub expand-IsUnit : (pieces : List Piece) → All IsUnit (expand pieces)
unfolding expand
expand-IsUnit [] = tt
expand-IsUnit (p ∷ ps) =
    All-append IsUnit (expand_copies p 0 p.quantity) (expand ps)
      (expand_copies-IsUnit p 0 p.quantity) (expand-IsUnit ps)

length-expand_copies : (p : Piece) (i n : ℕ) → length (expand_copies p i n) ≡ n
unfolding expand_copies
length-expand_copies p i zero = refl
length-expand_copies p i (suc n) = ap suc (length-expand_copies p (suc i) n)

-- As many copies as the quantities add up to.
pub length-expand : (pieces : List Piece) → length (expand pieces) ≡ sum_by (λ p. p.quantity) pieces
unfolding expand
length-expand [] = refl
length-expand (p ∷ ps) = omega (
  arith,
  length-append {0} (expand_copies p 0 p.quantity) (expand ps),
  length-expand_copies p 0 p.quantity,
  length-expand ps,
)

copy_unit : (p : Piece) → IsUnit p → record p { id = instance_id p 0; quantity = 1 } ≡ p
unfolding instance_id
copy_unit p h = ground arith

copies_of_unit : (p : Piece) → IsUnit p → expand_copies p 0 p.quantity ≡ p ∷ []
unfolding expand_copies
copies_of_unit p h = ap (expand_copies p 0) h ∙ ap (λ q. q ∷ []) (copy_unit p h)

-- Copies are not copied again: a second call gets the same pieces.
pub expand-unit : (pieces : List Piece) → All IsUnit pieces → expand pieces ≡ pieces
unfolding expand
expand-unit [] h = refl
expand-unit (p ∷ ps) h =
    ap (λ l. l ++ expand ps) (copies_of_unit p h.0) ∙ ap (λ l. p ∷ l) (expand-unit ps h.1)

-- What holds of a piece whatever its name and quantity holds of its copies.
pub All-expand {ℓ} :
    (P : Piece → Type ℓ)
    → ((p : Piece) (i : ℕ) → P p → P (record p { id = instance_id p i; quantity = 1 }))
    → (pieces : List Piece) → All P pieces
    → All P (expand pieces)
unfolding expand
All-expand P keep [] h = tt
All-expand P keep (p ∷ ps) h =
    All-append P (expand_copies p 0 p.quantity) (expand ps) (copies 0 p.quantity)
      (All-expand P keep ps h.1)
  where
    copies : (i n : ℕ) → All P (expand_copies p i n)
    copies i zero = tt
    copies i (suc n) = (keep p i h.0, copies (suc i) n)
