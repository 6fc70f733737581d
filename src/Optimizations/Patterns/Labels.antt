-- ===== src/Optimizations/Patterns/Labels.antt =====
-- A base label is what an instance was made from.
use opticutter.Prelude.{
  ℕ, zero, suc, ◌+◌, ◌/◌, ◌%◌, ◌≡◌, refl, ap, inl, inr, Bool, true, false, none, some, [], ◌∷◌,
  ◌++◌, ltb, ◌==◌, Bool-cases, if◌then◌else◌, arith,
}
use opticutter.Prelude.Text.{Text, digits_loop, decimal}
use opticutter.Cutting.Models.{Piece}
use opticutter.Cutting.Guillotine.{instance_id}
use opticutter.Optimizations.Patterns.{number_end, base_label}

-- what is relied on of `\d`
pub record IsDigits (is_digit : ℕ → Bool) : Type 0 where
  pub digits : (d : ℕ) → is_digit (48 + d % 10) ≡ true
  pub hash : is_digit b'#' ≡ false

module _ (is_digit : ℕ → Bool) (known : IsDigits is_digit) where
  number_end-hash : (seen : Bool) (cs ds : Text) → number_end is_digit seen (cs ++ b'#' ∷ ds) ≡ none
  unfolding number_end
  number_end-hash seen [] ds = ground (arith, known.hash)
  number_end-hash seen (c ∷ []) ds = ground (arith, number_end-hash true [] ds)
  number_end-hash seen (c ∷ d ∷ cs) ds = ground (arith, number_end-hash true (d ∷ cs) ds)

  number_end-digits_loop :
      (fuel n d : ℕ) (out : Text)
      → number_end is_digit true out ≡ some []
      → number_end is_digit false (digits_loop fuel n ((48 + d % 10) ∷ out)) ≡ some []
  unfolding number_end digits_loop
  number_end-digits_loop zero n d out h = ground (arith, known.digits d)
  number_end-digits_loop (suc fuel) n d out h =
      let more : number_end is_digit true ((48 + d % 10) ∷ out) ≡ some [] =
        ground (arith, known.digits d) in
      elim (Bool-cases (n / 10 == 0)) [
        | inl e ↦ rw e (ground (arith, known.digits n, more))
        | inr e ↦ rw e (number_end-digits_loop fuel (n / 10) n ((48 + d % 10) ∷ out) more)
      ]

  number_end-decimal : (n : ℕ) → number_end is_digit false (decimal n) ≡ some []
  unfolding decimal digits_loop number_end
  number_end-decimal n = elim (Bool-cases (n / 10 == 0)) [
    | inl e ↦ rw e (ground (arith, known.digits n))
    | inr e ↦ rw e (number_end-digits_loop n (n / 10) n [] refl)
  ]

  pub base_label-suffix :
      (label : Text) (n : ℕ) → base_label is_digit (label ++ b'#' ∷ decimal n) ≡ label
  unfolding base_label
  base_label-suffix [] n = rw (number_end-decimal n, base_label) refl
  base_label-suffix (c ∷ cs) n =
      let later = ap (λ x. c ∷ x) (base_label-suffix cs n) in
      ground (arith, number_end-hash false cs (decimal n), later)

  -- The base label of an instance of a piece, whatever its label is, is the piece's label where there
  -- is more than one instance, and the label without a suffix of its own where there is one.
  pub base_label-instance_id :
      (piece : Piece) (i : ℕ)
      → base_label is_digit (instance_id piece i)
        ≡ (if ltb 1 piece.quantity then piece.id else base_label is_digit piece.id)
  unfolding instance_id
  base_label-instance_id piece i = elim (Bool-cases (ltb 1 piece.quantity)) [
    | inl e ↦ rw e (base_label-suffix piece.id (i + 1))
    | inr e ↦ rw e refl
  ]
