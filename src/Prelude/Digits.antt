-- ===== src/Prelude/Digits.antt =====
-- The decimal digits of a number determine it.
use opticutter.Prelude.{
  ℕ, zero, suc, ◌+◌, ◌-◌, ◌*◌, ◌/◌, ◌%◌, ◌<◌, ◌≡◌, sym, ap, ◌∙◌, inl, inr, [], ◌∷◌, ◌==◌,
  Bool-cases, arith,
}
use opticutter.Prelude.Text.{Text, digits_loop, decimal}

-- the number that `acc` and the digits after it stand for
value_from : ℕ → Text → ℕ
value_from acc [] = acc
value_from acc (c ∷ cs) = value_from (acc * 10 + (c - 48)) cs

value_from-digits_loop :
    (fuel n : ℕ) (out : Text) → n < fuel → value_from 0 (digits_loop fuel n out) ≡ value_from n out
unfolding digits_loop value_from
value_from-digits_loop zero n out h = absurd (omega (arith, h))
value_from-digits_loop (suc fuel) n out h =
    let digit = 48 + n % 10 in
    let whole : (n / 10) * 10 + (digit - 48) ≡ n = omega arith in
    elim (Bool-cases (n / 10 == 0)) [
      | inl e ↦
          let last : 0 * 10 + (digit - 48) ≡ n = ground (arith, e) in
          rw e (ap (λ m. value_from m out) last)
      | inr e ↦ rw e (
          value_from-digits_loop fuel (n / 10) (digit ∷ out) (ground (arith, e))
          ∙ ap (λ m. value_from m out) whole)
    ]

value-decimal : (n : ℕ) → value_from 0 (decimal n) ≡ n
unfolding decimal value_from
value-decimal n = value_from-digits_loop (suc n) n [] (omega arith)

pub decimal_injective : (m n : ℕ) → decimal m ≡ decimal n → m ≡ n
decimal_injective m n e = sym (value-decimal m) ∙ ap (value_from 0) e ∙ value-decimal n
