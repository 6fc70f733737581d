-- ===== src/Prelude/Text.antt =====
-- Python text as a list of code points, and the decimal digits that `f"{n}"` writes.
use Prim.Native.Char.{code}
use Prim.Native.String.{String}
use opticutter.Prelude.{
  ℕ, zero, suc, ◌+◌, ◌/◌, ◌%◌, ◌≡◌, refl, Bool, true, false, ◌&&◌, List, [], ◌∷◌, ◌==◌,
  if◌then◌else◌, arith,
}

abbrev pub Text : Type 0
Text = List ℕ

-- the code points of a literal
abbrev pub codes : String → Text
codes String.[] = []
codes (String.◌∷◌ c s) = code c ∷ codes s

-- `n + 1` rounds are enough for `n`, since each divides it by ten.
unfoldable pub digits_loop : ℕ → ℕ → Text → Text
digits_loop zero n out = out
digits_loop (suc fuel) n out =
    let digit = 48 + n % 10 in
    let rest = digits_loop fuel (n / 10) (digit ∷ out) in if n / 10 == 0 then digit ∷ out else rest

unfoldable pub decimal : ℕ → Text
unfolding digits_loop
decimal n = digits_loop (suc n) n []

abbrev pub same_text : Text → Text → Bool
same_text [] [] = true
same_text (c ∷ cs) (d ∷ ds) = c == d && same_text cs ds
same_text _ _ = false

pub same_text_refl : (s : Text) → same_text s s ≡ true
same_text_refl [] = refl
same_text_refl (c ∷ cs) = ground (arith, same_text_refl cs)

pub same_text_eq : (s t : Text) → same_text s t ≡ true → s ≡ t
same_text_eq [] [] h = refl
same_text_eq [] (d ∷ ds) h = absurd (ground (arith, h))
same_text_eq (c ∷ cs) [] h = absurd (ground (arith, h))
same_text_eq (c ∷ cs) (d ∷ ds) h = ground (arith, h, same_text_eq cs ds)

pub same_text_comm : (s t : Text) → same_text s t ≡ same_text t s
same_text_comm [] [] = refl
same_text_comm [] (d ∷ ds) = refl
same_text_comm (c ∷ cs) [] = refl
same_text_comm (c ∷ cs) (d ∷ ds) = ground (arith, same_text_comm cs ds)
