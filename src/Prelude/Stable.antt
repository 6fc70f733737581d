-- ===== src/Prelude/Stable.antt =====
-- Python's `sorted` and `list.sort`: a stable sort, from the test `before a b` that the key of `a`
-- is less than the key of `b`.
use mathlib.Core.List.{Perm}
use mathlib.Core.List.Perm
use Prim.Native.Nat.{ℕ, ◌+◌}
use mathlib.Core.Path.{◌≡◌, refl, ◌∙◌}
use mathlib.Core.Logic.{inl, inr}
use mathlib.Core.Bool.{Bool, true, false}
use mathlib.Core.List.{List, [], ◌∷◌}
use native.Mathlib.Omega.{arith}
use opticutter.Prelude.Tests.{if◌then◌else◌, Bool-cases}
use opticutter.Prelude.Lists.{All, AllPairs, sum_by, filter}

module _ {ℓ} {A : Type ℓ} (before : A → A → Bool) where
  -- `x` came before all of the list, so it stays in front of equal keys
  insert_by : A → List A → List A
  insert_by x [] = x ∷ []
  insert_by x (y ∷ ys) = let rest = y ∷ insert_by x ys in if before y x then rest else x ∷ y ∷ ys

  unfoldable pub sort_by : List A → List A
  unfolding insert_by
  sort_by [] = []
  sort_by (x ∷ xs) = insert_by x (sort_by xs)

  insert_by-perm : (x : A) (ys : List A) → Perm (insert_by x ys) (x ∷ ys)
  unfolding insert_by
  insert_by-perm x [] = Perm.rfl
  insert_by-perm x (y ∷ ys) = elim (Bool-cases (before y x)) [
    | inl e ↦ rw e (Perm.trans (Perm.cons y (insert_by-perm x ys)) (Perm.swap x y ys))
    | inr e ↦ rw e Perm.rfl
  ]

  pub sort_by-perm : (xs : List A) → Perm (sort_by xs) xs
  unfolding sort_by
  sort_by-perm [] = Perm.rfl
  sort_by-perm (x ∷ xs) = Perm.trans (insert_by-perm x (sort_by xs)) (Perm.cons x (sort_by-perm xs))

  sum_by-insert_by :
      (f : A → ℕ) (x : A) (ys : List A) → sum_by f (insert_by x ys) ≡ f x + sum_by f ys
  unfolding insert_by
  sum_by-insert_by f x [] = refl
  sum_by-insert_by f x (y ∷ ys) = ground (arith, sum_by-insert_by f x ys)

  pub sum_by-sort_by : (f : A → ℕ) (xs : List A) → sum_by f (sort_by xs) ≡ sum_by f xs
  unfolding sort_by
  sum_by-sort_by f [] = refl
  sum_by-sort_by f (x ∷ xs) = omega (arith, sum_by-insert_by f x (sort_by xs), sum_by-sort_by f xs)

module _ {ℓ κ} {A : Type ℓ} (before : A → A → Bool) (P : A → Type κ) where
  All-insert_by : (x : A) (ys : List A) → P x → All P ys → All P (insert_by before x ys)
  unfolding insert_by
  All-insert_by x [] hx h = (hx, h)
  All-insert_by x (y ∷ ys) hx h = elim (Bool-cases (before y x)) [
    | inl e ↦ rw e (h.0, All-insert_by x ys hx h.1)
    | inr e ↦ rw e (hx, h)
  ]

  pub All-sort_by : (xs : List A) → All P xs → All P (sort_by before xs)
  unfolding sort_by
  All-sort_by [] h = h
  All-sort_by (x ∷ xs) h = All-insert_by x (sort_by before xs) h.0 (All-sort_by xs h.1)

module _ {ℓ κ} {A : Type ℓ} (before : A → A → Bool) (R : A → A → Type κ)
    (R_sym : (a b : A) → R a b → R b a) where
  AllPairs-insert_by :
      (x : A) (ys : List A) → All (R x) ys → AllPairs R ys → AllPairs R (insert_by before x ys)
  unfolding insert_by
  AllPairs-insert_by x [] hx h = (hx, h)
  AllPairs-insert_by x (y ∷ ys) hx h = elim (Bool-cases (before y x)) [
    | inl e ↦
        rw e
          (All-insert_by before (R y) x ys (R_sym x y hx.0) h.0, AllPairs-insert_by x ys hx.1 h.1)
    | inr e ↦ rw e (hx, h)
  ]

  pub AllPairs-sort_by : (xs : List A) → AllPairs R xs → AllPairs R (sort_by before xs)
  unfolding sort_by
  AllPairs-sort_by [] h = h
  AllPairs-sort_by (x ∷ xs) h =
      AllPairs-insert_by x (sort_by before xs) (All-sort_by before (R x) xs h.0)
        (AllPairs-sort_by xs h.1)

-- What makes `before` the strict part of an order on keys.
pub record IsKeyOrder {ℓ} {A : Type ℓ} (before : A → A → Bool) : Type ℓ where
  pub asym : (a b : A) → before a b ≡ true → before b a ≡ false
  pub trans : (a b c : A) → before b a ≡ false → before c b ≡ false → before c a ≡ false

abbrev pub NotAfter {ℓ} : {A : Type ℓ} → (A → A → Bool) → A → A → Type 0
NotAfter before a b = before b a ≡ false

module _ {ℓ} {A : Type ℓ} (before : A → A → Bool) (order : IsKeyOrder before) where
  below-All :
      (x y : A) (ys : List A)
      → before y x ≡ false
      → All (NotAfter before y) ys
      → All (NotAfter before x) ys
  below-All x y [] e h = h
  below-All x y (z ∷ ys) e h = (order.trans x y z e h.0, below-All x y ys e h.1)

  insert_by-ordered :
      (x : A) (ys : List A)
      → AllPairs (NotAfter before) ys
      → AllPairs (NotAfter before) (insert_by before x ys)
  unfolding insert_by
  insert_by-ordered x [] h = (tt, tt)
  insert_by-ordered x (y ∷ ys) h = elim (Bool-cases (before y x)) [
    | inl e ↦ rw e (
      All-insert_by before (NotAfter before y) x ys (order.asym y x e) h.0,
      insert_by-ordered x ys h.1,
    )
    | inr e ↦ rw e ((e, below-All x y ys e h.0), h)
  ]

  pub sort_by-ordered : (xs : List A) → AllPairs (NotAfter before) (sort_by before xs)
  unfolding sort_by
  sort_by-ordered [] = tt
  sort_by-ordered (x ∷ xs) = insert_by-ordered x (sort_by before xs) (sort_by-ordered xs)

-- Elements among which no key is less than another keep their order.
module _ {ℓ} {A : Type ℓ} (before : A → A → Bool) (p : A → Bool)
    (tied : (a b : A) → p a ≡ true → p b ≡ true → before a b ≡ false) where
  filter-insert_by : (x : A) (ys : List A) → filter p (insert_by before x ys) ≡ filter p (x ∷ ys)
  unfolding insert_by
  filter-insert_by x [] = refl
  filter-insert_by x (y ∷ ys) = ground (arith, filter-insert_by x ys, tied y x)

  pub filter-sort_by : (xs : List A) → filter p (sort_by before xs) ≡ filter p xs
  unfolding sort_by
  filter-sort_by [] = refl
  filter-sort_by (x ∷ xs) =
      filter-insert_by x (sort_by before xs) ∙ ground (arith, filter-sort_by xs)
