-- ===== src/Prelude/Lists.antt =====
-- Lists measured by native numbers, predicates by recursion, and sums.
use Prim.Native.Nat.{ℕ, zero, suc, ◌+◌, ◌≤◌}
use mathlib.Core.Path.{◌≡◌, refl, ap, subst, ◌∙◌}
use mathlib.Core.Bool.{Bool, ◌&&◌}
use mathlib.Core.Logic.{◌⊎◌, ∥∥₁_elim, inl, inr}
use mathlib.Core.Option.{Option, none, some, some-injective}
use mathlib.Core.List.{List, [], ◌∷◌, ◌++◌, map, Perm, Permᴰ}
use native.Mathlib.Nat.{ℕ_set}
use native.Mathlib.Omega.{arith}
use opticutter.Prelude.Tests.{if◌then◌else◌, Bool-cases}

module _ {ℓ} {A : Type ℓ} where
  abbrev pub length : List A → ℕ
  length [] = 0
  length (x ∷ xs) = suc (length xs)

  abbrev pub get_elem? : List A → ℕ → Option A
  get_elem? [] i = none
  get_elem? (x ∷ xs) zero = some x
  get_elem? (x ∷ xs) (suc i) = get_elem? xs i

  -- `xs.pop(i)`, the element dropped
  abbrev pub remove_at : List A → ℕ → List A
  remove_at [] i = []
  remove_at (x ∷ xs) zero = xs
  remove_at (x ∷ xs) (suc i) = x ∷ remove_at xs i

  -- `[x for x in xs if p(x)]`
  abbrev pub filter : (A → Bool) → List A → List A
  filter p [] = []
  filter p (x ∷ xs) = let rest = filter p xs in if p x then x ∷ rest else rest

  -- `xs[:n]` and `xs[n:]`
  abbrev pub take : ℕ → List A → List A
  take zero xs = []
  take (suc n) [] = []
  take (suc n) (x ∷ xs) = x ∷ take n xs

  abbrev pub drop : ℕ → List A → List A
  drop zero xs = xs
  drop (suc n) [] = []
  drop (suc n) (x ∷ xs) = drop n xs

  abbrev pub sum_by : (A → ℕ) → List A → ℕ
  sum_by f [] = 0
  sum_by f (x ∷ xs) = f x + sum_by f xs

  pub length-append : (xs ys : List A) → length (xs ++ ys) ≡ length xs + length ys
  length-append [] ys = omega arith
  length-append (x ∷ xs) ys = omega (arith, length-append xs ys)

  pub sum_by-append : (f : A → ℕ) (xs ys : List A) → sum_by f (xs ++ ys) ≡ sum_by f xs + sum_by f ys
  sum_by-append f [] ys = omega arith
  sum_by-append f (x ∷ xs) ys = omega (arith, sum_by-append f xs ys)

  pub filter-append :
      (p : A → Bool) (xs ys : List A) → filter p (xs ++ ys) ≡ filter p xs ++ filter p ys
  filter-append p [] ys = refl
  filter-append p (x ∷ xs) ys = elim (Bool-cases (p x)) [
    | inl e ↦ rw e (ap (λ r. x ∷ r) (filter-append p xs ys))
    | inr e ↦ rw e (filter-append p xs ys)
  ]

  pub filter-filter :
      (p q : A → Bool) (xs : List A) → filter q (filter p xs) ≡ filter (λ x. p x && q x) xs
  filter-filter p q [] = refl
  filter-filter p q (x ∷ xs) = elim (Bool-cases (p x)) [
    | inl e ↦ rw e (elim (Bool-cases (q x)) [
      | inl f ↦ rw f (ap (λ r. x ∷ r) (filter-filter p q xs))
      | inr f ↦ rw f (filter-filter p q xs)
    ])
    | inr e ↦ rw e (filter-filter p q xs)
  ]

  pub List-cases : (xs : List A) → (xs ≡ []) ⊎ ((x : A) × (rest : List A) × (xs ≡ x ∷ rest))
  List-cases [] = inl refl
  List-cases (x ∷ xs) = inr (x, xs, refl)

  pub sum_by-remove_at :
      (f : A → ℕ) (xs : List A) (i : ℕ) {x : A}
      → get_elem? xs i ≡ some x
      → sum_by f xs ≡ f x + sum_by f (remove_at xs i)
  sum_by-remove_at f [] i h = ground arith
  sum_by-remove_at f (y ∷ xs) zero h = ground arith
  sum_by-remove_at f (y ∷ xs) (suc i) h = omega (arith, sum_by-remove_at f xs i h)

  pub sum_by-filter :
      (f : A → ℕ) (p : A → Bool) (xs : List A) → sum_by f (filter p xs) ≤ sum_by f xs
  sum_by-filter f p [] = omega arith
  sum_by-filter f p (x ∷ xs) = ground (arith, sum_by-filter f p xs)

  Permᴰ-length : {xs ys : List A} → Permᴰ xs ys → length xs ≡ length ys
  Permᴰ-length (Permᴰ.trans first second) = Permᴰ-length first ∙ Permᴰ-length second
  Permᴰ-length (Permᴰ.swap e f) = refl
  Permᴰ-length (Permᴰ.cons e tail) = omega (arith, Permᴰ-length tail)
  Permᴰ-length Permᴰ.nil = refl

  pub length-perm : {xs ys : List A} → Perm xs ys → length xs ≡ length ys
  length-perm p = ∥∥₁_elim p (ℕ_set _ _) Permᴰ-length

pub length-map {ℓ κ} :
    {A : Type ℓ} {B : Type κ} (f : A → B) (xs : List A) → length (map f xs) ≡ length xs
length-map f [] = refl
length-map f (x ∷ xs) = ap suc (length-map f xs)

module _ {ℓ κ} {A : Type ℓ} (P : A → Type κ) where
  abbrev pub All : List A → Type κ
  All [] = Unit
  All (x ∷ xs) = P x × All xs

  pub All-append : (xs ys : List A) → All xs → All ys → All (xs ++ ys)
  All-append [] ys hx hy = hy
  All-append (x ∷ xs) ys hx hy = (hx.0, All-append xs ys hx.1 hy)

  pub All-get : (xs : List A) (i : ℕ) {x : A} → get_elem? xs i ≡ some x → All xs → P x
  All-get [] i e h = absurd (ground arith)
  All-get (y ∷ xs) zero e h = subst P (some-injective _ _ e) h.0
  All-get (y ∷ xs) (suc i) e h = All-get xs i e h.1

  pub All-remove_at : (xs : List A) (i : ℕ) → All xs → All (remove_at xs i)
  All-remove_at [] i h = h
  All-remove_at (x ∷ xs) zero h = h.1
  All-remove_at (x ∷ xs) (suc i) h = (h.0, All-remove_at xs i h.1)

  pub All-filter : (p : A → Bool) (xs : List A) → All xs → All (filter p xs)
  All-filter p [] h = h
  All-filter p (x ∷ xs) h = elim (Bool-cases (p x)) [
    | inl e ↦ rw e (h.0, All-filter p xs h.1)
    | inr e ↦ rw e (All-filter p xs h.1)
  ]

module _ {ℓ κ} {A : Type ℓ} {P Q : A → Type κ} where
  pub All-map : (f : (a : A) → P a → Q a) (xs : List A) → All P xs → All Q xs
  All-map f [] h = h
  All-map f (x ∷ xs) h = (f x h.0, All-map f xs h.1)

-- A relation between any two entries, the earlier one first.
module _ {ℓ κ} {A : Type ℓ} (R : A → A → Type κ) where
  abbrev pub AllPairs : List A → Type κ
  AllPairs [] = Unit
  AllPairs (x ∷ xs) = All (R x) xs × AllPairs xs

  pub AllPairs-remove_at : (xs : List A) (i : ℕ) → AllPairs xs → AllPairs (remove_at xs i)
  AllPairs-remove_at [] i h = h
  AllPairs-remove_at (x ∷ xs) zero h = h.1
  AllPairs-remove_at (x ∷ xs) (suc i) h =
      (All-remove_at (R x) xs i h.0, AllPairs-remove_at xs i h.1)

  pub AllPairs-filter : (p : A → Bool) (xs : List A) → AllPairs xs → AllPairs (filter p xs)
  AllPairs-filter p [] h = h
  AllPairs-filter p (x ∷ xs) h = elim (Bool-cases (p x)) [
    | inl e ↦ rw e (All-filter (R x) p xs h.0, AllPairs-filter p xs h.1)
    | inr e ↦ rw e (AllPairs-filter p xs h.1)
  ]

  -- every entry of the first list against every entry of the second
  abbrev pub Across : List A → List A → Type κ
  Across xs ys = All (λ x. All (R x) ys) xs

  pub AllPairs-append :
      (xs ys : List A) → AllPairs xs → AllPairs ys → Across xs ys → AllPairs (xs ++ ys)
  AllPairs-append [] ys hx hy c = hy
  AllPairs-append (x ∷ xs) ys hx hy c =
      (All-append (R x) xs ys hx.0 c.0, AllPairs-append xs ys hx.1 hy c.1)

  -- what is taken out of the list is related to all that is left
  pub AllPairs-get :
      (R_sym : (a b : A) → R a b → R b a) (xs : List A) (i : ℕ) {x : A}
      → get_elem? xs i ≡ some x
      → AllPairs xs
      → All (R x) (remove_at xs i)
  AllPairs-get R_sym [] i e h = absurd (ground arith)
  AllPairs-get R_sym (y ∷ xs) zero e h = subst (λ z. All (R z) xs) (some-injective _ _ e) h.0
  AllPairs-get R_sym (y ∷ xs) (suc i) {x} e h =
      (R_sym y x (All-get (R y) xs i e h.0), AllPairs-get R_sym xs i e h.1)

-- A predicate with at most one proof holds of the entries in any order.
module _ {ℓ κ} {A : Type ℓ} (P : A → Type κ) (P_prop : (a : A) → IsProp (P a)) where
  All-prop : (xs : List A) → IsProp (All P xs)
  All-prop [] = hlevel
  All-prop (x ∷ xs) = hlevel (P_prop, All-prop xs)

  All-permᴰ : {xs ys : List A} → Permᴰ xs ys → All P xs → All P ys
  All-permᴰ Permᴰ.nil h = h
  All-permᴰ (Permᴰ.cons e p) h = (subst P e h.0, All-permᴰ p h.1)
  All-permᴰ (Permᴰ.swap e f) h = (subst P f h.1.0, (subst P e h.0, h.1.1))
  All-permᴰ (Permᴰ.trans p q) h = All-permᴰ q (All-permᴰ p h)

  pub All-perm : {xs ys : List A} → Perm xs ys → All P xs → All P ys
  All-perm {ys} p h = ∥∥₁_elim p (All-prop ys) (λ q. All-permᴰ q h)

module _ {ℓ κ} {A : Type ℓ} (P : A → Type κ) where
  pub All-append_right : (xs ys : List A) → All P (xs ++ ys) → All P ys
  All-append_right [] ys h = h
  All-append_right (x ∷ xs) ys h = All-append_right xs ys h.1
