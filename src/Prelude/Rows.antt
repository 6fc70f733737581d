-- ===== src/Prelude/Rows.antt =====
-- A query that loads one row of a table, and the commit of what a call has made of it.
use mathlib.Core.Path.{◌≡◌, refl, ap}
use mathlib.Core.Logic.{◌⊎◌, inl, inr}
use mathlib.Core.Bool.{Bool, true, false}
use mathlib.Core.List.{List, [], ◌∷◌, ◌++◌}
use opticutter.Prelude.Tests.{if◌then◌else◌, Bool-cases}
use opticutter.Prelude.Lists.{All}

module _ {ℓ κ} {A : Type ℓ} {Answer : Type κ} where
  -- the first row of the query, or the answer where there is none
  unfoldable pub on_first : (A → Bool) → Answer → (A → A × Answer) → List A → List A × Answer
  on_first query missing call [] = ([], missing)
  on_first query missing call (row ∷ rows) =
      let rest = on_first query missing call rows in
      if query row then ((call row).0 ∷ rows, (call row).1) else (row ∷ rest.0, rest.1)

-- The query found `row` behind `earlier`.
pub record IsAt {ℓ} {A : Type ℓ} (query : A → Bool) (rows : List A) (row : A) : Type ℓ where
  pub earlier : List A
  pub later : List A
  pub here : rows ≡ earlier ++ row ∷ later
  pub skipped : All (λ r. query r ≡ false) earlier
  pub matched : query row ≡ true

module _ {ℓ κ} {A : Type ℓ} {Answer : Type κ} (query : A → Bool) (missing : Answer)
    (call : A → A × Answer) where
  pub on_first-at :
      (earlier : List A) (row : A) (later : List A)
      → All (λ r. query r ≡ false) earlier
      → query row ≡ true
      → on_first query missing call (earlier ++ row ∷ later)
        ≡ (earlier ++ (call row).0 ∷ later, (call row).1)
  unfolding on_first
  on_first-at [] row later s m = rw (m, on_first) refl
  on_first-at (r ∷ rs) row later s m =
      rw (s.0, on_first) (ap (λ x. (r ∷ x.0, x.1)) (on_first-at rs row later s.1 m))

  pub on_first-cases :
      (rows : List A)
      → ((row : A) × (at : IsAt query rows row) × (on_first query missing call rows
            ≡ (at.earlier ++ (call row).0 ∷ at.later, (call row).1)))
        ⊎ (All (λ r. query r ≡ false) rows × (on_first query missing call rows ≡ (rows, missing)))
  unfolding on_first
  on_first-cases [] = inr (tt, refl)
  on_first-cases (r ∷ rs) = elim (Bool-cases (query r)) [
    | inl e ↦ inl (
      r,
      record { earlier = []; later = rs; here = refl; skipped = tt; matched = e },
      rw (e, on_first) refl,
    )
    | inr e ↦ elim (on_first-cases rs) [
      | inr (s, run) ↦ inr ((e, s), rw (e, on_first) (ap (λ x. (r ∷ x.0, x.1)) run))
      | inl (row, at, run) ↦ inl (
        row,
        record {
          earlier = r ∷ at.earlier;
          later = at.later;
          here = ap (λ x. r ∷ x) at.here;
          skipped = (e, at.skipped);
          matched = at.matched;
        },
        rw (e, on_first) (ap (λ x. (r ∷ x.0, x.1)) run),
      )
    ]
  ]

  -- what holds of every row and is kept by the call
  pub All-on_first {μ} :
      (P : A → Type μ) (rows : List A)
      → ((row : A) → P row → P (call row).0)
      → All P rows
      → All P (on_first query missing call rows).0
  unfolding on_first
  All-on_first P [] keep h = h
  All-on_first P (r ∷ rs) keep h = elim (Bool-cases (query r)) [
    | inl e ↦ rw (e, on_first) (keep r h.0, h.1)
    | inr e ↦ rw (e, on_first) (h.0, All-on_first P rs keep h.1)
  ]
