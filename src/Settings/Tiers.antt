-- ===== src/Settings/Tiers.antt =====
-- The resolution of a price tier among those that an update has stored.
use opticutter.Prelude.{
  subst, ℕ, ◌≡◌, ◌≢◌, ◌⊎◌, inl, inr, refl, ap, sym, Bool, true, false, Option, none, some, List, [],
  ◌∷◌, ◌++◌, All, ok, err, validation_error, Result, Bool-cases, arith,
}
use opticutter.Prelude.Text.{Text, codes, same_text, same_text_eq, same_text_refl}
use opticutter.Settings.{
  PriceTier, SettingsRow, tier_code_or, is_offered, find_tier, get_price_tiers, resolve_price_tier,
  update_price_tiers,
}

-- The tier has the code, or is `consumidor` where there is none; an empty code counts as none.
abbrev pub IsNamed : Option Text → PriceTier → Type 0
IsNamed code t =
    ((code ≡ some t.code) × (t.code ≢ []))
    ⊎ (((code ≡ none) ⊎ (code ≡ some [])) × (t.code ≡ codes "consumidor"))

abbrev pub IsWanted : Option Text → PriceTier → Type 0
IsWanted code t = (t.is_active ≢ some false) × IsNamed code t

-- `t` is the first tier of the list that is wanted.
pub record IsFirst (code : Option Text) (tiers : List PriceTier) (t : PriceTier) : Type 0 where
  pub earlier : List PriceTier
  pub later : List PriceTier
  pub here : tiers ≡ earlier ++ t ∷ later
  pub skipped : All (λ u. ¬ IsWanted code u) earlier
  pub fits : IsWanted code t

-- The answer when the tiers stored are `tiers`, and `fallback` stands in for an empty list.
pub record IsResolution (code : Option Text) (fallback tiers : List PriceTier)
    (answer : Result PriceTier) : Type 0 where
  pub shown : List PriceTier
  pub stored : ((tiers ≢ []) × (shown ≡ tiers)) ⊎ ((tiers ≡ []) × (shown ≡ fallback))
  pub outcome :
      ((t : PriceTier) × (answer ≡ ok t) × IsFirst code shown t)
      ⊎ ((answer ≡ err validation_error) × All (λ u. ¬ IsWanted code u) shown)

abbrev is_active_tier : PriceTier → Bool
is_active_tier t = elim t.is_active [ none ↦ true | some b ↦ b ]

IsNamed-tier_code_or :
    (code : Option Text) (t : PriceTier) → t.code ≡ tier_code_or code → IsNamed code t
IsNamed-tier_code_or none t e = inr (inl refl, e)
IsNamed-tier_code_or (some []) t e = inr (inr refl, e)
IsNamed-tier_code_or (some (c ∷ cs)) t e = inl (ap some (sym e), λ f. ground (arith, e, f))

tier_code_or-IsNamed :
    (code : Option Text) (t : PriceTier) → IsNamed code t → t.code ≡ tier_code_or code
tier_code_or-IsNamed none t (inl (e, f)) = absurd (ground (arith, e))
tier_code_or-IsNamed none t (inr (e, f)) = f
tier_code_or-IsNamed (some []) t (inl (e, f)) = absurd (ground (arith, e, f))
tier_code_or-IsNamed (some []) t (inr (e, f)) = f
tier_code_or-IsNamed (some (c ∷ cs)) t (inl (e, f)) = ground (arith, e)
tier_code_or-IsNamed (some (c ∷ cs)) t (inr (e, f)) = absurd (ground (arith, e))

is_offered-IsWanted :
    (code : Option Text) (t : PriceTier)
    → ((is_offered (tier_code_or code) t ≡ true) × IsWanted code t)
      ⊎ ((is_offered (tier_code_or code) t ≡ false) × ¬ IsWanted code t)
unfolding is_offered
is_offered-IsWanted code t = elim (Bool-cases (same_text t.code (tier_code_or code))) [
  | inr e ↦ inr (
    rw e refl,
    λ w.
        ground (
          arith,
          e,
          ap (same_text t.code) (tier_code_or-IsNamed code t w.1),
          same_text_refl t.code,
        ),
  )
  | inl e ↦ elim (Bool-cases (is_active_tier t)) [
    | inr f ↦ inr (rw (e, f) refl, λ w. ground (arith, f, w.0))
    | inl f ↦ inl (
      rw (e, f) refl,
      (
        (λ g. ground (arith, f, g)),
        IsNamed-tier_code_or code t (same_text_eq t.code (tier_code_or code) e),
      ),
    )
  ]
]

find_tier-cases :
    (code : Option Text) (tiers : List PriceTier)
    → ((t : PriceTier) × (find_tier (tier_code_or code) tiers ≡ ok t) × IsFirst code tiers t)
      ⊎ ((find_tier (tier_code_or code) tiers ≡ err validation_error)
          × All (λ u. ¬ IsWanted code u) tiers)
unfolding find_tier
find_tier-cases code [] = inr (refl, tt)
find_tier-cases code (t ∷ ts) = elim (is_offered-IsWanted code t) [
  | inl (e, w) ↦ inl (
    t,
    rw (e, find_tier) refl,
    record { earlier = []; later = ts; here = refl; skipped = tt; fits = w },
  )
  | inr (e, w) ↦ elim (find_tier-cases code ts) [
    | inl (u, run, first) ↦ inl (
      u,
      rw (e, find_tier) run,
      record {
        earlier = t ∷ first.earlier;
        later = first.later;
        here = ap (λ l. t ∷ l) first.here;
        skipped = (w, first.skipped);
        fits = first.fits;
      },
    )
    | inr (run, none_left) ↦ inr (rw (e, find_tier) run, (w, none_left))
  ]
]

get_price_tiers-shown :
    (fallback tiers : List PriceTier)
    → ((tiers ≢ []) × (get_price_tiers fallback tiers ≡ tiers))
      ⊎ ((tiers ≡ []) × (get_price_tiers fallback tiers ≡ fallback))
unfolding get_price_tiers
get_price_tiers-shown fallback [] = inr (refl, refl)
get_price_tiers-shown fallback (t ∷ ts) = inl (ground arith, refl)

update_price_tiers-tiers :
    (seed : SettingsRow) (user : Option ℕ) (tiers : List PriceTier) (table : Option SettingsRow)
    → (update_price_tiers seed user tiers table).price_tiers ≡ tiers
unfolding update_price_tiers
update_price_tiers-tiers seed none tiers table = refl
update_price_tiers-tiers seed (some u) tiers table = refl

resolve_price_tier-IsResolution :
    (fallback tiers : List PriceTier) (code : Option Text)
    → IsResolution code fallback tiers (resolve_price_tier fallback tiers code)
unfolding resolve_price_tier
resolve_price_tier-IsResolution fallback tiers code = record {
  shown = get_price_tiers fallback tiers;
  stored = get_price_tiers-shown fallback tiers;
  outcome = find_tier-cases code (get_price_tiers fallback tiers);
}

-- After `update_price_tiers` has stored a list of tiers, `resolve_price_tier` looks in that list, or in
-- the fallback if it is empty. It returns the first tier that is not marked inactive and has the code
-- asked for, or has `consumidor` where the code is missing or empty; it fails with ValidationError
-- where there is no such tier.
pub resolve_price_tier-cases :
    (fallback tiers : List PriceTier) (code : Option Text) (seed : SettingsRow) (user : Option ℕ)
    (table : Option SettingsRow)
    → IsResolution code fallback tiers
        (resolve_price_tier fallback (update_price_tiers seed user tiers table).price_tiers code)
resolve_price_tier-cases fallback tiers code seed user table =
    subst (λ ts. IsResolution code fallback tiers (resolve_price_tier fallback ts code))
      (sym (update_price_tiers-tiers seed user tiers table))
      (resolve_price_tier-IsResolution fallback tiers code)
