-- ===== src/PreOrders/Lifecycle/Links.antt =====
-- How the calls change the number of active and of used links.
use opticutter.Prelude.{
  ℕ, ◌+◌, ◌≡◌, inl, inr, refl, true, false, Option, some, List, [], ◌∷◌, ◌++◌, map, sum_by-append,
  All-append, Bool-cases, if◌then◌else◌, arith,
}
use mathlib.Core.Option.{some-injective}
use mathlib.Core.Path.{ap, ◌∙◌}
use opticutter.Prelude.Text.{Text, same_text}
use opticutter.PreOrders.{is_active, is_revoked, ReviewLink}
use opticutter.PreOrders.Review.{find_link, revoke_active, new_link, mark_used}
use opticutter.PreOrders.Lifecycle.{is_used, live, spent, Mirrors}

live-revoke : (links : List ReviewLink) → live (map revoke_active links) ≡ 0
live-revoke [] = refl
live-revoke (l ∷ ls) = ground (arith, live-revoke ls)

spent-revoke : (links : List ReviewLink) → spent (map revoke_active links) ≡ spent links
spent-revoke [] = refl
spent-revoke (l ∷ ls) = ground (arith, spent-revoke ls)

Mirrors-revoke :
    (expires_at : Option ℕ) (links : List ReviewLink) → Mirrors expires_at (map revoke_active links)
Mirrors-revoke expires_at [] = tt
Mirrors-revoke expires_at (l ∷ ls) =
    ((λ e. absurd (ground (arith, e))), Mirrors-revoke expires_at ls)

-- a new link in place of those before it
pub live-renew :
    (hash : Text) (expires_at : Option ℕ) (links : List ReviewLink)
    → live (map revoke_active links ++ new_link hash expires_at ∷ []) ≡ 1
live-renew hash expires_at links = omega (
  arith,
  live-revoke links,
  sum_by-append (λ l. if is_active l.status then 1 else 0) (map revoke_active links)
      (new_link hash expires_at ∷ []),
)

pub spent-renew :
    (hash : Text) (expires_at : Option ℕ) (links : List ReviewLink)
    → spent (map revoke_active links ++ new_link hash expires_at ∷ []) ≡ spent links
spent-renew hash expires_at links = omega (
  arith,
  spent-revoke links,
  sum_by-append (λ l. if is_used l.status then 1 else 0) (map revoke_active links)
      (new_link hash expires_at ∷ []),
)

pub Mirrors-renew :
    (hash : Text) (expires_at : Option ℕ) (links : List ReviewLink)
    → Mirrors expires_at (map revoke_active links ++ new_link hash expires_at ∷ [])
Mirrors-renew hash expires_at links =
    All-append (λ l. is_active l.status ≡ true → l.expires_at ≡ expires_at)
      (map revoke_active links) (new_link hash expires_at ∷ []) (Mirrors-revoke expires_at links)
      ((λ e. refl), tt)

module _ (hash : Text) (now : ℕ) (meta : List (Text × Option Text)) where
  -- the link that was found, and not revoked or used before, is the one that is used up
  pub mark_used-counts :
      (links : List ReviewLink) {l : ReviewLink}
      → find_link hash links ≡ some l
      → is_revoked l.status ≡ false
      → spent links ≡ 0
      → (live (mark_used hash now meta links) + 1 ≡ live links)
        × (spent (mark_used hash now meta links) ≡ 1)
  unfolding find_link mark_used
  mark_used-counts [] f r s = absurd (ground (arith, f))
  mark_used-counts (k ∷ ks) {l} f r s = elim (Bool-cases (same_text k.token_hash hash)) [
    | inl e ↦
        let same : k ≡ l = some-injective _ _ (rw (e, find_link) at f) in
        let kept : is_revoked k.status ≡ false = ap (λ x. is_revoked x.status) same ∙ r in
        rw (e, mark_used) (ground (arith, kept, s), ground (arith, kept, s))
    | inr e ↦
        let zero_here : ◌≡◌ {A = ℕ} (if is_used k.status then 1 else 0) 0 = omega (arith, s) in
        let zero_later : spent ks ≡ 0 = omega (arith, s) in
        let (fewer, one) = mark_used-counts ks (rw (e, find_link) at f) r zero_later in
        rw (e, mark_used) (omega (arith, fewer), omega (arith, one, zero_here))
  ]

  pub Mirrors-mark_used :
      (expires_at : Option ℕ) (links : List ReviewLink)
      → Mirrors expires_at links
      → Mirrors expires_at (mark_used hash now meta links)
  unfolding mark_used
  Mirrors-mark_used expires_at [] h = tt
  Mirrors-mark_used expires_at (k ∷ ks) h = elim (Bool-cases (same_text k.token_hash hash)) [
    | inl e ↦ rw (e, mark_used) ((λ f. absurd (ground (arith, f))), h.1)
    | inr e ↦ rw (e, mark_used) (h.0, Mirrors-mark_used expires_at ks h.1)
  ]
