-- ===== src/Sessions/Rotation.antt =====
-- Rotation of refresh tokens: each is used once, and a second use revokes the user's tokens.
use opticutter.Prelude.{
  ℕ, ◌+◌, ◌<◌, ◌≡◌, inl, inr, refl, sym, ap, subst, ◌∙◌, true, false, none, some, List, [], ◌∷◌,
  ◌++◌, All, sum_by, sum_by-append, leb, ◌==◌, if◌then◌else◌, ok, ok-injective, err,
  authentication_error, Bool-cases, Option-cases, arith,
}
use mathlib.Core.Option.{some-injective}
use opticutter.Prelude.Text.{Text, same_text}
use opticutter.Sessions.{
  RefreshToken, User, find_token, is_active_user, revoke_now, revoke_row, is_good,
  revoke_all_for_user, issue, rotate_found, rotate, new_token,
}

-- no token of the user is good
abbrev pub IsLockedOut : ℕ → List RefreshToken → Type 0
IsLockedOut user_id tokens = All (λ t. is_good user_id t ≡ false) tokens

revoke_all-IsLockedOut :
    (now user_id : ℕ) (tokens : List RefreshToken)
    → IsLockedOut user_id (revoke_all_for_user now user_id tokens)
unfolding revoke_all_for_user
revoke_all-IsLockedOut now user_id [] = tt
revoke_all-IsLockedOut now user_id (t ∷ ts) = (ground arith, revoke_all-IsLockedOut now user_id ts)

find_token-revoke_row :
    (hash : Text) (now : ℕ) (tokens more : List RefreshToken) {t : RefreshToken}
    → find_token hash tokens ≡ some t
    → find_token hash (revoke_row hash now tokens ++ more) ≡ some (revoke_now now t)
unfolding find_token revoke_row
find_token-revoke_row hash now [] more h = absurd (ground (arith, h))
find_token-revoke_row hash now (t ∷ ts) more h = elim (Bool-cases (same_text t.token_hash hash)) [
  | inl e ↦
      let same : t ≡ _ = some-injective _ _ (rw (e, find_token) at h) in
      rw (e, revoke_row, e) (ap (λ x. some (revoke_now now x)) same)
  | inr e ↦ rw (e, revoke_row, e) (find_token-revoke_row hash now ts more (rw (e, find_token) at h))
]

-- the good tokens of a user
abbrev pub good_tokens : ℕ → List RefreshToken → ℕ
good_tokens user_id tokens = sum_by (λ t. if is_good user_id t then 1 else 0) tokens

good_tokens-revoke_row :
    (hash : Text) (now v : ℕ) (tokens : List RefreshToken) {t : RefreshToken}
    → find_token hash tokens ≡ some t
    → t.revoked_at ≡ none
    → good_tokens v (revoke_row hash now tokens) + (if t.user_id == v then 1 else 0)
      ≡ good_tokens v tokens
unfolding find_token revoke_row
good_tokens-revoke_row hash now v [] {t = u} h good = absurd (ground (arith, h))
good_tokens-revoke_row hash now v (t ∷ ts) {t = u} h good =
    elim (Bool-cases (same_text t.token_hash hash)) [
      | inl e ↦
          let same : t ≡ u = some-injective _ _ (rw (e, find_token) at h) in
          rw (e, revoke_row)
            (ground (arith, ap (λ x. x.user_id) same, ap (λ x. x.revoked_at) same ∙ good))
      | inr e ↦
          let later = good_tokens-revoke_row hash now v ts (rw (e, find_token) at h) good in
          rw (e, revoke_row) (omega (arith, later))
    ]

module _ (hash_token : Text → Text) (lifetime : ℕ) (users : List User) (now : ℕ)
    (raw raw_new : Text) (tokens : List RefreshToken) where
  -- What a rotation that succeeds has found and done.
  pub record IsRotation (t : RefreshToken) : Type 0 where
    pub found : find_token (hash_token raw) tokens ≡ some t
    pub unrevoked : t.revoked_at ≡ none
    pub unexpired : now < t.expires_at
    pub active : is_active_user t.user_id users ≡ true
    pub result : rotate hash_token lifetime users now raw raw_new tokens ≡ (
      revoke_row (hash_token raw) now tokens
          ++ new_token hash_token lifetime now t.user_id raw_new ∷ [],
      ok (t.user_id, raw_new),
    )

  rotate_found_ok :
      (t : RefreshToken) {r : ℕ × Text}
      → find_token (hash_token raw) tokens ≡ some t
      → (rotate hash_token lifetime users now raw raw_new tokens).1 ≡ ok r
      → IsRotation t
  unfolding rotate rotate_found issue
  rotate_found_ok t f h =
      let run : (rotate_found hash_token lifetime users now raw raw_new t tokens).1 ≡ ok _ =
        rw (f, rotate) at h in
      record {
        found = f;
        unrevoked = ground (arith, run);
        unexpired = ground (arith, run);
        active = ground (arith, run);
        result = rw (f, rotate) (ground (arith, run));
      }

  -- A rotation succeeds only with a token that is stored, not revoked and not expired, of an active
  -- user; it revokes that token and stores the new one.
  pub rotate_ok :
      {r : ℕ × Text}
      → (rotate hash_token lifetime users now raw raw_new tokens).1 ≡ ok r
      → (t : RefreshToken) × IsRotation t × (r ≡ (t.user_id, raw_new))
  unfolding rotate
  rotate_ok {r} h = elim (Option-cases (find_token (hash_token raw) tokens)) [
    | inl e ↦ absurd (ground (arith, rw (e, rotate) at h))
    | inr (t, e) ↦
        let done = rotate_found_ok t e h in
        (t, done, ok-injective (sym h ∙ ap (λ x. x.1) done.result))
  ]

  fresh_good :
      (v user_id : ℕ)
      → ◌≡◌ {A = ℕ}
          (if is_good v (new_token hash_token lifetime now user_id raw_new) then 1 else 0)
          (if user_id == v then 1 else 0)
  fresh_good v user_id = ground arith

  -- A rotation that succeeds keeps the number of good tokens of every user.
  pub good_tokens-rotate :
      {r : ℕ × Text} (v : ℕ)
      → (rotate hash_token lifetime users now raw raw_new tokens).1 ≡ ok r
      → good_tokens v (rotate hash_token lifetime users now raw raw_new tokens).0
        ≡ good_tokens v tokens
  good_tokens-rotate v h =
      let (t, done, same) = rotate_ok h in
      let fresh = new_token hash_token lifetime now t.user_id raw_new in
      let kept = revoke_row (hash_token raw) now tokens in
      ap (λ x. good_tokens v x.0) done.result
      ∙ omega (
        arith,
        sum_by-append (λ x. if is_good v x then 1 else 0) kept (fresh ∷ []),
        fresh_good v t.user_id,
        good_tokens-revoke_row (hash_token raw) now v tokens done.found done.unrevoked,
      )

  -- After a rotation that succeeds, rotating the same token again fails, and while that token has not
  -- expired it revokes every token of the user.
  pub rotate_reused :
      {r : ℕ × Text} {t : RefreshToken} (users' : List User) (later : ℕ) (raw' : Text)
      → (rotate hash_token lifetime users now raw raw_new tokens).1 ≡ ok r
      → find_token (hash_token raw) tokens ≡ some t
      → let tokens' = (rotate hash_token lifetime users now raw raw_new tokens).0 in
        let (tokens'', second) = rotate hash_token lifetime users' later raw raw' tokens' in
        (second ≡ err authentication_error)
        × (later < t.expires_at → IsLockedOut t.user_id tokens'')
  unfolding rotate rotate_found
  rotate_reused {t} users' later raw' h f =
      let done = rotate_found_ok t f h in
      let fresh = new_token hash_token lifetime now t.user_id raw_new in
      let tokens' = revoke_row (hash_token raw) now tokens ++ fresh ∷ [] in
      let again = find_token-revoke_row (hash_token raw) now tokens (fresh ∷ []) f in
      subst
        (λ x.
          let (tokens'', second) = rotate hash_token lifetime users' later raw raw' x in
          (second ≡ err authentication_error)
          × (later < t.expires_at → IsLockedOut t.user_id tokens''))
        (sym (ap (λ x. x.0) done.result))
        (elim (Bool-cases (leb t.expires_at later)) [
          | inl e ↦ rw (again, rotate, e) (refl, λ g. absurd (ground (arith, e, g)))
          | inr e ↦
              rw (again, rotate, e) (refl, λ g. revoke_all-IsLockedOut later t.user_id tokens')
        ])
