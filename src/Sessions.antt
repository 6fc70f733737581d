-- ===== src/Sessions.antt =====
-- Refresh tokens: src/modules/users/refresh_token_service.py and refresh_token_model.py. The sha256 of
-- a token and the token generator come from libraries: `hash_token` and `raw_new` are arguments.
pub mod Rotation
mod Tests
use opticutter.Prelude.{
  ℕ, ◌+◌, Bool, true, false, not, ◌&&◌, Option, none, some, List, [], ◌∷◌, ◌++◌, leb, ◌==◌,
  if◌then◌else◌, Result, ok, err, authentication_error,
}
use opticutter.Prelude.Text.{Text, same_text}

-- Instants are numbers; `revoked_at` is `none` while the token is good.
pub record RefreshToken : Type 0 where
  pub user_id : ℕ
  pub token_hash : Text
  pub expires_at : ℕ
  pub revoked_at : Option ℕ

pub record User : Type 0 where
  pub id : ℕ
  pub is_active : Bool

-- `_get`: the first row with the hash
unfoldable pub find_token : Text → List RefreshToken → Option RefreshToken
find_token hash [] = none
find_token hash (t ∷ ts) = if same_text t.token_hash hash then some t else find_token hash ts

-- `user is not None and user.is_active`
unfoldable pub is_active_user : ℕ → List User → Bool
is_active_user id [] = false
is_active_user id (u ∷ us) = if u.id == id then u.is_active else is_active_user id us

abbrev pub revoke_now : ℕ → RefreshToken → RefreshToken
revoke_now now t = record t { revoked_at = some now }

-- `record.revoked_at = now` on the row that `_get` returned
unfoldable pub revoke_row : Text → ℕ → List RefreshToken → List RefreshToken
revoke_row hash now [] = []
revoke_row hash now (t ∷ ts) =
    let rows = revoke_row hash now ts in
    if same_text t.token_hash hash then revoke_now now t ∷ ts else t ∷ rows

-- a token of the user that is not revoked
abbrev pub is_good : ℕ → RefreshToken → Bool
is_good user_id t = t.user_id == user_id && elim t.revoked_at [ none ↦ true | some at ↦ false ]

unfoldable pub revoke_all_for_user : ℕ → ℕ → List RefreshToken → List RefreshToken
revoke_all_for_user now user_id [] = []
revoke_all_for_user now user_id (t ∷ ts) =
    (if is_good user_id t then revoke_now now t else t) ∷ revoke_all_for_user now user_id ts

module _ (hash_token : Text → Text) (lifetime : ℕ) where
  abbrev pub new_token : ℕ → ℕ → Text → RefreshToken
  new_token now user_id raw = record {
    user_id = user_id;
    token_hash = hash_token raw;
    expires_at = now + lifetime;
    revoked_at = none;
  }

  unfoldable pub issue : ℕ → ℕ → Text → List RefreshToken → List RefreshToken
  issue now user_id raw tokens = tokens ++ new_token now user_id raw ∷ []

  -- The row was found: it is expired, revoked before, or good.
  unfoldable pub rotate_found :
      List User
      → ℕ
      → Text
      → Text
      → RefreshToken
      → List RefreshToken
      → List RefreshToken × Result (ℕ × Text)
  unfolding revoke_all_for_user is_active_user revoke_row issue
  rotate_found users now raw raw_new t tokens =
      if leb t.expires_at now then (tokens, err authentication_error) else (elim t.revoked_at [
        | some at ↦ (revoke_all_for_user now t.user_id tokens, err authentication_error)
        | none ↦
            if is_active_user t.user_id users
            then (
              issue now t.user_id raw_new (revoke_row (hash_token raw) now tokens),
              ok (t.user_id, raw_new),
            )
            else (tokens, err authentication_error)
      ])

  unfoldable pub rotate :
      List User → ℕ → Text → Text → List RefreshToken → List RefreshToken × Result (ℕ × Text)
  unfolding find_token rotate_found
  rotate users now raw raw_new tokens = elim (find_token (hash_token raw) tokens) [
    | none ↦ (tokens, err authentication_error)
    | some t ↦ rotate_found users now raw raw_new t tokens
  ]

  -- `revoke` (logout)
  unfoldable pub revoke : ℕ → Text → List RefreshToken → List RefreshToken
  unfolding find_token revoke_row
  revoke now raw tokens = elim (find_token (hash_token raw) tokens) [
    | none ↦ tokens
    | some t ↦ elim t.revoked_at [
      | some at ↦ tokens
      | none ↦ revoke_row (hash_token raw) now tokens
    ]
  ]
