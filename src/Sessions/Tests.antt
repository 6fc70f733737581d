-- ===== src/Sessions/Tests.antt =====
-- A user with one token, rotated twice. The hash of these runs is the token itself.
use opticutter.Prelude.{
  ℕ, ◌<◌, ◌≡◌, refl, true, none, some, List, [], ◌∷◌, Result, ok, err, authentication_error,
}
use opticutter.Prelude.Text.{Text}
use opticutter.Sessions.{RefreshToken, User, find_token, is_active_user, rotate, rotate_found}
use opticutter.Sessions.Rotation.{
  IsLockedOut, IsRotation, good_tokens, rotate_ok, good_tokens-rotate, rotate_reused,
}

abbrev plain : Text → Text
plain raw = raw

abbrev people : List User
people = record { id = 4; is_active = true } ∷ []

abbrev first : RefreshToken
first = record { user_id = 4; token_hash = 1 ∷ []; expires_at = 100; revoked_at = none }

abbrev rotated : List RefreshToken × Result (ℕ × Text)
rotated = rotate plain 100 people 10 (1 ∷ []) (2 ∷ []) (first ∷ [])

rotation_runs : rotated.1 ≡ ok (4, 2 ∷ [])
unfolding rotate rotate_found find_token is_active_user
rotation_runs = refl

first_found : find_token (1 ∷ []) (first ∷ []) ≡ some first
unfolding find_token
first_found = refl

rotate_ok_example :
    (t : RefreshToken) × IsRotation plain 100 people 10 (1 ∷ []) (2 ∷ []) (first ∷ []) t
    × (◌≡◌ {A = ℕ × Text} (4, 2 ∷ []) (t.user_id, 2 ∷ []))
rotate_ok_example = rotate_ok plain 100 people 10 (1 ∷ []) (2 ∷ []) (first ∷ []) rotation_runs

good_tokens-rotate_example : good_tokens 4 rotated.0 ≡ good_tokens 4 (first ∷ [])
good_tokens-rotate_example =
    good_tokens-rotate plain 100 people 10 (1 ∷ []) (2 ∷ []) (first ∷ []) 4 rotation_runs

rotate_reused_example :
    let (tokens'', second) = rotate plain 100 people 20 (1 ∷ []) (3 ∷ []) rotated.0 in
    (second ≡ err authentication_error) × (20 < 100 → IsLockedOut 4 tokens'')
rotate_reused_example =
    rotate_reused plain 100 people 10 (1 ∷ []) (2 ∷ []) (first ∷ []) people 20 (3 ∷ [])
      rotation_runs first_found
