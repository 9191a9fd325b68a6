-- ===== src/Scenarios/Sessions.antt =====
-- The theorems on tokens, callers and organization contexts, applied.
use secure_api.Prelude.{
  ◌&&◌, ◌≡◌, refl, Text, teq, codes, none, some, [], ◌∷◌, arith, starts_with, strip, eq_iff,
}
use secure_api.Models.{RefreshToken, Db}
use secure_api.Session.{run, ok, err}
use secure_api.Session.Query.{select, update_where}
use secure_api.Security.{is_platform_admin, hash_token, create_access_token, create_refresh_token}
use secure_api.Security.Passwords.{validate_password_strength}
use secure_api.Auth.Base.{has_id}
use secure_api.Auth.Refresh.{is_live_of, invalid_refresh_token, refresh}
use secure_api.Auth.Refresh.Rotation.{
  Rotated, sessions_of, stored, refresh-ok, refresh-replay, refresh_once,
}
use secure_api.Auth.Reset.{
  invalid_reset_token, is_open_of, with_new_password, confirm_password_reset,
}
use secure_api.Auth.Reset.Effects.{
  Confirmed, confirm_password_reset-sound, confirm_password_reset-once,
}
use secure_api.Deps.CurrentUser.{bearer_token, person, get_current_user}
use secure_api.Deps.CurrentUser.Soundness.{Identified, get_current_user_sound}
use secure_api.Deps.OrgContext.{OrgContext, cross_org, resolve_org_context}
use secure_api.Deps.OrgContext.Isolation.{Access, resolve_org_context-sound}
use secure_api.Deps.MonitorKey.{verify_monitor_key}
use secure_api.Scenarios.{crypto, settings, request, alice, root, token2, db, tokens_of}

refresh-replay_example :
    ((run (refresh crypto settings 50 request (codes "refresh2") "9") db).response
      ≡ err invalid_refresh_token)
    × (sessions_of 1 (run (refresh crypto settings 50 request (codes "refresh2") "9") db).db ≡ [])
unfolding hash_token teq
refresh-replay_example =
    refresh-replay crypto settings 50 request (codes "refresh2") "9" db token2 refl refl

refresh-ok_example : Rotated crypto settings 50 request (codes "refresh1") "9" db
unfolding refresh hash_token teq create_refresh_token create_access_token update_where
refresh-ok_example =
    refresh-ok crypto settings 50 request (codes "refresh1") "9" db
      (tokens_of (run (refresh crypto settings 50 request (codes "refresh1") "9") db).response) refl

abbrev rotated : Db
rotated = (run (refresh crypto settings 50 request (codes "refresh1") "9") db).db

refresh_once_example :
    let second = run (refresh crypto settings 60 request (codes "refresh1") "8") rotated in
    (second.response ≡ err invalid_refresh_token)
    × ((row : RefreshToken) × (stored crypto settings 50 request (codes "refresh1") "9" rotated
          ≡ row ∷ [])
        × (sessions_of row.user_id second.db ≡ []))
unfolding refresh hash_token teq create_refresh_token create_access_token update_where
refresh_once_example =
    refresh_once crypto settings 50 60 request request (codes "refresh1") "9" "8" db
      (tokens_of (run (refresh crypto settings 50 request (codes "refresh1") "9") db).response) refl
      (ground (arith, eq_iff "d0" "d1"))

abbrev strong : Text
strong = codes "Correct-horse-9"

confirm_password_reset-sound_example :
    Confirmed crypto settings 50 request (codes "reset") strong "s" db
unfolding confirm_password_reset hash_token teq validate_password_strength
confirm_password_reset-sound_example =
    confirm_password_reset-sound crypto settings 50 request (codes "reset") strong "s" db refl

confirm_password_reset-once_example :
    let db' =
      (run (confirm_password_reset crypto settings 50 request (codes "reset") strong "s") db).db in
    (r : Confirmed crypto settings 50 request (codes "reset") strong "s" db) × (select
        (λ u. has_id r.row.user_id u && u.is_active)
        db'.users
      ≡ with_new_password "new" r.user ∷ [])
    × (select (is_live_of r.user.id) db'.refresh_tokens ≡ [])
    × (select (is_open_of r.user.id) db'.reset_tokens ≡ [])
    × ((run
          (confirm_password_reset crypto settings 60 request (codes "reset") strong "t")
          db').response
        ≡ err invalid_reset_token)
unfolding confirm_password_reset hash_token teq validate_password_strength
confirm_password_reset-once_example =
    confirm_password_reset-once crypto settings 50 request (codes "reset") strong "s" db refl 60
      request strong "t"

get_current_user_sound_example :
    Identified crypto settings 50 db (some (codes "access")) none none (person alice)
unfolding get_current_user bearer_token teq starts_with strip
get_current_user_sound_example =
    get_current_user_sound crypto settings 50 (some (codes "access")) none none db (person alice)
      refl

abbrev support : OrgContext
support = cross_org 1

resolve_org_context-sound_example :
    Access db
      (run (resolve_org_context 50 request (some 1) (person root)) db).db
      (some 1)
      (person root)
      support
unfolding resolve_org_context is_platform_admin
resolve_org_context-sound_example =
    resolve_org_context-sound 50 request (some 1) (person root) db support refl

monitor_passes : verify_monitor_key crypto settings 50 (some (codes "monitor")) none none ≡ ok tt
unfolding verify_monitor_key teq
monitor_passes = refl
