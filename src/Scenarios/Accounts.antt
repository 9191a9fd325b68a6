-- ===== src/Scenarios/Accounts.antt =====
-- The theorems on logins and accounts, applied.
use secure_api.Prelude.{
  ℕ, ◌≡◌, ◌≢◌, ◌↔◌, refl, String, teq, codes, true, false, none, some, Option, [], ◌∷◌, arith,
}
use secure_api.Models.{User, Db}
use secure_api.Session.{http, run, ok, err}
use secure_api.Security.{
  is_platform_admin, is_super_admin, verify_password, verify_totp, create_access_token,
  create_refresh_token,
}
use secure_api.Security.Passwords.{
  validate_password_strength, IsStrong, validate_password_strength_iff,
}
use secure_api.Auth.Base.{build_user_out, build_auth_out}
use secure_api.Auth.Login.{
  LoginIn, accepted, is_locked, check_credentials, check_mfa, or_empty, login,
}
use secure_api.Auth.Login.Lockout.{matching, login_sound}
use secure_api.Auth.Login.Repeated.{
  Attempt, IsWrong, try_login, try_logins, lockout_after_threshold,
}
use secure_api.Auth.Mfa.{mfa_enroll}
use secure_api.Auth.Mfa.Bypass.{mfa_enforced, mfa_enroll-bypass}
use secure_api.Auth.Users.{UserUpdateIn, update_user}
use secure_api.Auth.Users.Effects.{Effect, update_user-Effect}
use secure_api.Auth.Users.Authority.{
  AdminAction, perform, super_admins, other_admins, super_admins-perform, other_admins-perform,
}
use secure_api.Scenarios.{crypto, settings, request, alice, root, carol, db, tokens_of}

abbrev with_password : String → String → Option String → LoginIn
with_password name password code = record {
  username = name;
  password = codes password;
  mfa_code = code;
}

abbrev as_dave : LoginIn
as_dave = with_password "dave" "pw4" none

abbrev as_alice : LoginIn
as_alice = with_password "alice" "pw" none

abbrev as_mallory : LoginIn
as_mallory = with_password "alice" "guess" none

abbrev as_carol : LoginIn
as_carol = with_password "carol" "pw3" (some "123456")

login_sound_example :
    (u : User) × (matching crypto settings 50 request as_alice "2" db ≡ u ∷ [])
    × (is_locked 50 u.locked_until ≡ false)
    × (check_credentials crypto 50 u as_alice ≡ accepted)
    × ((tokens_of (run (login crypto settings 50 request as_alice "2") db).response).user
        ≡ build_user_out u)
unfolding login check_credentials verify_password is_platform_admin teq
login_sound_example =
    login_sound crypto settings 50 request as_alice "2" db
      (tokens_of (run (login crypto settings 50 request as_alice "2") db).response) refl

abbrev guess_at : ℕ → LoginIn → Attempt
guess_at now body = record { now = now; request = request; body = body; nonce = "2" }

abbrev guessed : Db
guessed =
    try_login crypto settings (guess_at 60 as_mallory)
      (try_logins crypto settings (guess_at 50 as_mallory ∷ []) db)

guess-IsWrong : (now : ℕ) → IsWrong crypto "alice" "pw" (guess_at now as_mallory)
unfolding verify_password teq
guess-IsWrong now = record { same_account = refl; mismatch = refl }

lockout_after_threshold_example :
    ((run (login crypto settings 70 request as_alice "2") guessed).response
      ≡ err (http 423 "Account temporarily locked due to repeated failed logins"))
    × ((run (login crypto settings 70 request as_alice "2") guessed).db.refresh_tokens
        ≡ guessed.refresh_tokens)
lockout_after_threshold_example =
    lockout_after_threshold crypto settings "alice" alice db (guess_at 50 as_mallory ∷ [])
      (guess_at 60 as_mallory) (guess_at 70 as_alice) refl refl (guess-IsWrong 50, tt)
      (guess-IsWrong 60) refl (ground arith)

mfa_enforced_example :
    (verify_password crypto (codes "pw3") "pw3" ≡ true)
    × (or_empty as_carol.mfa_code ≢ "")
    × (verify_totp crypto 50 "123456" "123456" ≡ true)
unfolding login check_credentials check_mfa verify_password verify_totp is_platform_admin teq
mfa_enforced_example =
    mfa_enforced crypto settings 50 request as_carol "2" db carol
      (tokens_of (run (login crypto settings 50 request as_carol "2") db).response) refl refl refl
      refl

abbrev enrolled : User
enrolled = record carol { mfa_secret = some "654321"; mfa_enabled = false }

abbrev without_code : LoginIn
without_code = with_password "carol" "pw3" none

mfa_enroll-bypass_example :
    (run
      (login crypto settings 50 request without_code "2")
      (run (mfa_enroll "654321" carol) db).db).response
    ≡ ok (
        build_auth_out 50 enrolled
          (create_access_token crypto settings 50 "carol")
          (create_refresh_token crypto settings 50 "carol" "2").0)
unfolding verify_password teq
mfa_enroll-bypass_example =
    mfa_enroll-bypass crypto settings 50 request without_code "2" db carol "654321" refl refl refl
      refl

abbrev demote : AdminAction
demote =
    AdminAction.update 2 (record { email = none; role = some "viewer"; is_active = some false })

super_admins-perform_example :
    super_admins (perform crypto 50 request carol demote db) ≡ super_admins db
super_admins-perform_example = super_admins-perform crypto 50 request carol db demote

other_admins-perform_example :
    other_admins carol (perform crypto 50 request carol demote db) ≡ other_admins carol db
unfolding is_super_admin
other_admins-perform_example = other_admins-perform crypto 50 request carol db demote refl

abbrev promote : UserUpdateIn
promote = record { email = none; role = some "editor"; is_active = none }

update_user-Effect_example :
    Effect 50 request root 1 promote db (run (update_user 50 request root 1 promote) db)
update_user-Effect_example = update_user-Effect 50 request root 1 promote db

validate_password_strength_iff_example :
    (validate_password_strength crypto (codes "Correct-horse-9") ≡ none)
    ↔ IsStrong crypto (codes "Correct-horse-9")
validate_password_strength_iff_example =
    validate_password_strength_iff crypto (codes "Correct-horse-9")
