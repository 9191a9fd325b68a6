-- ===== src/Scenarios/Started.antt =====
-- The theorems on the settings at the start, applied.
use secure_api.Prelude.{
  arith, length, keep, any, if◌then◌else◌, ◌≡◌, ◌↔◌, ◌⊎◌, refl, false, none, some, codes, strip,
  strip_left, starts_with, teq, [], ◌∷◌,
}
use secure_api.Pathutil.{split_on}
use secure_api.Security.Passwords.{join_errors}
use secure_api.Startup.{
  StartSettings, Environment, Drawn, settings_of, is_production, unseen, extra_origins,
  get_cors_origins, trusted_origins, production_errors, validate_security_settings,
}
use secure_api.Startup.Origins.{get_cors_origins_lem}
use secure_api.Startup.Secrets.{IsDeployable, validate_security_settings_iff}

abbrev environment : Environment
environment = record {
  app_env = some (codes "production");
  database_url = some (codes "sqlite:///./data.db");
  monitor_api_key = none;
  secret_key = none;
  admin_username = none;
  admin_password = none;
  cors_origins = some (codes "https://a.example, https://b.example,,https://a.example");
}

abbrev drawn : Drawn
drawn = record {
  monitor_api_key = codes "m";
  secret_key = codes "0123456789abcdef0123456789abcdef";
  admin_password = codes "Zm9vYmFy";
}

abbrev deployed : StartSettings
deployed = settings_of environment drawn

two_origins : get_cors_origins deployed ≡ codes "https://a.example" ∷ codes "https://b.example" ∷ []
unfolding get_cors_origins extra_origins unseen split_on strip strip_left teq
two_origins = refl

placeholder_password :
    validate_security_settings (record deployed { admin_password = codes "change-me-now" })
    ≡ some "ADMIN_PASSWORD must not use a placeholder value"
unfolding validate_security_settings production_errors join_errors strip strip_left starts_with teq
placeholder_password = refl

-- nothing but an SQLite file is given, and the program starts
drawn_secrets : validate_security_settings deployed ≡ none
unfolding validate_security_settings production_errors join_errors strip strip_left starts_with teq
drawn_secrets = refl

validate_security_settings_iff_example :
    (validate_security_settings deployed ≡ none)
    ↔ ((is_production deployed ≡ false) ⊎ IsDeployable environment)
unfolding starts_with
validate_security_settings_iff_example =
    validate_security_settings_iff environment drawn refl (ground arith, refl) (refl, refl)

get_cors_origins_lem_example :
    length (keep (teq (codes "https://a.example")) (get_cors_origins deployed))
    ≡ (if any (teq (codes "https://a.example")) (trusted_origins deployed) then 1 else 0)
get_cors_origins_lem_example = get_cors_origins_lem deployed (codes "https://a.example")
