-- ===== src/Startup/Secrets.antt =====
-- With which settings the program starts.
use secure_api.Prelude.{
  ◌≤◌, ◌≡◌, ◌↔◌, ◌⊎◌, refl, sym, ap, subst, Option, some, codes, Bool, true, false, not, ◌&&◌, none,
  String, [], ◌∷◌, ◌++◌, arith, length, ltb, Text, strip, starts_with, Bool-cases, inl, inr,
}
use secure_api.Pathutil.{is_nonempty}
use secure_api.Security.Passwords.{missing, error_message}
use secure_api.Startup.{
  StartSettings, Environment, Drawn, or_default, is_given, settings_of, is_production, placeholder,
  either_missing, production_errors, validate_security_settings,
}

-- What the settings have to hold in production.
record IsSecure (s : StartSettings) : Type 0 where
  database : s.database_url_set && is_nonempty (strip s.database_url) ≡ true
  monitor : is_nonempty s.monitor_api_key ≡ true
  key_long : 32 ≤ length s.secret_key
  key_own : starts_with placeholder s.secret_key ≡ false
  admin : is_nonempty s.admin_username ≡ true
  password : is_nonempty s.admin_password ≡ true
  password_own : starts_with placeholder s.admin_password ≡ false

none-errors :
    (a b c d e f g : Bool) (m n o p q r t : String)
    → (error_message (
          missing a m
          ++ missing b n
          ++ either_missing c o (not d) p
          ++ missing e q
          ++ either_missing f r (not g) t)
        ≡ none)
      ↔ ((a ≡ true) × (b ≡ true) × (c ≡ true) × (d ≡ false) × (e ≡ true) × (f ≡ true) × (g ≡ false))
none-errors a b c d e f g m n o p q r t = ground arith

long_key : (t : Text) → (is_nonempty t && not (ltb (length t) 32) ≡ true) ↔ (32 ≤ length t)
long_key [] = ground arith
long_key (c ∷ t) = ground arith

validate_settings_iff :
    (s : StartSettings)
    → (validate_security_settings s ≡ none) ↔ ((is_production s ≡ false) ⊎ IsSecure s)
unfolding validate_security_settings production_errors
validate_settings_iff s = elim (Bool-cases (is_production s)) [
  | inr elsewhere ↦ rw elsewhere (λ h. inl refl, λ h. refl)
  | inl production ↦
      let tests =
        none-errors (s.database_url_set && is_nonempty (strip s.database_url))
          (is_nonempty s.monitor_api_key)
          (is_nonempty s.secret_key && not (ltb (length s.secret_key) 32))
          (starts_with placeholder s.secret_key) (is_nonempty s.admin_username)
          (is_nonempty s.admin_password) (starts_with placeholder s.admin_password) _ _ _ _ _ _ _ in
      let long = long_key s.secret_key in
      rw production (
        λ h.
            let (database, monitor, key, own, admin, password, own') = tests.0 h in
            inr (record {
              database = database;
              monitor = monitor;
              key_long = long.0 key;
              key_own = own;
              admin = admin;
              password = password;
              password_own = own';
            }),
        λ h. elim h [
          | inl impossible ↦ absurd (ground arith)
          | inr given ↦ tests.1 (
            given.database,
            given.monitor,
            long.1 given.key_long,
            given.key_own,
            given.admin,
            given.password,
            given.password_own,
          )
        ],
      )
]

-- a value is absent, or it is one of these
pub data IfGiven (P : Text → Type 0) (field : Option Text) : Type 0 where
  absent : field ≡ none → IfGiven P field
  given : (value : Text) → field ≡ some value → P value → IfGiven P field

-- a secret key that may be used
abbrev pub IsProperKey : Text → Type 0
IsProperKey value = (32 ≤ length value) × (starts_with placeholder value ≡ false)

abbrev pub IsProperPassword : Text → Type 0
IsProperPassword value = (is_nonempty value ≡ true) × (starts_with placeholder value ≡ false)

-- What the environment of a production deployment holds.
pub record IsDeployable (env : Environment) : Type 0 where
  pub database_url : Text
  pub database : env.database_url ≡ some database_url
  pub not_blank : is_nonempty (strip database_url) ≡ true
  pub monitor : IfGiven (λ value. is_nonempty value ≡ true) env.monitor_api_key
  pub key : IfGiven IsProperKey env.secret_key
  pub admin : IfGiven (λ value. is_nonempty value ≡ true) env.admin_username
  pub password : IfGiven IsProperPassword env.admin_password

-- the default has the property
or_default_iff :
    (P : Text → Type 0) (field : Option Text) (default : Text)
    → P default
    → P (or_default field default) ↔ IfGiven P field
or_default_iff P none default ok = (λ h. absent refl, λ h. ok)
or_default_iff P (some value) default ok = (λ h. given value refl h, back)
  where
    back : IfGiven P (some value) → P value
    back (absent e) = absurd (ground arith)
    back (given v e h) = subst P (sym (ap (λ o. or_default o []) e)) h

the_url :
    (field : Option Text)
    → is_given field && is_nonempty (strip (or_default field (codes "sqlite:///./apimonitor.db")))
      ≡ true
    → (url : Text) × (field ≡ some url) × (is_nonempty (strip url) ≡ true)
the_url none h = absurd (ground arith)
the_url (some url) h = (url, refl, ground arith)

module _ (env : Environment) (drawn : Drawn) (monitor : is_nonempty drawn.monitor_api_key ≡ true)
    (key : IsProperKey drawn.secret_key) (password : IsProperPassword drawn.admin_password) where
  deployable : IsSecure (settings_of env drawn) → IsDeployable env
  deployable h =
      let (url, given_url, filled) = the_url env.database_url h.database in
      record {
        database_url = url;
        database = given_url;
        not_blank = filled;
        monitor = (or_default_iff _ env.monitor_api_key _ monitor).0 h.monitor;
        key = (or_default_iff IsProperKey env.secret_key _ key).0 (h.key_long, h.key_own);
        admin = (or_default_iff _ env.admin_username _ refl).0 h.admin;
        password =
            (or_default_iff IsProperPassword env.admin_password _ password).0
              (h.password, h.password_own);
      }

  secure : IsDeployable env → IsSecure (settings_of env drawn)
  secure d =
      let proper_key = (or_default_iff IsProperKey env.secret_key _ key).1 d.key in
      let proper_password =
        (or_default_iff IsProperPassword env.admin_password _ password).1 d.password in
      record {
        database = rw d.database d.not_blank;
        monitor = (or_default_iff _ env.monitor_api_key _ monitor).1 d.monitor;
        key_long = proper_key.0;
        key_own = proper_key.1;
        admin = (or_default_iff _ env.admin_username _ refl).1 d.admin;
        password = proper_password.0;
        password_own = proper_password.1;
      }

  -- Where the secrets that the default factories draw are proper ones, the program starts exactly
  -- when it is not in production, or its environment gives a database that is not blank, and what the
  -- environment gives for the monitor's key, the secret key and the administrator's name and
  -- password is not empty, is 32 characters long at least for the secret key, and does not begin like
  -- the placeholder for the secret key and the password. A secret that the environment does not give
  -- at all is no obstacle: the one that is drawn passes.
  pub validate_security_settings_iff :
      (validate_security_settings (settings_of env drawn) ≡ none)
      ↔ ((is_production (settings_of env drawn) ≡ false) ⊎ IsDeployable env)
  validate_security_settings_iff =
      let checked = validate_settings_iff (settings_of env drawn) in
      (
        λ h. elim (checked.0 h) [
          | inl elsewhere ↦ inl elsewhere
          | inr proper ↦ inr (deployable proper)
        ],
        λ h. elim h [
          | inl elsewhere ↦ checked.1 (inl elsewhere)
          | inr fine ↦ checked.1 (inr (secure fine))
        ],
      )
