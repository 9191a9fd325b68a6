-- ===== src/Deps/CurrentUser/Soundness.antt =====
-- Who a request is taken for, and on what evidence.
use secure_api.Prelude.{
  ℕ, ◌≡◌, refl, ◌⊎◌, inl, inr, Text, teq, teq→eq, true, not, ◌&&◌, Option, none, some, [], ◌∷◌,
  arith, str_eq, eq_iff, starts_with, Bool-cases, Option-cases,
}
use secure_api.Models.{User, ApiKey, Db}
use secure_api.Session.{Session, Error, crash, run, Result, ok, err, one_or_none-cases}
use secure_api.Session.Query.{select}
use secure_api.Security.{Crypto, Settings, Claims, hash_token, api_key_prefix}
use secure_api.Auth.Base.{active_named}
use secure_api.Deps.CurrentUser.{
  Caller, bearer, person, key_user, is_live_key, bearer_token, try_jwt, try_api_key, use_key,
  get_system_admin, system_admin, by_header, by_key, by_query, try_bearer, or_else, unauthorized,
  get_current_user,
}

module _ (c : Crypto) (cfg : Settings) (now : ℕ) where
  -- a live access token of an active user
  pub record ByToken (db : Db) (value : Text) (caller : Caller) : Type 0 where
    pub payload : Claims
    pub user : User
    pub decoded : c.jwt_decode now (bearer_token value) ≡ some payload
    pub kind-eq : payload.kind ≡ "access"
    pub found : select (active_named payload.sub) db.users ≡ user ∷ []
    pub caller-eq : caller ≡ person user

  -- an API key that is not revoked
  pub record ByApiKey (db : Db) (value : Text) (caller : Caller) : Type 0 where
    pub row : ApiKey
    pub found : select (is_live_key (hash_token c value)) db.api_keys ≡ row ∷ []
    pub caller-eq : caller ≡ key_user row

  -- the monitor's key, which stands for the system administrator
  pub record ByMonitorKey (db : Db) (value : Text) (caller : Caller) : Type 0 where
    pub user : User
    pub value-eq : value ≡ cfg.monitor_api_key
    pub found : select (active_named cfg.admin_username) db.users ≡ user ∷ []
    pub caller-eq : caller ≡ person user

  try_jwt-cases :
      (value : Text) (s : Session)
      → (try_jwt c cfg now value s ≡ (ok none, s))
        ⊎ ((u : User) × ByToken s.working value (person u)
            × (try_jwt c cfg now value s ≡ (ok (some (person u)), s)))
  unfolding try_jwt
  try_jwt-cases value s = elim (Option-cases (c.jwt_decode now (bearer_token value))) [
    | inl bad ↦ inl (rw bad)
    | inr (payload, decoded) ↦
        elim (Bool-cases (str_eq payload.kind "access" && not (str_eq payload.sub ""))) [
          | inr other ↦ inl (rw (decoded, other))
          | inl access ↦
              elim (one_or_none-cases (select (active_named payload.sub) s.working.users)) [
                | inl nobody ↦ inl (rw (decoded, access, nobody))
                | inr (inr many) ↦ inl (rw (decoded, access, many))
                | inr (inl (u, found)) ↦ inr (
                  u,
                  record {
                    payload = payload;
                    user = u;
                    decoded = decoded;
                    kind-eq = ground (arith, eq_iff payload.kind "access");
                    found = found;
                    caller-eq = refl;
                  },
                  rw (decoded, access, found),
                )
              ]
        ]
  ]

  -- an answer of a way to authenticate, other than an exception
  abbrev Known :
      (Db → Text → Caller → Type 0) → Text → Session → Result (Option Caller) × Session → Type 0
  Known By value s out =
      ((e : Error) × (out.0 ≡ err e))
      ⊎ (out ≡ (ok none, s))
      ⊎ ((caller : Caller) × By s.working value caller × (out.0 ≡ ok (some caller)))

  try_api_key-cases :
      (value : Text) (s : Session) → Known ByApiKey value s (try_api_key c cfg now value s)
  unfolding try_api_key use_key
  try_api_key-cases value s = elim (Bool-cases (starts_with api_key_prefix value)) [
    | inr other ↦ inr (inl (rw other))
    | inl prefixed ↦
        elim (one_or_none-cases (select (is_live_key (hash_token c value)) s.working.api_keys)) [
          | inl nobody ↦ inr (inl (rw (prefixed, nobody)))
          | inr (inr many) ↦ inl (crash, rw (prefixed, many))
          | inr (inl (row, found)) ↦ inr (
              inr (
                key_user row,
                record { row = row; found = found; caller-eq = refl },
                rw (prefixed, found),
              ))
        ]
  ]

  get_system_admin_sound :
      (value : Text) (s : Session) (caller : Caller)
      → teq value cfg.monitor_api_key ≡ true
      → (get_system_admin c cfg now s).0 ≡ ok caller
      → ByMonitorKey s.working value caller
  unfolding get_system_admin system_admin
  get_system_admin_sound value s caller same h =
      elim (one_or_none-cases (select (active_named cfg.admin_username) s.working.users)) [
        | inl nobody ↦ absurd (ground arith)
        | inr (inr many) ↦ absurd (ground arith)
        | inr (inl (u, found)) ↦ record {
          user = u;
          value-eq = teq→eq _ _ same;
          found = found;
          caller-eq = ground arith;
        }
      ]

  -- the evidence for a caller, and which header or parameter gave it
  pub data Identified (db : Db) (authorization x_monitor_key auth : Option Text) (caller : Caller)
      : Type 0 where
    bearer_header :
        (value : Text)
        → authorization ≡ some value
        → ByToken db value caller
        → Identified db authorization x_monitor_key auth caller
    monitor_header :
        (value : Text)
        → x_monitor_key ≡ some value
        → ByMonitorKey db value caller ⊎ ByApiKey db value caller
        → Identified db authorization x_monitor_key auth caller
    query_parameter :
        (value : Text)
        → auth ≡ some value
        → cfg.allow_query_auth ≡ true
        → ByMonitorKey db value caller ⊎ ByApiKey db value caller ⊎ ByToken db value caller
        → Identified db authorization x_monitor_key auth caller

  module _ (authorization x_monitor_key : Option Text) (db : Db) (caller : Caller) (s : Session)
      (same : s.working ≡ db) where
    by_query_sound :
        (auth : Option Text)
        → (by_query c cfg now auth s).0 ≡ ok caller
        → Identified db authorization x_monitor_key auth caller
    unfolding by_query or_else unauthorized try_bearer
    by_query_sound none h = absurd (ground arith)
    by_query_sound (some auth) h = elim (Bool-cases (not (teq auth []) && cfg.allow_query_auth)) [
      | inr closed ↦ absurd (ground arith)
      | inl open' ↦
          let allowed : cfg.allow_query_auth ≡ true = ground arith in
          elim (Bool-cases (teq auth cfg.monitor_api_key)) [
            | inl monitor ↦
                query_parameter auth refl allowed
                  (inl (rw (← same) (get_system_admin_sound auth s caller monitor (ground arith))))
            | inr other ↦ elim (try_api_key-cases auth s) [
              | inl (e, failed) ↦ absurd (ground arith)
              | inr (inr (found, key, answer)) ↦
                  let e : found ≡ caller = ground arith in
                  query_parameter auth refl allowed (inr (inl (rw (← same, ← e) key)))
              | inr (inl nothing) ↦ elim (Bool-cases (starts_with bearer auth)) [
                | inr plain ↦ absurd (ground arith)
                | inl prefixed ↦ elim (try_jwt-cases auth s) [
                  | inl refused ↦ absurd (ground arith)
                  | inr (u, token, answer) ↦
                      let e : person u ≡ caller = ground arith in
                      query_parameter auth refl allowed (inr (inr (rw (← same, ← e) token)))
                ]
              ]
            ]
          ]
    ]

    by_key_sound :
        (auth : Option Text)
        → (by_key c cfg now x_monitor_key auth s).0 ≡ ok caller
        → Identified db authorization x_monitor_key auth caller
    unfolding by_key or_else
    by_key_sound auth h = elim (Option-cases x_monitor_key) [
      | inl none' ↦ by_query_sound auth (ground arith)
      | inr (key, given) ↦ elim (Bool-cases (teq key [])) [
        | inl empty ↦ by_query_sound auth (ground arith)
        | inr full ↦ elim (Bool-cases (teq key cfg.monitor_api_key)) [
          | inl monitor ↦
              monitor_header key given
                (inl (rw (← same) (get_system_admin_sound key s caller monitor (ground arith))))
          | inr other ↦ elim (try_api_key-cases key s) [
            | inl (e, failed) ↦ absurd (ground arith)
            | inr (inr (found, evidence, answer)) ↦
                let e : found ≡ caller = ground arith in
                monitor_header key given (inr (rw (← same, ← e) evidence))
            | inr (inl nothing) ↦ by_query_sound auth (ground arith)
          ]
        ]
      ]
    ]

  -- A request is taken for a caller only on evidence that it carries itself: a token that decodes
  -- to an access token of the one active user it names, in its Authorization header; or the
  -- monitor's key, which stands for the active system administrator, or a live API key, which
  -- stands for its own organization and role, in its X-Monitor-Key header; or one of the three in
  -- its auth parameter, and then only if the settings allow it.
  pub get_current_user_sound :
      (authorization x_monitor_key auth : Option Text) (db : Db) (caller : Caller)
      → (run (get_current_user c cfg now authorization x_monitor_key auth) db).response ≡ ok caller
      → Identified db authorization x_monitor_key auth caller
  unfolding get_current_user by_header or_else
  get_current_user_sound authorization x_monitor_key auth db caller h =
      let s : Session = record { committed = db; working = db; stdout = [] } in
      elim (Option-cases authorization) [
        | inl absent ↦ by_key_sound authorization x_monitor_key db caller s refl auth (ground arith)
        | inr (value, given) ↦ elim (Bool-cases (teq value [])) [
          | inl empty ↦
              by_key_sound authorization x_monitor_key db caller s refl auth (ground arith)
          | inr full ↦ elim (try_jwt-cases value s) [
            | inl refused ↦
                by_key_sound authorization x_monitor_key db caller s refl auth (ground arith)
            | inr (u, token, answer) ↦
                let e : person u ≡ caller = ground arith in
                bearer_header value given (rw (← e) token)
          ]
        ]
      ]
