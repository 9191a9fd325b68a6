-- ===== src/Pathutil/Redaction.antt =====
-- redact_sensitive_query_params of app/services/pathutil.py: the query string of a path, before
-- the path is cut to the length of its column.
-- urllib's parse_qsl (with blank values kept) and urlencode are parameters.
use secure_api.Prelude.{
  ◌==◌, ◌≡◌, refl, sym, ◌⊎◌, inl, inr, Text, codes, teq, teq→eq, subst, Bool, false, not, ◌||◌,
  List, [], ◌∷◌, ◌++◌, map, any, arith, All, Bool-cases, if◌then◌else◌,
}
use secure_api.Pathutil.{Unicode, before_query}

pub record QueryCodec : Type 0 where
  pub parse_qsl : Text → List (Text × Text)
  pub urlencode : List (Text × Text) → Text

-- "?" in path
unfoldable pub has_query : Text → Bool
has_query [] = false
has_query (ch ∷ path) = ch == b'?' || has_query path

-- path.partition("?")[2]
unfoldable pub after_query : Text → Text
after_query [] = []
after_query (ch ∷ path) = let rest = after_query path in if ch == b'?' then path else rest

-- DEFAULT_SENSITIVE_QUERY_KEYS
abbrev pub sensitive_keys : List Text
sensitive_keys =
    codes "token"
    ∷ codes "access_token"
    ∷ codes "refresh_token"
    ∷ codes "id_token"
    ∷ codes "api_key"
    ∷ codes "apikey"
    ∷ codes "password"
    ∷ codes "passwd"
    ∷ codes "pwd"
    ∷ codes "secret"
    ∷ codes "client_secret"
    ∷ codes "auth"
    ∷ codes "session"
    ∷ codes "jwt"
    ∷ codes "key"
    ∷ []

abbrev pub redacted : Text
redacted = codes "REDACTED"

module _ (u : Unicode) (q : QueryCodec) where
  unfoldable pub is_sensitive : Text → Bool
  is_sensitive k = any (teq (u.lower k)) sensitive_keys

  abbrev pub redact_pair : Text × Text → Text × Text
  redact_pair (k, v) = (k, if is_sensitive k then redacted else v)

  unfoldable pub redact_sensitive_query_params : Text → Text
  unfolding has_query before_query after_query is_sensitive
  redact_sensitive_query_params path =
      let query = after_query path in
      let pairs = q.parse_qsl query in
      if not (has_query path)
      then path
      else if teq query []
      then path
      else if not (any (λ pair. is_sensitive pair.0) pairs)
      then path
      else before_query path ++ b'?' ∷ q.urlencode (map redact_pair pairs)

  -- a value that may be stored
  abbrev pub IsSafe : Text × Text → Type 0
  IsSafe (k, v) = (is_sensitive k ≡ false) ⊎ (v ≡ redacted)

  redact_pair-IsSafe : (pairs : List (Text × Text)) → All IsSafe (map redact_pair pairs)
  redact_pair-IsSafe [] = tt
  redact_pair-IsSafe ((k, v) ∷ pairs) = elim (Bool-cases (is_sensitive k)) [
    | inl secret ↦ (inr (rw secret refl), redact_pair-IsSafe pairs)
    | inr harmless ↦ (inl harmless, redact_pair-IsSafe pairs)
  ]

  IsSafe-of_none :
      (pairs : List (Text × Text))
      → any (λ pair. is_sensitive pair.0) pairs ≡ false
      → All IsSafe pairs
  IsSafe-of_none [] h = tt
  IsSafe-of_none ((k, v) ∷ pairs) h = elim (Bool-cases (is_sensitive k)) [
    | inl secret ↦ absurd (ground (arith, rw secret at h))
    | inr harmless ↦ (inl harmless, IsSafe-of_none pairs (rw harmless at h))
  ]

  after_query-before_query :
      (path rest : Text) → after_query (before_query path ++ b'?' ∷ rest) ≡ rest
  unfolding after_query before_query
  after_query-before_query [] rest = refl
  after_query-before_query (ch ∷ path) rest = elim (Bool-cases (ch == b'?')) [
    | inl mark ↦ rw mark refl
    | inr other ↦ rw (other, other) (after_query-before_query path rest)
  ]

  after_query_none : (path : Text) → has_query path ≡ false → after_query path ≡ []
  unfolding has_query after_query
  after_query_none [] h = refl
  after_query_none (ch ∷ path) h = ground (arith, after_query_none path)

  -- Where an empty query has no parameters, and decoding the encoded, redacted query gives its
  -- parameters, every parameter of the redacted path has a name that is not sensitive, in any case,
  -- or the marker in place of its value.
  pub redact_sensitive_query_params-IsSafe :
      (path : Text)
      → q.parse_qsl [] ≡ []
      → (let stored = map redact_pair (q.parse_qsl (after_query path)) in
          q.parse_qsl (q.urlencode stored) ≡ stored)
      → All IsSafe (q.parse_qsl (after_query (redact_sensitive_query_params path)))
  unfolding redact_sensitive_query_params
  redact_sensitive_query_params-IsSafe path nothing round_trip =
      let query = after_query path in
      let pairs = q.parse_qsl query in
      let nothing_stored : query ≡ [] → All IsSafe (q.parse_qsl query) = λ none_left.
        subst (λ t. All IsSafe (q.parse_qsl t)) (sym none_left)
          (subst (All IsSafe) (sym nothing) tt) in
      elim (Bool-cases (has_query path)) [
        | inr plain ↦ rw plain (nothing_stored (after_query_none path plain))
        | inl marked ↦ elim (Bool-cases (teq query [])) [
          | inl empty ↦ rw (marked, empty) (nothing_stored (teq→eq query [] empty))
          | inr full ↦ elim (Bool-cases (any (λ pair. is_sensitive pair.0) pairs)) [
            | inr harmless ↦ rw (marked, full, harmless) (IsSafe-of_none pairs harmless)
            | inl secret ↦
                rw (marked, full, secret)
                  (subst (λ t. All IsSafe (q.parse_qsl t))
                    (sym (after_query-before_query path (q.urlencode (map redact_pair pairs))))
                    (subst (All IsSafe) (sym round_trip) (redact_pair-IsSafe pairs)))
          ]
        ]
      ]
