-- ===== src/Scenarios/Routing.antt =====
-- The theorems on paths and on the election of a leader, applied.
use secure_api.Prelude.{
  ℕ, ◌+◌, ◌<◌, ◌≤◌, ◌≡◌, ◌↔◌, refl, Text, codes, teq, String, Bool, true, false, ◌&&◌, Option, none,
  some, List, [], ◌∷◌, leb, ltb, arith, All, Some, if◌then◌else◌,
}
use secure_api.Pathutil.{
  Unicode, with_slash, normalize_path_for_discovery, path_matches_template, is_documented,
}
use secure_api.Pathutil.Markers.{IsSegment}
use secure_api.Pathutil.Normalize.{normalize_path_for_discovery_idem}
use secure_api.Pathutil.Matching.{
  Documents, normalize_path_for_discovery-matches, is_documented_iff,
}
use secure_api.Leader.{Redis, answered, attempt, tick}
use secure_api.Leader.Safety.{IsRedis}
use secure_api.Leader.Cluster.{Cluster, Reachable, initial, step, ticks, after, replica, one_leader}

-- letters as they are, ASCII digits
abbrev unicode : Unicode
unicode = record { lower = λ t. t; upper = λ t. t; is_decimal = λ ch. leb b'0' ch && leb ch b'9' }

abbrev path : Text
path = codes "/users/42?page=1"

normalize_path_for_discovery_idem_example :
    normalize_path_for_discovery unicode (normalize_path_for_discovery unicode path)
    ≡ normalize_path_for_discovery unicode path
normalize_path_for_discovery_idem_example =
    normalize_path_for_discovery_idem unicode path (ground arith)

abbrev pub parts : List Text
parts = codes "users" ∷ codes "42" ∷ []

users-IsSegment : IsSegment (codes "users")
unfolding teq
users-IsSegment = record { nonempty = refl; no_slash = refl; no_query = refl }

number-IsSegment : IsSegment (codes "42")
unfolding teq
number-IsSegment = record { nonempty = refl; no_slash = refl; no_query = refl }

pub parts-IsSegment : All IsSegment parts
parts-IsSegment = (users-IsSegment, (number-IsSegment, tt))

normalize_path_for_discovery-matches_example :
    path_matches_template
      (with_slash parts)
      (normalize_path_for_discovery unicode (with_slash parts))
    ≡ true
normalize_path_for_discovery-matches_example =
    normalize_path_for_discovery-matches unicode parts parts-IsSegment

is_documented_iff_example :
    (is_documented unicode (codes "GET") path ((codes "GET", codes "/users/{id}") ∷ []) ≡ true)
    ↔ Some (Documents unicode (codes "GET") path) ((codes "GET", codes "/users/{id}") ∷ [])
is_documented_iff_example =
    is_documented_iff unicode (codes "GET") path ((codes "GET", codes "/users/{id}") ∷ [])

-- a store of the key, its value and the end of its life
abbrev Store : Type 0
Store = Option (String × ℕ)

abbrev read : ℕ → Store → Option String
read now none = none
read now (some (id, until)) = if ltb now until then some id else none

abbrev put : Option String → ℕ → String → ℕ → Store → Bool × Store
put none now id ttl s = (true, some (id, now + ttl))
put (some other) now id ttl s = (false, s)

abbrev prolong : ℕ → ℕ → Store → Store
prolong now ttl none = none
prolong now ttl (some (id, until)) = if ltb now until then some (id, now + ttl) else none

abbrev redis : Redis Store
redis = record {
  get = read;
  set_nx_px = λ now id ttl s. put (read now s) now id ttl s;
  pexpire = prolong;
  del = λ s. none;
}

prolong_held :
    (now ttl : ℕ) (id : String) (s : Store)
    → read now s ≡ some id
    → (t : ℕ) → now ≤ t
    → t < now + ttl
    → read t (prolong now ttl s) ≡ some id
prolong_held now ttl id none h t after before = absurd (ground arith)
prolong_held now ttl id (some (other, until)) h t after before = ground arith

redis-IsRedis : IsRedis redis
redis-IsRedis = record {
  set_held = λ now ttl id other s h. rw h;
  set_free = λ now ttl id s h t after before. rw h (ground arith);
  pexpire_held = prolong_held;
}

abbrev asleep : Cluster Store
asleep = record { store = none; now = 0; leads = λ id. false; since = λ id. 0 }

-- the first replica has asked for the key
abbrev first : String
first = "first"

abbrev led : Cluster Store
led = after asleep first 1 (tick redis answered 1 (replica asleep first) asleep.store)

led-Reachable : Reachable redis led
led-Reachable = step (initial asleep (λ id. refl)) (ticks first answered 1 (ground arith))

one_leader_example : first ≡ first
unfolding tick attempt
one_leader_example =
    one_leader redis redis-IsRedis led-Reachable first first refl refl (ground arith) (ground arith)
