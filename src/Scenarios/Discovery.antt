-- ===== src/Scenarios/Discovery.antt =====
-- The theorems on undocumented endpoints, applied.
use secure_api.Prelude.{◌≤◌, length, ◌≡◌, ◌⊎◌, refl, codes, true, some, [], ◌∷◌, ◌&&◌, leb, All}
use secure_api.Models.{ShadowEndpoint, Table}
use secure_api.Session.{ok, err, crash}
use secure_api.Session.Query.{select}
use secure_api.Pathutil.{Unicode}
use secure_api.Discovery.{is_shadow, new_shadow, seen_again, upsert_shadow_endpoint, ZombieSettings}
use secure_api.Discovery.Shadow.{
  IsBounded, IsFirstSight, IsNextSight, upsert_shadow_endpoint-IsBounded,
  upsert_shadow_endpoint_effect,
}

abbrev pub ascii : Unicode
ascii = record { lower = λ t. t; upper = λ t. t; is_decimal = λ ch. leb b'0' ch && leb ch b'9' }

abbrev nothing_seen : Table ShadowEndpoint
nothing_seen = record { rows = []; next_id = 1 }

abbrev seen : Table ShadowEndpoint
seen = record {
  rows = new_shadow ascii 50 1 (codes "GET") (codes "/users/42") (some "10.0.0.1") true 200 1 ∷ [];
  next_id = 2;
}

upsert_shadow_endpoint-IsBounded_example : All IsBounded seen.rows
unfolding upsert_shadow_endpoint
upsert_shadow_endpoint-IsBounded_example =
    upsert_shadow_endpoint-IsBounded ascii 50 1 (codes "GET") (codes "/users/42") (some "10.0.0.1")
      true 200 nothing_seen seen tt refl

upsert_shadow_endpoint_effect_example :
    let out =
      upsert_shadow_endpoint ascii 60 1
        (codes "GET")
        (codes "/users/43")
        (some "10.0.0.2")
        true
        200
        seen in
    let shadow_of =
      is_shadow ascii 60 1 (codes "GET") (codes "/users/43") (some "10.0.0.2") true 200 in
    ((2 ≤ length (select shadow_of seen)) × (out ≡ err crash))
    ⊎ ((t' : Table ShadowEndpoint) × (out ≡ ok t')
        × (((select shadow_of seen ≡ [])
              × (select shadow_of t'
                  ≡ new_shadow ascii 60 1
                      (codes "GET")
                      (codes "/users/43")
                      (some "10.0.0.2")
                      true
                      200
                      2
                    ∷ [])
              × IsFirstSight 60 200 (
                  new_shadow ascii 60 1
                    (codes "GET")
                    (codes "/users/43")
                    (some "10.0.0.2")
                    true
                    200
                    2))
            ⊎ ((row : ShadowEndpoint) × (select shadow_of seen ≡ row ∷ [])
                × (select shadow_of t'
                    ≡ seen_again ascii 60 1
                        (codes "GET")
                        (codes "/users/43")
                        (some "10.0.0.2")
                        true
                        200
                        row
                      ∷ [])
                × IsNextSight 60 row (
                    seen_again ascii 60 1
                      (codes "GET")
                      (codes "/users/43")
                      (some "10.0.0.2")
                      true
                      200
                      row))))
upsert_shadow_endpoint_effect_example =
    upsert_shadow_endpoint_effect ascii 60 1 (codes "GET") (codes "/users/43") (some "10.0.0.2")
      true 200 seen

abbrev pub zombie_settings : ZombieSettings
zombie_settings = record {
  dead_threshold_days = 30;
  idle_threshold_days = 14;
  window_days = 30;
  low_requests = 1;
  low_days = 1;
}
