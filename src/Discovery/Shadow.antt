-- ===== src/Discovery/Shadow.antt =====
-- What the record of undocumented endpoints holds after a request.
use secure_api.Prelude.{
  ℕ, ◌≤◌, ◌==◌, ◌≡◌, refl, ◌∙◌, inl, inr, ◌⊎◌, Text, teq_refl, Bool, false, ◌+◌, Option, none, some,
  List, [], ◌∷◌, ◌++◌, arith, length, All, All-append, keep-append, length-take_last-le, ==_refl,
  Bool-cases, String,
}
use secure_api.Models.{ShadowEndpoint, Table}
use secure_api.Session.{ok, err, crash, one_or_none-cases, one_or_none-many}
use secure_api.Session.Query.{select, update_where, update_rows, insert_row, keep-update_where}
use secure_api.Pathutil.{Unicode, normalize_path_for_discovery}
use secure_api.Discovery.{
  is_shadow, new_shadow, seen_again, upsert_shadow_endpoint, first_ip, with_ip,
}

-- at most ten addresses and twenty-five events are kept
pub record IsBounded (s : ShadowEndpoint) : Type 0 where
  pub ips : length s.sample_ips ≤ 10
  pub events : length s.recent_events ≤ 25

-- a row of one request, which nobody has acknowledged
pub record IsFirstSight (now status_code : ℕ) (row : ShadowEndpoint) : Type 0 where
  pub hit_count : row.hit_count ≡ 1
  pub recent_events : row.recent_events ≡ (now, status_code) ∷ []
  pub acknowledged : row.acknowledged ≡ false

-- the same row after one more request
pub record IsNextSight (now : ℕ) (row row' : ShadowEndpoint) : Type 0 where
  pub same : row'.id ≡ row.id
  pub hit_count : row'.hit_count ≡ row.hit_count + 1
  pub first_seen : row'.first_seen ≡ row.first_seen
  pub last_seen : row'.last_seen ≡ now
  pub acknowledged : row'.acknowledged ≡ row.acknowledged

first_ip-le : (ip : Option String) → length (first_ip ip) ≤ 10
first_ip-le none = ground arith
first_ip-le (some ip) = ground arith

module _ (u : Unicode) (now org_id : ℕ) (method path : Text) (client_ip : Option String)
    (auth_present : Bool) (status_code : ℕ) where
  abbrev again : ShadowEndpoint → ShadowEndpoint
  again = seen_again u now org_id method path client_ip auth_present status_code

  abbrev shadow_of : ShadowEndpoint → Bool
  shadow_of = is_shadow u now org_id method path client_ip auth_present status_code

  abbrev created : ℕ → ShadowEndpoint
  created = new_shadow u now org_id method path client_ip auth_present status_code

  again-IsBounded : (row : ShadowEndpoint) → IsBounded (again row)
  again-IsBounded row = record {
    ips = length-take_last-le 10 (with_ip client_ip row.sample_ips);
    events = length-take_last-le 25 (row.recent_events ++ (now, status_code) ∷ []);
  }

  All-seen_again :
      (p : ShadowEndpoint → Bool) (rows : List ShadowEndpoint)
      → All IsBounded rows
      → All IsBounded (update_where p again rows)
  unfolding update_where
  All-seen_again p [] h = tt
  All-seen_again p (row ∷ rows) (h, hs) = elim (Bool-cases (p row)) [
    | inl hit ↦ rw hit (again-IsBounded row, All-seen_again p rows hs)
    | inr miss ↦ rw miss (h, All-seen_again p rows hs)
  ]

  -- Recording a request keeps every row of the table within ten addresses and twenty-five events.
  pub upsert_shadow_endpoint-IsBounded :
      (t t' : Table ShadowEndpoint)
      → All IsBounded t.rows
      → upsert_shadow_endpoint u now org_id method path client_ip auth_present status_code t ≡ ok t'
      → All IsBounded t'.rows
  unfolding upsert_shadow_endpoint
  upsert_shadow_endpoint-IsBounded t t' h done = elim (one_or_none-cases (select shadow_of t)) [
    | inl nothing ↦
        let e : t'.rows ≡ t.rows ++ created t.next_id ∷ [] = ground arith in
        rw e (
          All-append IsBounded t.rows (created t.next_id ∷ []) h
            (record { ips = first_ip-le client_ip; events = ground arith }, tt))
    | inr (inr many) ↦ absurd (ground arith)
    | inr (inl (row, found)) ↦
        let e : t'.rows ≡ update_where (λ s. s.id == row.id) again t.rows = ground arith in
        rw e (All-seen_again (λ s. s.id == row.id) t.rows h)
  ]

  -- A request to an endpoint that no row records adds the one row that does, with a count of 1, the
  -- request as its only event, and not acknowledged; where one row records it, one row does so
  -- afterwards, and it is that row, seen last at this time, with the count one higher, and
  -- acknowledged or not as it was; and it is an error only if two rows or more record it.
  pub upsert_shadow_endpoint_effect :
      (t : Table ShadowEndpoint)
      → let out =
          upsert_shadow_endpoint u now org_id method path client_ip auth_present status_code t in
        ((2 ≤ length (select shadow_of t)) × (out ≡ err crash))
        ⊎ ((t' : Table ShadowEndpoint) × (out ≡ ok t')
            × (((select shadow_of t ≡ [])
                  × (select shadow_of t' ≡ created t.next_id ∷ [])
                  × IsFirstSight now status_code (created t.next_id))
                ⊎ ((row : ShadowEndpoint) × (select shadow_of t ≡ row ∷ [])
                    × (select shadow_of t' ≡ again row ∷ [])
                    × IsNextSight now row (again row))))
  unfolding upsert_shadow_endpoint
  upsert_shadow_endpoint_effect t = elim (one_or_none-cases (select shadow_of t)) [
    | inl nothing ↦ inr (
      insert_row created t,
      rw nothing,
      inl (
        nothing,
        keep-append shadow_of t.rows (created t.next_id ∷ [])
            ∙ (rw
                (nothing, ==_refl, teq_refl method, teq_refl (normalize_path_for_discovery u path))
                refl),
        record { hit_count = refl; recent_events = refl; acknowledged = refl },
      ),
    )
    | inr (inr many) ↦ inl (one_or_none-many (select shadow_of t) many, rw many)
    | inr (inl (row, found)) ↦ inr (
      update_rows (λ s. s.id == row.id) again t,
      rw found,
      inr (
        row,
        found,
        keep-update_where shadow_of (λ s. s.id == row.id) again t.rows (λ s. refl)
            ∙ (rw found (unfold update_where in rw ==_refl)),
        record {
          same = refl;
          hit_count = refl;
          first_seen = refl;
          last_seen = refl;
          acknowledged = refl;
        },
      ),
    )
  ]
