-- ===== src/Processing/Documented.antt =====
-- What processing one request leaves, by whether the request is documented.
use secure_api.Prelude.{
  ℕ, ◌-◌, ◌≡◌, refl, ◌∙◌, ◌⊎◌, inl, inr, Text, teq_refl, Bool, true, false, Option, none, some,
  List, [], ◌∷◌, ◌==◌, ◌&&◌, str_eq, not, any, ==_refl, arith, take, leb, any-append, Bool-cases,
  if◌then◌else◌,
}
use secure_api.Models.{Alert, Table}
use secure_api.Session.{Session, Error, Result, err, Result-cases, M, pure, commit, ◌>>=◌, ◌>>◌}
use secure_api.Session.Query.{insert_row}
use secure_api.Security.{hours}
use secure_api.Pathutil.{Unicode, is_documented, normalize_path_for_discovery}
use secure_api.Pathutil.Redaction.{QueryCodec}
use secure_api.Traffic.{TrafficEvent, TrafficStore}
use secure_api.Registry.{get_known_templates, upsert_discovered}
use secure_api.Alerts.{filter_by, recent_duplicate, new_alert, duplicates}
use secure_api.Processing.{
  CapturedRequest, alert_once, templates_or, process_single_event, upsert_shadow, when, event_of,
  stored_path,
}

leb_minus : (a b : ℕ) → leb (a - b) a ≡ true
leb_minus a b = ground arith

filter_by_refl : (t : Text) → filter_by (some t) (some t) ≡ true
filter_by_refl [] = refl
filter_by_refl (ch ∷ t) = teq_refl (ch ∷ t)

module _ (now org_id : ℕ) (method path : Text) (within_hours : ℕ) (event_id : Option ℕ) where
  -- the alerts after `alert_once`
  abbrev once : Table Alert → Table Alert
  once alerts =
      if recent_duplicate now org_id "undocumented_api" (some method) (some path) within_hours
        alerts
      then alerts
      else insert_row (new_alert now org_id "undocumented_api" "high" method path event_id) alerts

  recent_duplicate-once :
      (alerts : Table Alert)
      → recent_duplicate now org_id "undocumented_api"
          (some method)
          (some path)
          within_hours
          (once alerts)
        ≡ true
  recent_duplicate-once alerts =
      elim (Bool-cases (
        recent_duplicate now org_id "undocumented_api" (some method) (some path) within_hours
          alerts)) [
            | inl reported ↦ rw (reported, reported) refl
            | inr unreported ↦
                let fresh : duplicates now org_id "undocumented_api" (some method) (some path)
                      within_hours
                      (new_alert now org_id "undocumented_api" "high" method path event_id
                        alerts.next_id)
                    ≡ true =
                  ground (
                    arith,
                    ==_refl org_id,
                    leb_minus now (hours within_hours),
                    filter_by_refl method,
                    filter_by_refl path,
                  ) in
                rw unreported (
                  any-append
                    (duplicates now org_id "undocumented_api" (some method) (some path)
                      within_hours)
                    alerts.rows
                    (new_alert now org_id "undocumented_api" "high" method path event_id
                        alerts.next_id
                      ∷ [])
                  ∙ ground (arith, fresh))
          ]

-- a run that fails, or ends in a session with a property
FailsOr : {A : Type 0} → (Session → Type 0) → Result A × Session → Type 0
FailsOr P out = ((e : Error) × (out.0 ≡ err e)) ⊎ P out.1

-- what follows a step decides
FailsOr-bind :
    {A B : Type 0} (P : Session → Type 0) (m : M A) (k : A → M B) (s : Session)
    → ((a : A) (s' : Session) → FailsOr P (k a s'))
    → FailsOr P ((m >>= k) s)
unfolding FailsOr
FailsOr-bind P m k s after = elim (Result-cases (m s).0) [
  | inl (e, failed) ↦ inl (e, rw failed refl)
  | inr (a, went) ↦ rw went (after a (m s).1)
]

module _ {F : Type 0} (u : Unicode) (q : QueryCodec) (now org_id : ℕ)
    (scored : TrafficEvent F → Bool) (given : Option (List (Text × Text))) (commits : Bool)
    (r : CapturedRequest F) (store : TrafficStore F) where
  abbrev templates : Session → List (Text × Text)
  templates s = templates_or (get_known_templates org_id s.working) given

  abbrev Reported : Session → Type 0
  Reported s =
      recent_duplicate now org_id "undocumented_api" (some (u.upper r.method))
        (some (take 1024 (normalize_path_for_discovery u r.path))) 6 s.working.alerts
      ≡ true

  abbrev last_steps : M (TrafficStore F)
  last_steps = do
    alert_once now org_id "undocumented_api" "high" (u.upper r.method)
        (take 1024 (normalize_path_for_discovery u r.path)) 6 none
    when commits commit
    pure (record store { events = insert_row (event_of u q now org_id r false) store.events })

  abbrev shadowing : M (TrafficStore F)
  shadowing = upsert_shadow u q now org_id r >> last_steps

  abbrev discovering : M (TrafficStore F)
  discovering =
      upsert_discovered u now org_id (u.upper r.method) (normalize_path_for_discovery u r.path)
        false
      >> shadowing

  abbrev scoring : Session → M (Unit {0})
  scoring s =
      let event = event_of u q now org_id r false store.events.next_id in
      when (scored event) (
        alert_once now org_id "traffic_anomaly" "medium" (u.upper r.method)
          (stored_path u q now org_id r) 1 (some event.id))

  ended : (s : Session) → FailsOr Reported (last_steps s)
  unfolding FailsOr
  ended s =
      let reported =
        recent_duplicate-once now org_id (u.upper r.method)
          (take 1024 (normalize_path_for_discovery u r.path)) 6 none s.working.alerts in
      elim (Bool-cases commits) [
        | inl yes' ↦ rw yes' (inr reported)
        | inr no' ↦ rw no' (inr reported)
      ]

  -- Processing a request that no template documents either fails or leaves an open alert on
  -- its method and normalised path that is at most six hours old.
  pub process_single_event-undocumented :
      (s : Session)
      → is_documented u r.method r.path (templates s) ≡ false
      → let out = process_single_event u q now org_id scored given commits r store s in
        ((e : Error) × (out.0 ≡ err e))
        ⊎ (any
              (λ a.
                a.org_id == org_id
                && str_eq a.alert_type "undocumented_api"
                && leb (now - hours 6) a.created_at
                && not a.acknowledged
                && filter_by (some (u.upper r.method)) a.method
                && filter_by (some (take 1024 (normalize_path_for_discovery u r.path))) a.path)
              out.1.working.alerts.rows
            ≡ true)
  unfolding process_single_event FailsOr
  process_single_event-undocumented s undocumented = rw undocumented (
      FailsOr-bind Reported (scoring s) (λ _. discovering) s
        (λ _ s1.
          FailsOr-bind Reported
            (upsert_discovered u now org_id (u.upper r.method)
              (normalize_path_for_discovery u r.path) false)
            (λ _. shadowing) s1
            (λ _ s2.
              FailsOr-bind Reported (upsert_shadow u q now org_id r) (λ _. last_steps) s2
                (λ _ s3. ended s3))))
