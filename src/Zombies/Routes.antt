-- ===== src/Zombies/Routes.antt =====
-- app/routers/zombie.py: an editor retires an endpoint, or takes it back into use.
use secure_api.Prelude.{ℕ, ◌==◌, String, ◌&&◌, Option, none, some, List, [], ◌∷◌, true, false}
use secure_api.Models.{User, ZombieEndpointState, retired_status, text, endpoint_target}
use secure_api.Session.{
  http, M, Request, pure, raise, gets, lift, modify, commit, log_audit_event, one_or_none, ◌>>=◌,
  ◌>>◌,
}
use secure_api.Session.Query.{select, update_rows}
use secure_api.Pathutil.{Unicode}
use secure_api.Discovery.{ZombieSettings}
use secure_api.Traffic.{TrafficEvent}
use secure_api.Zombies.{recompute_single_zombie_state}

module _ (now org_id : ℕ) where
  abbrev or_no_state : Option ZombieEndpointState → M ZombieEndpointState
  or_no_state none = raise (http 404 "Zombie endpoint state not found")
  or_no_state (some row) = pure row

  abbrev find_state : ℕ → M ZombieEndpointState
  find_state state_id = do
    rows ← gets (λ db. select (λ s. s.id == state_id && s.org_id == org_id) db.zombie_states)
    found ← lift (one_or_none rows)
    or_no_state found

  abbrev change_state :
      ZombieEndpointState → (ZombieEndpointState → ZombieEndpointState) → M (Unit {0})
  change_state row f =
      modify
        (λ db. record db { zombie_states = update_rows (λ s. s.id == row.id) f db.zombie_states })

  unfoldable pub retire_zombie : Request → User → (state_id : ℕ) → (reason : String) → M (Unit {0})
  retire_zombie request current_user state_id reason = do
    row ← find_state state_id
    change_state row (λ s. record s {
      retired = true;
      retire_reason = some reason;
      retired_at = some now;
      status = retired_status;
    })
    commit
    log_audit_event now request "zombie_retired" current_user.username
        (some (endpoint_target row.method row.path_template)) true (("reason", text reason) ∷ [])

  unfoldable pub reactivate_zombie :
      {F : Type 0}
      → Unicode
      → ZombieSettings
      → List (TrafficEvent F)
      → Request
      → User
      → (state_id : ℕ) → M (Unit {0})
  unfolding recompute_single_zombie_state
  reactivate_zombie u cfg events request current_user state_id = do
    row ← find_state state_id
    change_state row (λ s. record s { retired = false; retire_reason = none; retired_at = none })
    recompute_single_zombie_state u cfg now events row
    log_audit_event now request "zombie_reactivated" current_user.username
        (some (endpoint_target row.method row.path_template)) true []
