-- ===== src/Models.antt =====
-- app/models.py: the rows of the tables, and the database that holds them. A `DateTime` is a number
-- of microseconds. Columns that hold text which the program takes apart are `Text`.
use secure_api.Prelude.{ℕ, String, Text, Bool, Option, List}

-- a JSON value, as far as audit details and evidence use them
pub data Detail : Type 0 where
  text : String → Detail
  number : ℕ → Detail
  flag : Bool → Detail
  texts : List String → Detail

-- the target of an audit record: the format strings of the handlers, with what they print
pub data Target : Type 0 where
  named : String → Target
  titled : Text → Target
  user_target : ℕ → Target
  org_target : ℕ → Target
  org_user_target : ℕ → ℕ → Target
  api_key_target : ℕ → Target
  ml_model_target : ℕ → Target
  alert_target : String → ℕ → Target
  endpoint_target : Text → Text → Target

pub record Organization : Type 0 where
  pub id : ℕ
  pub name : String
  pub slug : Text
  pub owner_user_id : ℕ
  pub created_at : ℕ

pub record OrgMembership : Type 0 where
  pub id : ℕ
  pub user_id : ℕ
  pub org_id : ℕ
  pub role : String
  pub status : String
  pub created_at : ℕ
  pub decided_at : Option ℕ

pub record KnownEndpoint : Type 0 where
  pub id : ℕ
  pub org_id : ℕ
  pub method : Text
  pub path_template : Text
  pub source : String
  pub created_at : ℕ
  pub last_traffic_at : Option ℕ

pub record User : Type 0 where
  pub id : ℕ
  pub username : String
  pub email : Option String
  pub password_hash : String
  pub role : String
  pub is_active : Bool
  pub created_at : ℕ
  pub failed_login_count : ℕ
  pub locked_until : Option ℕ
  pub mfa_secret : Option String
  pub mfa_enabled : Bool

-- `token` is the digest, never the token
pub record RefreshToken : Type 0 where
  pub id : ℕ
  pub user_id : ℕ
  pub token : String
  pub expires_at : ℕ
  pub revoked : Bool
  pub created_at : ℕ

pub record ApiKey : Type 0 where
  pub id : ℕ
  pub org_id : ℕ
  pub name : String
  pub key_hash : String
  pub key_prefix : Text
  pub role : String
  pub created_by : ℕ
  pub created_at : ℕ
  pub last_used_at : Option ℕ
  pub revoked : Bool
  pub revoked_at : Option ℕ

pub record PasswordResetToken : Type 0 where
  pub id : ℕ
  pub user_id : ℕ
  pub token : String
  pub expires_at : ℕ
  pub used : Bool
  pub created_at : ℕ

pub record AuditLog : Type 0 where
  pub event_type : String
  pub actor : String
  pub target : Option Target
  pub ip : Option String
  pub user_agent : Option String
  pub timestamp : ℕ
  pub details : List (String × Detail)
  pub success : Bool

-- `recent_events` is the only key of `evidence`
pub record ShadowEndpoint : Type 0 where
  pub id : ℕ
  pub org_id : ℕ
  pub method : Text
  pub path_normalized : Text
  pub first_seen : ℕ
  pub last_seen : ℕ
  pub hit_count : ℕ
  pub risk_score : ℕ
  pub risk_level : String
  pub sample_ips : List String
  pub recent_events : List (ℕ × ℕ)
  pub acknowledged : Bool
  pub acknowledged_reason : Option String
  pub acknowledged_at : Option ℕ

pub record DiscoveredEndpoint : Type 0 where
  pub id : ℕ
  pub org_id : ℕ
  pub method : Text
  pub path_normalized : Text
  pub first_seen : ℕ
  pub last_seen : ℕ
  pub hit_count : ℕ
  pub documented : Bool

pub data ZombieStatus : Type 0 where
  active : ZombieStatus
  declining : ZombieStatus
  idle : ZombieStatus
  zombie : ZombieStatus
  dead : ZombieStatus
  retired_status : ZombieStatus

-- `avg_daily_requests_30d` is `requests_30d` / max(1, zombie_window_days)
pub record ZombieEndpointState : Type 0 where
  pub id : ℕ
  pub org_id : ℕ
  pub method : Text
  pub path_template : Text
  pub last_request_at : Option ℕ
  pub requests_7d : ℕ
  pub requests_14d : ℕ
  pub requests_30d : ℕ
  pub status : ZombieStatus
  pub risk_level : String
  pub retired : Bool
  pub retire_reason : Option String
  pub retired_at : Option ℕ

-- without the texts that only people read (title, detail, explanation)
pub record Alert : Type 0 where
  pub id : ℕ
  pub org_id : ℕ
  pub created_at : ℕ
  pub alert_type : String
  pub severity : String
  pub method : Option Text
  pub path : Option Text
  pub acknowledged : Bool
  pub event_id : Option ℕ
  pub feedback : Option String
  pub feedback_at : Option ℕ

pub record MlModelState : Type 0 where
  pub id : ℕ
  pub org_id : ℕ
  pub updated_at : ℕ
  pub sklearn_version : Text
  pub blob : Text
  pub is_active : Bool
  pub sample_count : ℕ

-- `credential_ciphertext` is the Fernet token; the text of the last check is left out
pub record MonitoredApi : Type 0 where
  pub id : ℕ
  pub org_id : ℕ
  pub name : Text
  pub provider : String
  pub base_url : Text
  pub verify_path : Text
  pub credential_ciphertext : Text
  pub key_prefix : Text
  pub key_last4 : Text
  pub endpoints_registered : ℕ
  pub status : String
  pub last_checked_at : Option ℕ
  pub created_by : ℕ
  pub created_at : ℕ

-- A table with the counter of its autoincremented key.
pub record Table {ℓ} (A : Type ℓ) : Type ℓ where
  pub rows : List A
  pub next_id : ℕ

-- The tables that the routes read and write.
pub record Db : Type 0 where
  pub users : Table User
  pub refresh_tokens : Table RefreshToken
  pub reset_tokens : Table PasswordResetToken
  pub api_keys : Table ApiKey
  pub organizations : Table Organization
  pub memberships : Table OrgMembership
  pub known_endpoints : Table KnownEndpoint
  pub discovered_endpoints : Table DiscoveredEndpoint
  pub shadow_endpoints : Table ShadowEndpoint
  pub zombie_states : Table ZombieEndpointState
  pub alerts : Table Alert
  pub ml_models : Table MlModelState
  pub monitored_apis : Table MonitoredApi
  pub audit_log : List AuditLog
