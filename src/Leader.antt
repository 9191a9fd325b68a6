-- ===== src/Leader.antt =====
-- app/services/leader.py: one replica of the API is elected leader by a lock in Redis, which it
-- renews. What Redis does is a parameter: reading, setting and deleting one key that expires.
pub mod Safety
pub mod Cluster
use secure_api.Prelude.{
  ℕ, ◌*◌, String, Bool, true, false, Option, none, some, opt_eq, if◌then◌else◌,
}

-- GET, SET … NX PX, PEXPIRE and DEL on the leader's key, at a time in milliseconds
pub record Redis (S : Type 0) : Type 0 where
  pub get : ℕ → S → Option String
  pub set_nx_px : ℕ → String → ℕ → S → Bool × S
  pub pexpire : ℕ → ℕ → S → S
  pub del : S → S

-- LOCK_TTL_SECONDS * 1000
abbrev pub lock_ttl : ℕ
lock_ttl = 30 * 1000

-- `_client` is `none` in a deployment without Redis
pub record Replica : Type 0 where
  pub instance_id : String
  pub is_leader : Bool
  pub clustered : Bool

-- A call can be answered, be carried out and lose its answer, or not reach Redis: the last two are
-- exceptions.
pub data Reply : Type 0 where
  answered : Reply
  lost : Reply
  unreached : Reply

module _ {S : Type 0} (r : Redis S) where
  -- _RENEW_SCRIPT, which Redis runs at once
  unfoldable pub renew_script : ℕ → String → ℕ → S → Bool × S
  renew_script now id ttl s =
      if opt_eq (r.get now s) (some id) then (true, r.pexpire now ttl s) else (false, s)

  -- _RELEASE_SCRIPT
  unfoldable pub release_script : ℕ → String → S → S
  release_script now id s = if opt_eq (r.get now s) (some id) then r.del s else s

  -- the call that `_tick` makes
  unfoldable pub attempt : ℕ → Replica → S → Bool × S
  unfolding renew_script
  attempt now self s =
      if self.is_leader
      then renew_script now self.instance_id lock_ttl s
      else r.set_nx_px now self.instance_id lock_ttl s

  unfoldable pub tick : Reply → ℕ → Replica → S → Replica × S
  tick answered now self s =
      let (got, s') = attempt now self s in (record self { is_leader = got }, s')
  tick lost now self s = (record self { is_leader = false }, (attempt now self s).1)
  tick unreached now self s = (record self { is_leader = false }, s)

  -- `start` tries at once where there is a Redis, and leads where there is none
  unfoldable pub start : Reply → ℕ → Replica → S → Replica × S
  start reply now self s =
      if self.clustered
      then tick reply now (record self { is_leader = false }) s
      else (record self { is_leader = true }, s)

  abbrev pub released : Reply → ℕ → Replica → S → S
  released unreached now self s = s
  released _ now self s = release_script now self.instance_id s

  unfoldable pub stop : Reply → ℕ → Replica → S → Replica × S
  stop reply now self s = (
    record self { is_leader = false },
    if self.clustered then (if self.is_leader then released reply now self s else s) else s,
  )
