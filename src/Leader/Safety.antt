-- ===== src/Leader/Safety.antt =====
-- At most one replica holds a lease at a time, whatever order the replicas' calls come in, and
-- whichever of the calls or answers are lost.
use secure_api.Prelude.{
  ℕ, ◌+◌, ◌<◌, ◌≤◌, ◌≡◌, inl, inr, String, true, false, Option, none, some, arith, opt_eq, str_eq,
  eq_iff, Bool-cases, Option-cases,
}
use secure_api.Leader.{Redis, lock_ttl, Replica, renew_script, release_script, attempt}

-- What Redis documents of these commands: SET NX writes only where there is no key; what SET and
-- PEXPIRE set lives as long as they say; a deleted key is gone.
pub record IsRedis {S : Type 0} (r : Redis S) : Type 0 where
  pub set_held :
      (now ttl : ℕ) (id other : String) (s : S)
      → r.get now s ≡ some other
      → r.set_nx_px now id ttl s ≡ (false, s)
  pub set_free :
      (now ttl : ℕ) (id : String) (s : S)
      → r.get now s ≡ none
      → (t : ℕ) → now ≤ t
      → t < now + ttl
      → r.get t (r.set_nx_px now id ttl s).1 ≡ some id
  pub pexpire_held :
      (now ttl : ℕ) (id : String) (s : S)
      → r.get now s ≡ some id
      → (t : ℕ) → now ≤ t
      → t < now + ttl
      → r.get t (r.pexpire now ttl s) ≡ some id

-- the key names this replica from one time to another
abbrev pub Leased : {S : Type 0} → Redis S → S → String → ℕ → ℕ → Type 0
Leased r s id from until = (t : ℕ) → from ≤ t → t < until → r.get t s ≡ some id

opt_eq-held : (held : Option String) (id : String) → opt_eq held (some id) ≡ true → held ≡ some id
opt_eq-held none id h = absurd (ground arith)
opt_eq-held (some other) id h = ground (arith, eq_iff other id)

module _ {S : Type 0} (r : Redis S) (ok : IsRedis r) (now : ℕ) (self : Replica) (s : S) where
  -- a replica that a call makes or keeps leader has the key from then on
  pub attempt-Leased :
      (attempt r now self s).0 ≡ true
      → Leased r (attempt r now self s).1 self.instance_id now (now + lock_ttl)
  unfolding attempt renew_script
  attempt-Leased got t after before = elim (Bool-cases self.is_leader) [
    | inl leads ↦ elim (Bool-cases (opt_eq (r.get now s) (some self.instance_id))) [
      | inl mine ↦
          rw (leads, mine)
            (ok.pexpire_held now lock_ttl self.instance_id s (opt_eq-held _ _ mine) t after before)
      | inr other ↦ absurd (ground arith)
    ]
    | inr not ↦ elim (Option-cases (r.get now s)) [
      | inl free ↦ rw not (ok.set_free now lock_ttl self.instance_id s free t after before)
      | inr (other, held) ↦
          absurd (ground (arith, ok.set_held now lock_ttl self.instance_id other s held))
    ]
  ]

  -- no call of a replica takes the key from another
  pub attempt-Leased_other :
      (id : String) (until : ℕ)
      → str_eq id self.instance_id ≡ false
      → Leased r s id now until
      → Leased r (attempt r now self s).1 id now until
  unfolding attempt renew_script
  attempt-Leased_other id until differs leased t after before =
      let here : r.get now s ≡ some id = leased now (ground arith) (ground arith) in
      elim (Bool-cases self.is_leader) [
        | inl leads ↦ rw (leads, here, differs) (leased t after before)
        | inr not ↦
            rw (not, ok.set_held now lock_ttl self.instance_id id s here) (leased t after before)
      ]

  pub release-Leased_other :
      (id : String) (until : ℕ)
      → str_eq id self.instance_id ≡ false
      → Leased r s id now until
      → Leased r (release_script r now self.instance_id s) id now until
  unfolding release_script
  release-Leased_other id until differs leased t after before =
      let here : r.get now s ≡ some id = leased now (ground arith) (ground arith) in
      rw (here, differs) (leased t after before)
