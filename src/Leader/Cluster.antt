-- ===== src/Leader/Cluster.antt =====
-- A cluster of replicas on one Redis: the steps its replicas take in any order, and who leads.
use secure_api.Prelude.{
  ℕ, ◌+◌, ◌<◌, ◌≤◌, ◌≡◌, refl, sym, subst, inl, inr, String, Bool, true, false, arith, str_eq,
  eq_iff, if◌then◌else◌, Bool-cases,
}
use secure_api.Leader.{
  Redis, lock_ttl, Replica, Reply, answered, lost, unreached, tick, start, stop, released,
}
use secure_api.Leader.Safety.{
  IsRedis, Leased, attempt-Leased, attempt-Leased_other, release-Leased_other,
}

-- The store, the clock, and for each instance id its flag and the time of its last renewal.
pub record Cluster (S : Type 0) : Type 0 where
  pub store : S
  pub now : ℕ
  pub leads : String → Bool
  pub since : String → ℕ

abbrev pub replica : {S : Type 0} → Cluster S → String → Replica
replica w id = record { instance_id = id; is_leader = w.leads id; clustered = true }

-- what a call of a replica leaves
abbrev pub after : {S : Type 0} → Cluster S → String → ℕ → Replica × S → Cluster S
after w id t (self, store) = record {
  store = store;
  now = t;
  leads = λ x. if str_eq x id then self.is_leader else w.leads x;
  since = λ x. if str_eq x id then t else w.since x;
}

module _ {S : Type 0} (r : Redis S) where
  -- a replica starts, ticks or stops, at any later time and with any luck
  pub data Step (w : Cluster S) : Cluster S → Type 0 where
    starts :
        (id : String) (reply : Reply) (t : ℕ)
        → w.now ≤ t
        → Step w (after w id t (start r reply t (replica w id) w.store))
    ticks :
        (id : String) (reply : Reply) (t : ℕ)
        → w.now ≤ t
        → Step w (after w id t (tick r reply t (replica w id) w.store))
    stops :
        (id : String) (reply : Reply) (t : ℕ)
        → w.now ≤ t
        → Step w (after w id t (stop r reply t (replica w id) w.store))

  -- what is reached from a cluster in which nobody leads yet
  pub data Reachable : Cluster S → Type 0 where
    initial : (w : Cluster S) → ((id : String) → w.leads id ≡ false) → Reachable w
    step : {w w' : Cluster S} → Reachable w → Step w w' → Reachable w'

  -- every leader has the key until its last renewal runs out
  abbrev Holds : Cluster S → Type 0
  Holds w = (id : String) → w.leads id ≡ true → Leased r w.store id w.now (w.since id + lock_ttl)

  -- a call that takes nothing from the others, and leaves its caller leader only with the key
  record Fair (s : S) (t : ℕ) (id : String) (self : Replica) (s' : S) : Type 0 where
    own : self.is_leader ≡ true → Leased r s' id t (t + lock_ttl)
    others :
        (other : String) (until : ℕ)
        → str_eq other id ≡ false
        → Leased r s other t until
        → Leased r s' other t until

  after-Holds :
      (w : Cluster S) (id : String) (t : ℕ) (self : Replica) (s' : S)
      → w.now ≤ t
      → Fair w.store t id self s'
      → Holds w
      → Holds (after w id t (self, s'))
  after-Holds w id t self s' later fair h x leads u from before = elim (Bool-cases (str_eq x id)) [
    | inl same ↦
        let e : x ≡ id = ground (arith, eq_iff x id) in
        rw e (fair.own (rw same at leads) u from (rw same at before))
    | inr differs ↦
        fair.others x (w.since x + lock_ttl) differs
          (λ v f b. h x (rw differs at leads) v (ground arith) b) u from (rw differs at before)
  ]

  module _ (ok : IsRedis r) (s : S) (t : ℕ) where
    tick-Fair :
        (self : Replica) (reply : Reply)
        → let (self', s') = tick r reply t self s in Fair s t self.instance_id self' s'
    unfolding tick
    tick-Fair self answered = record {
      own = attempt-Leased r ok t self s;
      others = attempt-Leased_other r ok t self s;
    }
    tick-Fair self lost = record {
      own = λ no. absurd (ground arith);
      others = attempt-Leased_other r ok t self s;
    }
    tick-Fair self unreached = record {
      own = λ no. absurd (ground arith);
      others = λ other until differs leased. leased;
    }

    start-Fair :
        (self : Replica) (reply : Reply)
        → self.clustered ≡ true
        → let (self', s') = start r reply t self s in Fair s t self.instance_id self' s'
    unfolding start
    start-Fair self reply clustered =
        let again : Replica = record self { is_leader = false } in
        subst
          (λ b.
            let out = if b then tick r reply t again s else (record self { is_leader = true }, s) in
            Fair s t self.instance_id out.0 out.1)
          (sym clustered) (tick-Fair again reply)

    released-others :
        (self : Replica) (reply : Reply) (other : String) (until : ℕ)
        → str_eq other self.instance_id ≡ false
        → Leased r s other t until
        → Leased r (released r reply t self s) other t until
    released-others self answered other until differs leased =
        release-Leased_other r ok t self s other until differs leased
    released-others self lost other until differs leased =
        release-Leased_other r ok t self s other until differs leased
    released-others self unreached other until differs leased = leased

    stop-others :
        (self : Replica) (reply : Reply) (other : String) (until : ℕ)
        → str_eq other self.instance_id ≡ false
        → Leased r s other t until
        → Leased r (stop r reply t self s).1 other t until
    unfolding stop
    stop-others self reply other until differs leased = elim (Bool-cases self.clustered) [
      | inr alone ↦ simp alone leased
      | inl clustered ↦ elim (Bool-cases self.is_leader) [
        | inr follows ↦ simp (clustered, follows) leased
        | inl leads ↦
            simp (clustered, leads) (released-others self reply other until differs leased)
      ]
    ]

    stop-Fair :
        (self : Replica) (reply : Reply)
        → let (self', s') = stop r reply t self s in Fair s t self.instance_id self' s'
    unfolding stop
    stop-Fair self reply = record {
      own = λ no. absurd (ground arith);
      others = λ other until. stop-others self reply other until;
    }

  Step-Holds : IsRedis r → {w w' : Cluster S} → Step w w' → Holds w → Holds w'
  Step-Holds ok {w} (starts id reply t later) h =
      after-Holds w id t _ _ later (start-Fair ok w.store t (replica w id) reply refl) h
  Step-Holds ok {w} (ticks id reply t later) h =
      after-Holds w id t _ _ later (tick-Fair ok w.store t (replica w id) reply) h
  Step-Holds ok {w} (stops id reply t later) h =
      after-Holds w id t _ _ later (stop-Fair ok w.store t (replica w id) reply) h

  Reachable-Holds : IsRedis r → {w : Cluster S} → Reachable w → Holds w
  Reachable-Holds ok (initial w nobody) = λ id leads. absurd (ground (arith, nobody id))
  Reachable-Holds ok (step before s) = Step-Holds ok s (Reachable-Holds ok before)

  -- In every cluster that is reached from one without leaders, by starts, ticks and stops of its
  -- replicas in any order, at any times and with calls or answers lost, two replicas that count
  -- themselves leader and renewed within the last lock_ttl milliseconds are the same, if Redis does
  -- what it documents.
  pub one_leader :
      IsRedis r
      → {w : Cluster S} → Reachable w
      → (a b : String) → w.leads a ≡ true
      → w.leads b ≡ true
      → w.now < w.since a + lock_ttl
      → w.now < w.since b + lock_ttl
      → a ≡ b
  one_leader ok {w} reached a b leads-a leads-b fresh-a fresh-b =
      let here-a = Reachable-Holds ok reached a leads-a w.now (ground arith) fresh-a in
      let here-b = Reachable-Holds ok reached b leads-b w.now (ground arith) fresh-b in ground arith
