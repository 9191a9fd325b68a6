-- ===== src/Session.antt =====
-- The SQLAlchemy session of one request (app/database.py): what the request wrote and has not
-- committed is lost when it ends, and an exception leaves at once. Audit records go to the database
-- and to the log on stdout (app/services/audit_service.py).
pub mod Query
pub mod Keys
pub mod Deletion
pub mod Chunks
pub mod Newest
use secure_api.Prelude.{
  ℕ, String, ◌≡◌, refl, ◌⊎◌, inl, inr, Bool, true, false, Option, none, some, List, [], ◌∷◌, ◌++◌,
  take_chars, if◌then◌else◌, str_eq, ◌≤◌, arith, length,
}
use secure_api.Models.{AuditLog, Db, Detail, Target}

-- An `HTTPException`, or an exception that no handler catches (answered by a 500).
pub data Error : Type 0 where
  http : ℕ → String → Error
  crash : Error

pub data Result {ℓ} (A : Type ℓ) : Type ℓ where
  ok : A → Result A
  err : Error → Result A

pub Result-cases :
    {A : Type 0} (r : Result A) → ((e : Error) × (r ≡ err e)) ⊎ ((a : A) × (r ≡ ok a))
Result-cases (ok a) = inr (a, refl)
Result-cases (err e) = inl (e, refl)

-- .one_or_none() on the rows that match: two matches are an exception
abbrev pub one_or_none {ℓ} : {A : Type ℓ} → List A → Result (Option A)
one_or_none [] = ok none
one_or_none (x ∷ []) = ok (some x)
one_or_none (x ∷ y ∷ ys) = err crash

-- .one(): no match is an exception too
abbrev pub one {ℓ} : {A : Type ℓ} → List A → Result A
one [] = err crash
one (x ∷ []) = ok x
one (x ∷ y ∷ ys) = err crash

-- a query finds nothing, one row, or too many
pub one_or_none-cases {ℓ} :
    {A : Type ℓ} (xs : List A)
    → (xs ≡ []) ⊎ ((x : A) × (xs ≡ x ∷ [])) ⊎ (one_or_none xs ≡ err crash)
one_or_none-cases [] = inl refl
one_or_none-cases (x ∷ []) = inr (inl (x, refl))
one_or_none-cases (x ∷ y ∷ ys) = inr (inr refl)

-- the exception means that two rows match
pub one_or_none-many {ℓ} : {A : Type ℓ} (xs : List A) → one_or_none xs ≡ err crash → 2 ≤ length xs
one_or_none-many [] h = absurd (ground arith)
one_or_none-many (x ∷ []) h = absurd (ground arith)
one_or_none-many (x ∷ y ∷ ys) h = omega arith

pub too_many {ℓ} : {A : Type ℓ} (xs : List A) → one_or_none xs ≡ err crash → length xs ≤ 1 → ⊥
too_many [] h le = absurd (ground arith)
too_many (x ∷ []) h le = absurd (ground arith)
too_many (x ∷ y ∷ ys) h le = omega arith

pub one-cases {ℓ} : {A : Type ℓ} (xs : List A) → (one xs ≡ err crash) ⊎ ((x : A) × (one xs ≡ ok x))
one-cases [] = inl refl
one-cases (x ∷ []) = inr (x, refl)
one-cases (x ∷ y ∷ ys) = inl refl

pub record Session : Type 0 where
  pub committed : Db
  pub working : Db
  pub stdout : List AuditLog

-- the caller's address, as far as the handlers read it
pub record Request : Type 0 where
  pub ip : Option String
  pub user_agent : Option String

abbrev pub M : Type 0 → Type 0
M A = Session → Result A × Session

abbrev pub continue : {A B : Type 0} → Result A → (A → M B) → M B
continue (ok a) f s = f a s
continue (err e) f s = (err e, s)

infixl 10 ◌>>=◌ ◌>>◌
abbrev pub ◌>>=◌ : {A B : Type 0} → M A → (A → M B) → M B
◌>>=◌ m f s = let (r, s') = m s in continue r f s'

abbrev pub ◌>>◌ : {A B : Type 0} → M A → M B → M B
m >> k = m >>= λ _. k

abbrev pub pure : {A : Type 0} → A → M A
pure a s = (ok a, s)

abbrev pub raise : {A : Type 0} → Error → M A
raise e s = (err e, s)

-- queries see what the session has written
abbrev pub gets : {A : Type 0} → (Db → A) → M A
gets f s = (ok (f s.working), s)

abbrev pub lift : {A : Type 0} → Result A → M A
lift r s = (r, s)

abbrev pub modify : (Db → Db) → M (Unit {0})
modify f s = (ok tt, record s { working = f s.working })

abbrev pub commit : M (Unit {0})
commit s = (ok tt, record s { committed = s.working })

abbrev pub require : Bool → Error → M (Unit {0})
require true e = pure tt
require false e = raise e

-- (user_agent or "")[:512] or None
unfoldable pub clip_agent : Option String → Option String
clip_agent none = none
clip_agent (some agent) =
    let clipped = take_chars 512 agent in if str_eq clipped "" then none else some clipped

-- one event, as the database keeps it and as stdout prints it
abbrev audit_record :
    ℕ
    → Request
    → Option String
    → String
    → String
    → Option Target
    → Bool
    → List (String × Detail)
    → AuditLog
audit_record now request agent event_type actor target success details = record {
  event_type = event_type;
  actor = actor;
  target = target;
  ip = request.ip;
  user_agent = agent;
  timestamp = now;
  details = details;
  success = success;
}

-- the row is committed, with all that the session still held, and then printed
abbrev pub log_audit_event :
    ℕ → Request → String → String → Option Target → Bool → List (String × Detail) → M (Unit {0})
log_audit_event now request event_type actor target success details s =
    let row =
      audit_record now request (clip_agent request.user_agent) event_type actor target success
        details in
    let db = record s.working { audit_log = s.working.audit_log ++ row ∷ [] } in
    let printed =
      audit_record now request request.user_agent event_type actor target success details in
    (ok tt, record { committed = db; working = db; stdout = s.stdout ++ printed ∷ [] })

-- A request runs on a new session, and closing the session drops what was not committed.
pub record Outcome (A : Type 0) : Type 0 where
  pub response : Result A
  pub db : Db
  pub printed : List AuditLog

abbrev pub run : {A : Type 0} → M A → Db → Outcome A
run m db =
    let (r, s) = m (record { committed = db; working = db; stdout = [] }) in
    record { response = r; db = s.committed; printed = s.stdout }
