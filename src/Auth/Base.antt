-- ===== src/Auth/Base.antt =====
-- app/routers/auth.py, the helpers of the token-issuing handlers, and the queries they share.
use secure_api.Prelude.{
  ℕ, ◌-◌, ◌/◌, ◌==◌, String, Text, Bool, ◌≡◌, ◌∙◌, [], ◌∷◌, ==_refl, false, Option, ◌&&◌, str_eq,
}
use secure_api.Models.{User, Db}
use secure_api.Session.Query.{insert_row, update_rows, select, update_where, keep-update_where}

-- app/schemas.py, UserOut
pub record UserOut : Type 0 where
  pub id : ℕ
  pub username : String
  pub email : Option String
  pub role : String
  pub is_active : Bool
  pub created_at : ℕ

-- app/schemas.py, AuthOut
pub record AuthOut : Type 0 where
  pub access_token : Text
  pub refresh_token : Text
  pub expires_in : ℕ
  pub user : UserOut

abbrev pub build_user_out : User → UserOut
build_user_out u = record {
  id = u.id;
  username = u.username;
  email = u.email;
  role = u.role;
  is_active = u.is_active;
  created_at = u.created_at;
}

-- `-` stops at 0, as max(0, …) does
abbrev pub build_auth_out : ℕ → User → Text × ℕ → Text → AuthOut
build_auth_out now user access refresh_token = record {
  access_token = access.0;
  refresh_token = refresh_token;
  expires_in = (access.1 - now) / 1000000;
  user = build_user_out user;
}

-- User.username == username, User.is_active.is_(True)
abbrev pub active_named : String → User → Bool
active_named username u = str_eq u.username username && u.is_active

abbrev pub has_id : ℕ → User → Bool
has_id id u = u.id == id

abbrev pub update_user_row : ℕ → (User → User) → Db → Db
update_user_row id f db = record db { users = update_rows (has_id id) f db.users }

abbrev pub add_refresh_token : ℕ → ℕ → String → ℕ → Db → Db
add_refresh_token now user_id digest expires db = record db {
  refresh_tokens =
      insert_row
        (λ id. record {
          id = id;
          user_id = user_id;
          token = digest;
          expires_at = expires;
          revoked = false;
          created_at = now;
        })
        db.refresh_tokens;
}

-- A change of the row that a query by name found is what that query finds afterwards, if it keeps
-- the name and the active flag.
pub select-update_user_row :
    (name : String) (u : User) (f : User → User) (db : Db)
    → select (active_named name) db.users ≡ u ∷ []
    → ((x : User) → active_named name (f x) ≡ active_named name x)
    → select (active_named name) (update_user_row u.id f db).users ≡ f u ∷ []
select-update_user_row name u f db found same =
    keep-update_where (active_named name) (has_id u.id) f db.users.rows same
    ∙ (rw found (unfold update_where in rw ==_refl))
