-- ===== src/Scenarios/Connected.antt =====
-- The theorem on deleting a connection, applied.
use secure_api.Prelude.{◌==◌, ◌≡◌, refl, codes, not, none, some, [], ◌∷◌, length, keep}
use secure_api.Models.{Db, MonitoredApi}
use secure_api.Session.{ok, run}
use secure_api.Session.Query.{select}
use secure_api.Registry.{new_endpoint, recompute_flags}
use secure_api.Connections.{Upstream}
use secure_api.Connections.Routes.{seeded_by, delete_connection, source_of}
use secure_api.Connections.Deletion.{delete_connection_lem}
use secure_api.Scenarios.{db, request, alice}
use secure_api.Scenarios.Discovery.{ascii}

abbrev upstream : Upstream
upstream = record {
  get_provider = λ id. none;
  encrypt = λ key. key;
  decrypt = λ token. some token;
  refused = λ url. none;
  get_status = λ provider key url. some 200;
}

abbrev connection : MonitoredApi
connection = record {
  id = 1;
  org_id = 1;
  name = codes "Claude";
  provider = "anthropic";
  base_url = codes "https://api.anthropic.com";
  verify_path = codes "/v1/models";
  credential_ciphertext = codes "token";
  key_prefix = codes "sk-ant-0";
  key_last4 = codes "0000";
  endpoints_registered = 1;
  status = "active";
  last_checked_at = none;
  created_by = 1;
  created_at = 5;
}

-- one endpoint of the connection, and one of a description
abbrev connected : Db
connected = record db {
  monitored_apis = record { rows = connection ∷ []; next_id = 2 };
  known_endpoints = record {
    rows =
        new_endpoint 5 1 (codes "POST") (codes "/v1/messages") (source_of 1) 1
        ∷ new_endpoint 5 1 (codes "GET") (codes "/users") "openapi" 2
        ∷ [];
    next_id = 3;
  };
}

delete_connection_lem_example :
    let out = run (delete_connection ascii upstream 9 request alice 1 1) connected in
    let seeded = seeded_by ascii upstream 9 request alice 1 connection in
    (out.response ≡ ok (length (select seeded connected.known_endpoints)))
    × (select seeded out.db.known_endpoints ≡ [])
    × (keep (λ e. not (seeded e)) out.db.known_endpoints.rows
        ≡ keep (λ e. not (seeded e)) connected.known_endpoints.rows)
    × (select (λ c. c.id == 1) out.db.monitored_apis ≡ [])
    × ((recompute_flags ascii 9 1 out.db).discovered_endpoints ≡ out.db.discovered_endpoints)
delete_connection_lem_example =
    delete_connection_lem ascii upstream 9 request alice 1 1 connected connection refl
