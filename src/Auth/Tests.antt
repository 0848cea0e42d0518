-- ===== src/Auth/Tests.antt =====
-- Sessions and guards at concrete inputs.
use pro_rag.Prelude.{
  ℕ, ◌+◌, ◌*◌, ◌≤◌, ◌<◌, ◌≡◌, ◌≢◌, refl, ◌↔◌, true, Option, none, some, List, [], ◌∷◌, Text, arith,
}
use pro_rag.Prelude.Words.{codes}
use pro_rag.Auth.{
  Session, Tables, Request, create_session, resolve_session_token, logout, require_auth,
  find_session,
}
use pro_rag.Auth.Sessions.{resolve-create_session, resolve-logout}
use pro_rag.Auth.Guards.{is_admitted, HasCredentials, require_auth_iff}

abbrev digest : Text → Text
digest raw = 1 ∷ raw

abbrev other_session : Session
other_session = record {
  token_hash = digest (codes "t0");
  user_id = 4;
  expires_at = 900;
  revoked_at = none;
}

fresh : find_session (other_session ∷ []) (digest (codes "t1")) ≡ none
unfolding find_session pro_rag.Prelude.same_text
fresh = refl

resolve-create_session_example :
    (50 < 20 + 7 * 86400000000
      → (s : Session) × (resolve_session_token digest 50
            (create_session digest 7 20 5 (codes "t1") (other_session ∷ []))
            (codes "t1")
          ≡ some s)
        × (s.user_id ≡ 5))
    × (20 + 7 * 86400000000 ≤ 50
        → resolve_session_token digest 50
            (create_session digest 7 20 5 (codes "t1") (other_session ∷ []))
            (codes "t1")
          ≡ none)
resolve-create_session_example =
    resolve-create_session digest 7 20 50 5 (codes "t1") (other_session ∷ []) fresh

resolve-logout_example :
    (resolve_session_token digest 60
        (logout digest 50 (some (codes "t0")) (other_session ∷ []))
        (codes "t0")
      ≡ none)
    × ((other : Text)
        → digest other ≢ digest (codes "t0")
        → resolve_session_token digest 60
            (logout digest 50 (some (codes "t0")) (other_session ∷ []))
            other
          ≡ resolve_session_token digest 60 (other_session ∷ []) other)
resolve-logout_example = resolve-logout digest 50 60 (codes "t0") (other_session ∷ []) refl

abbrev tables : Tables
tables = record { sessions = other_session ∷ []; api_keys = []; users = [] }

abbrev request : Request
request = record { cookie = some (codes "t0"); authorization = []; requested_collection = none }

require_auth_iff_example :
    (is_admitted digest (require_auth digest true 60 tables request) ≡ true)
    ↔ HasCredentials digest 60 tables request
require_auth_iff_example = require_auth_iff digest 60 tables request
