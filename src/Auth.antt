-- ===== src/Auth.antt =====
-- prorag/auth.py: sessions, API keys and the caller's identity, and the logout of
-- prorag/auth_routes.py. The digest of a token is a parameter; times are microseconds.
use pro_rag.Prelude.{
  ℕ, ◌+◌, ◌*◌, Bool, true, false, not, ◌&&◌, Option, none, some, List, [], ◌∷◌, ◌++◌, map, leb,
  ◌==◌, if◌then◌else◌, drop, Text, same_text,
}
use pro_rag.Prelude.Chain.{◌>>=◌}
use pro_rag.Prelude.Words.{codes, is_empty, is_space, lstrip, starts_with}
use pro_rag.Models.{User}
pub mod Sessions
pub mod Guards
pub mod Routes
mod Tests

pub record Session : Type 0 where
  pub token_hash : Text
  pub user_id : ℕ
  pub expires_at : ℕ
  pub revoked_at : Option ℕ

pub record ApiKey : Type 0 where
  pub key_hash : Text
  pub collection : Option Text
  pub user_id : Option ℕ

pub record Tables : Type 0 where
  pub sessions : List Session
  pub api_keys : List ApiKey
  pub users : List User

-- What of a request the guards read: the session cookie, the `authorization` header ("" if it is
-- missing) and the query parameter `collection`.
pub record Request : Type 0 where
  pub cookie : Option Text
  pub authorization : Text
  pub requested_collection : Option Text

-- `str.rstrip()`
pub rstrip : Text → Text
unfolding is_space
rstrip [] = []
rstrip (c ∷ s) = let rest = rstrip s in if is_space c && is_empty rest then [] else c ∷ rest

pub find_session : List Session → Text → Option Session
find_session [] token_hash = none
find_session (s ∷ sessions) token_hash =
    if same_text s.token_hash token_hash then some s else find_session sessions token_hash

pub find_key : List ApiKey → Text → Option ApiKey
find_key [] key_hash = none
find_key (k ∷ keys) key_hash =
    if same_text k.key_hash key_hash then some k else find_key keys key_hash

pub find_user : List User → ℕ → Option User
find_user [] id = none
find_user (u ∷ users) id = if u.id == id then some u else find_user users id

-- `row.revoked_at is not None or row.expires_at <= now` refuses the row.
abbrev pub is_live : ℕ → Session → Bool
is_live now s = elim s.revoked_at [ none ↦ not (leb s.expires_at now) | some _ ↦ false ]

abbrev pub live_or_none : ℕ → Session → Option Session
live_or_none now s = if is_live now s then some s else none

module _ (hash_key : Text → Text) where
  -- The rows after the call; the raw token goes to the browser.
  pub create_session : ℕ → ℕ → ℕ → Text → List Session → List Session
  create_session ttl_days now user_id raw sessions =
      sessions
      ++ record {
        token_hash = hash_key raw;
        user_id = user_id;
        expires_at = now + ttl_days * 86400000000;
        revoked_at = none;
      }
        ∷ []

  pub resolve_session_token : ℕ → List Session → Text → Option Session
  unfolding find_session
  resolve_session_token now sessions raw = find_session sessions (hash_key raw) >>= live_or_none now

  pub session_from_cookie : ℕ → Tables → Request → Option Session
  unfolding resolve_session_token
  session_from_cookie now db request = elim request.cookie [
    | none ↦ none
    | some raw ↦ if is_empty raw then none else resolve_session_token now db.sessions raw
  ]

  -- `"Bearer "` has seven characters.
  pub api_key_from_header : Tables → Request → Option ApiKey
  unfolding find_key lstrip rstrip starts_with
  api_key_from_header db request =
      if starts_with request.authorization (codes "Bearer ")
      then find_key db.api_keys (hash_key (rstrip (lstrip (drop 7 request.authorization))))
      else none

  -- An HTTPException, or the guard's result.
  pub data Checked : Type 0 where
    unauthorized forbidden : Checked
    admitted : Option ApiKey → Checked

  -- `key.collection and requested and requested != key.collection`
  abbrev pub out_of_scope : Option Text → Option Text → Bool
  out_of_scope (some collection) (some requested) =
      not (is_empty collection) && not (is_empty requested) && not (same_text requested collection)
  out_of_scope _ _ = false

  abbrev pub scoped : Request → ApiKey → Checked
  scoped request key =
      if out_of_scope key.collection request.requested_collection
      then forbidden
      else admitted (some key)

  pub require_api_key : Bool → Tables → Request → Checked
  unfolding api_key_from_header
  require_api_key auth_enabled db request =
      if not auth_enabled then admitted none else elim (api_key_from_header db request) [
        | none ↦ unauthorized
        | some key ↦ scoped request key
      ]

  pub require_auth : Bool → ℕ → Tables → Request → Checked
  unfolding session_from_cookie require_api_key
  require_auth auth_enabled now db request =
      if not auth_enabled then admitted none else elim (session_from_cookie now db request) [
        | some s ↦ admitted none
        | none ↦ require_api_key auth_enabled db request
      ]

  abbrev pub key_user : Tables → Option ApiKey → Option User
  key_user db none = none
  key_user db (some key) = key.user_id >>= find_user db.users

  pub current_user : ℕ → Tables → Request → Option User
  unfolding session_from_cookie api_key_from_header find_user
  current_user now db request = elim (session_from_cookie now db request) [
    | some s ↦ find_user db.users s.user_id
    | none ↦ key_user db (api_key_from_header db request)
  ]

  -- A row that is revoked already keeps its time.
  abbrev pub revoked : ℕ → Session → Session
  revoked now s = elim s.revoked_at [ none ↦ record s { revoked_at = some now } | some _ ↦ s ]

  pub revoke : ℕ → Text → List Session → List Session
  revoke now raw =
      map (λ (s : Session). if same_text s.token_hash (hash_key raw) then revoked now s else s)

  -- The rows after `POST /auth/logout` with this cookie
  pub logout : ℕ → Option Text → List Session → List Session
  unfolding revoke
  logout now cookie sessions = elim cookie [
    | none ↦ sessions
    | some raw ↦ if is_empty raw then sessions else revoke now raw sessions
  ]
