-- ===== src/Auth/Sessions.antt =====
-- From login to logout: which tokens resolve to a session.
use pro_rag.Prelude.{
  ℕ, ◌+◌, ◌*◌, ◌≤◌, ◌<◌, ◌≡◌, ◌≢◌, refl, ap, ◌∙◌, false, none, some, List, [], ◌∷◌, ◌++◌, arith,
  Text, same_text_iff,
}
use pro_rag.Prelude.Chain.{◌>>=◌}
use pro_rag.Prelude.Words.{is_empty}
use pro_rag.Auth.{
  Session, find_session, live_or_none, create_session, resolve_session_token, revoke, logout,
}

module _ (hash_key : Text → Text) where
  find-append :
      (sessions : List Session) (s : Session)
      → find_session sessions s.token_hash ≡ none
      → find_session (sessions ++ s ∷ []) s.token_hash ≡ some s
  unfolding find_session
  find-append [] s fresh = ground (arith, (same_text_iff s.token_hash s.token_hash).1 refl)
  find-append (x ∷ sessions) s fresh = ground (arith, fresh, find-append sessions s)

  -- A token just made, whose digest no row has, resolves to a session of its user until it
  -- expires, and to none from then on.
  pub resolve-create_session :
      (ttl_days now later user_id : ℕ) (raw : Text) (sessions : List Session)
      → find_session sessions (hash_key raw) ≡ none
      → (later < now + ttl_days * 86400000000
          → (s : Session) × (resolve_session_token hash_key later
                (create_session hash_key ttl_days now user_id raw sessions)
                raw
              ≡ some s)
            × (s.user_id ≡ user_id))
        × (now + ttl_days * 86400000000 ≤ later
            → resolve_session_token hash_key later
                (create_session hash_key ttl_days now user_id raw sessions)
                raw
              ≡ none)
  unfolding resolve_session_token create_session
  resolve-create_session ttl now later user raw sessions fresh = (
    (λ early. (made, ap (λ o. o >>= live_or_none later) found ∙ ground (arith, early), refl)),
    (λ late. ap (λ o. o >>= live_or_none later) found ∙ ground (arith, late)),
  )
    where
      made : Session
      made = record {
        token_hash = hash_key raw;
        user_id = user;
        expires_at = now + ttl * 86400000000;
        revoked_at = none;
      }

      found : find_session (sessions ++ made ∷ []) (hash_key raw) ≡ some made
      found = find-append sessions made fresh

  revoked_lem :
      (now later : ℕ) (raw : Text) (sessions : List Session)
      → (find_session (revoke hash_key now raw sessions) (hash_key raw) >>= live_or_none later)
        ≡ none
  unfolding find_session revoke
  revoked_lem now later raw [] = refl
  revoked_lem now later raw (s ∷ sessions) = ground (arith, revoked_lem now later raw sessions)

  kept_lem :
      (now later : ℕ) (raw token_hash : Text) (sessions : List Session)
      → token_hash ≢ hash_key raw
      → find_session (revoke hash_key now raw sessions) token_hash
        ≡ find_session sessions token_hash
  unfolding find_session revoke
  kept_lem now later raw other [] apart = refl
  kept_lem now later raw other (s ∷ sessions) apart = ground (
    arith,
    kept_lem now later raw other sessions apart,
    (same_text_iff s.token_hash (hash_key raw)).0,
    (same_text_iff s.token_hash other).0,
    apart,
  )

  -- After logout the token resolves to no session, ever; a token with another digest resolves as
  -- before.
  pub resolve-logout :
      (now later : ℕ) (raw : Text) (sessions : List Session)
      → is_empty raw ≡ false
      → (resolve_session_token hash_key later (logout hash_key now (some raw) sessions) raw ≡ none)
        × ((other : Text)
            → hash_key other ≢ hash_key raw
            → resolve_session_token hash_key later (logout hash_key now (some raw) sessions) other
              ≡ resolve_session_token hash_key later sessions other)
  unfolding resolve_session_token logout
  resolve-logout now later [] sessions full = absurd (ground (arith, full))
  resolve-logout now later (c ∷ raw) sessions full = (
    revoked_lem now later (c ∷ raw) sessions,
    (λ other apart.
        ap (λ o. o >>= live_or_none later)
          (kept_lem now later (c ∷ raw) (hash_key other) sessions apart)),
  )
