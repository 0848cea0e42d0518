-- ===== src/Auth/Guards.antt =====
-- Which requests pass the guard of a protected route.
use pro_rag.Prelude.{
  some-injective, ℕ, ◌<◌, ◌≡◌, ◌≢◌, ◌↔◌, ◌⊎◌, refl, sym, ap, ◌∙◌, [], ◌∷◌, not, leb, drop,
  same_text, same_text_iff, Bool-cases, if_true, if_false, if◌then◌else◌, inl, inr, Bool, true,
  false, Option, none, some, Text, arith,
}
use pro_rag.Prelude.Chain.{◌>>=◌}
use pro_rag.Prelude.Words.{codes, is_empty, lstrip, starts_with}
use pro_rag.Auth.{
  Session, ApiKey, Tables, Request, Checked, unauthorized, forbidden, admitted, out_of_scope,
  is_live, live_or_none, find_session, find_key, rstrip, resolve_session_token, scoped,
  session_from_cookie, api_key_from_header, require_api_key, require_auth,
}

module _ (hash_key : Text → Text) where
  abbrev pub is_admitted : Checked hash_key → Bool
  is_admitted unauthorized = false
  is_admitted forbidden = false
  is_admitted (admitted key) = true

  -- A cookie that is not empty, whose digest is of a session that is not revoked and expires later.
  abbrev pub LiveSession : ℕ → Tables → Request → Type 0
  LiveSession now db request =
      (raw : Text) × (s : Session) × (request.cookie ≡ some raw)
      × (raw ≢ [])
      × (find_session db.sessions (hash_key raw) ≡ some s)
      × (s.revoked_at ≡ none)
      × (now < s.expires_at)

  -- A key without a collection takes any request, and so does a key whose collection is empty; a key
  -- with one takes the requests that name that collection, or none.
  abbrev pub Takes : Option Text → Option Text → Type 0
  Takes collection requested =
      (c r : Text) → collection ≡ some c → requested ≡ some r → c ≢ [] → r ≢ [] → r ≡ c

  -- A bearer token whose digest is of a key that takes the request.
  abbrev pub KnownKey : Tables → Request → Type 0
  KnownKey db request =
      (key : ApiKey) × (starts_with request.authorization (codes "Bearer ") ≡ true)
      × (find_key db.api_keys (hash_key (rstrip (lstrip (drop 7 request.authorization))))
          ≡ some key)
      × Takes key.collection request.requested_collection

  abbrev pub HasCredentials : ℕ → Tables → Request → Type 0
  HasCredentials now db request = LiveSession now db request ⊎ KnownKey db request

  scope_sound :
      (collection requested : Option Text)
      → out_of_scope hash_key collection requested ≡ false
      → Takes collection requested
  scope_sound none requested h c r e f full given = absurd cc
  scope_sound (some k) none h c r e f full given = absurd cc
  scope_sound (some []) (some q) h c r e f full given = absurd (full (sym (some-injective e)))
  scope_sound (some (x ∷ k)) (some []) h c r e f full given =
      absurd (given (sym (some-injective f)))
  scope_sound (some (x ∷ k)) (some (y ∷ q)) h c r e f full given =
      let same : same_text (y ∷ q) (x ∷ k) ≡ true = not_false h in
      sym (some-injective f) ∙ (same_text_iff (y ∷ q) (x ∷ k)).0 same ∙ some-injective e
    where
      not_false : {b : Bool} → not b ≡ false → b ≡ true
      not_false {b = true} k = refl
      not_false {b = false} k = absurd cc

  scope_complete :
      (collection requested : Option Text)
      → Takes collection requested
      → out_of_scope hash_key collection requested ≡ false
  scope_complete none requested h = refl
  scope_complete (some c) none h = refl
  scope_complete (some []) (some r) h = refl
  scope_complete (some (x ∷ c)) (some []) h = refl
  scope_complete (some (x ∷ c)) (some (y ∷ r)) h =
      ap not ((same_text_iff (y ∷ r) (x ∷ c)).1 (h (x ∷ c) (y ∷ r) refl refl (λ e. cc) (λ e. cc)))

  live_of :
      (now : ℕ) (s : Session) (revoked : Option ℕ)
      → s.revoked_at ≡ revoked
      → is_live now s ≡ true
      → (s.revoked_at ≡ none) × (now < s.expires_at)
  live_of now s none e h =
      let open_end : not (leb s.expires_at now) ≡ true = (rw e refl) ∙ h in
      (e, ground (arith, open_end))
  live_of now s (some at) e h = absurd (let no : false ≡ true = (rw e refl) ∙ h in cc)

  is_live_of :
      (now : ℕ) (s : Session) → s.revoked_at ≡ none → now < s.expires_at → is_live now s ≡ true
  is_live_of now s e later = rw e (ground (arith, later))

  found_live :
      (now : ℕ) (o : Option Session) {s : Session}
      → (o >>= live_or_none now) ≡ some s
      → (o ≡ some s) × (is_live now s ≡ true)
  found_live now none h = absurd cc
  found_live now (some t) h = elim (Bool-cases (is_live now t)) [
    | inl e ↦
        let same : t ≡ _ = some-injective (sym (if_true _ _ e) ∙ h) in
        (ap (λ x. some x) same, ap (is_live now) (sym same) ∙ e)
    | inr e ↦ absurd (let no = sym (if_false _ _ e) ∙ h in cc)
  ]

  session_of :
      (now : ℕ) (db : Tables) (request : Request) (cookie : Option Text) (s : Session)
      → request.cookie ≡ cookie
      → (elim cookie [
        | none ↦ none
        | some raw ↦
            if is_empty raw then none else resolve_session_token hash_key now db.sessions raw
      ])
        ≡ some s
      → LiveSession now db request
  unfolding resolve_session_token
  session_of now db request none s e h = absurd cc
  session_of now db request (some []) s e h = absurd cc
  session_of now db request (some (c ∷ raw)) s e h =
      let (found, live) = found_live now (find_session db.sessions (hash_key (c ∷ raw))) h in
      let (kept, later) = live_of now s s.revoked_at refl live in
      (c ∷ raw, s, e, (λ k. cc), found, kept, later)

  resolved :
      (now : ℕ) (db : Tables) (raw : Text) (s : Session)
      → raw ≢ []
      → find_session db.sessions (hash_key raw) ≡ some s
      → s.revoked_at ≡ none
      → now < s.expires_at
      → (if is_empty raw then none else resolve_session_token hash_key now db.sessions raw) ≡ some s
  unfolding resolve_session_token
  resolved now db [] s full found kept later = absurd (full refl)
  resolved now db (c ∷ raw) s full found kept later =
      ap (λ o. o >>= live_or_none now) found ∙ if_true _ _ (is_live_of now s kept later)

  session_iff :
      (now : ℕ) (db : Tables) (request : Request)
      → ((s : Session) × (session_from_cookie hash_key now db request ≡ some s))
        ↔ LiveSession now db request
  unfolding session_from_cookie
  session_iff now db request = (
    (λ (s, h). session_of now db request request.cookie s refl h),
    (λ (raw, s, e, full, found, kept, later).
        (s, ap (cookie_session now db) e ∙ resolved now db raw s full found kept later)),
  )
    where
      cookie_session : ℕ → Tables → Option Text → Option Session
      cookie_session now db cookie = elim cookie [
        | none ↦ none
        | some raw ↦
            if is_empty raw then none else resolve_session_token hash_key now db.sessions raw
      ]

  key_iff :
      (db : Tables) (request : Request)
      → ((key : ApiKey) × (api_key_from_header hash_key db request ≡ some key)
          × (out_of_scope hash_key key.collection request.requested_collection ≡ false))
        ↔ KnownKey db request
  unfolding api_key_from_header
  key_iff db request = (
    (λ (key, h, within). elim (Bool-cases bearer) [
      | inl e ↦ (
        key,
        e,
        sym (if_true _ _ e) ∙ h,
        scope_sound key.collection request.requested_collection within,
      )
      | inr e ↦ absurd (let no = sym (if_false _ _ e) ∙ h in cc)
    ]),
    (λ (key, e, h, takes).
        (key, if_true _ _ e ∙ h, scope_complete key.collection request.requested_collection takes)),
  )
    where
      bearer : Bool
      bearer = starts_with request.authorization (codes "Bearer ")

  passes_iff :
      (request : Request) (s : Option Session) (k : Option ApiKey)
      → (is_admitted (elim s [
        | some _ ↦ admitted none
        | none ↦ elim k [ none ↦ unauthorized | some key ↦ scoped hash_key request key ]
      ])
          ≡ true)
        ↔ (((found : Session) × (s ≡ some found))
            ⊎ ((key : ApiKey) × (k ≡ some key)
                × (out_of_scope hash_key key.collection request.requested_collection ≡ false)))
  passes_iff request (some s) k = ((λ _. inl (s, refl)), (λ _. refl))
  passes_iff request none none =
      ((λ e. absurd cc), (λ h. elim h [ inl (s, e) ↦ absurd cc | inr (key, e, _) ↦ absurd cc ]))
  passes_iff request none (some key) = (
    (λ e. inr (key, refl, ground (arith, e))),
    (λ h. elim h [
      | inl (s, e) ↦ absurd cc
      | inr (other, e, within) ↦
          let same : key ≡ other = cc in
          let within_too : out_of_scope hash_key key.collection request.requested_collection
              ≡ false =
            ap (λ (x : ApiKey). out_of_scope hash_key x.collection request.requested_collection)
              same
            ∙ within in
          rw within_too refl
    ]),
  )

  -- With authentication enabled, a request passes exactly where it brings a cookie whose digest is of
  -- a session that is neither revoked nor expired, or a bearer token whose digest is of a key that
  -- has no collection, or takes the requested one.
  pub require_auth_iff :
      (now : ℕ) (db : Tables) (request : Request)
      → (is_admitted (require_auth hash_key true now db request) ≡ true)
        ↔ HasCredentials now db request
  unfolding require_auth require_api_key
  require_auth_iff now db request =
      let passes =
        passes_iff request (session_from_cookie hash_key now db request)
          (api_key_from_header hash_key db request) in
      let session = session_iff now db request in
      let key = key_iff db request in
      (
        (λ h. elim (passes.0 h) [ inl s ↦ inl (session.0 s) | inr k ↦ inr (key.0 k) ]),
        (λ h. passes.1 (elim h [ inl s ↦ inl (session.1 s) | inr k ↦ inr (key.1 k) ])),
      )
