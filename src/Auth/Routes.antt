-- ===== src/Auth/Routes.antt =====
-- prorag/auth_routes.py: login with a password, and the callback of OpenID Connect with the groups
-- that its claims seed. The exchange of the code for verified claims is a parameter.
use pro_rag.Prelude.{
  ℕ, Bool, true, false, not, ◌&&◌, ◌||◌, Option, none, some, List, [], ◌∷◌, ◌++◌, map, ◌==◌,
  if◌then◌else◌, filter, any, Text, same_text,
}
use pro_rag.Prelude.Reply.{Reply, refused, answer, guard, ◌>>=◌, ◌>>◌}
use pro_rag.Prelude.Table.{put_by}
use pro_rag.Prelude.Words.{codes, is_empty}
use pro_rag.Models.{User, Group, GroupSource, local, idp, UserGroup}
use pro_rag.Auth.{Session, create_session}
pub mod Seeds
mod Tests

-- The rows that the routes read and write.
pub record Accounts : Type 0 where
  pub users : List User
  pub groups : List Group
  pub user_groups : List UserGroup
  pub sessions : List Session

abbrev pub is_text : Text → Option Text → Bool
is_text t none = false
is_text t (some s) = same_text s t

abbrev find_email : List User → Text → Option User
find_email [] email = none
find_email (u ∷ users) email =
    let rest = find_email users email in if same_text u.email email then some u else rest

abbrev pub find_subject : List User → Text → Option User
find_subject [] sub = none
find_subject (u ∷ users) sub =
    let rest = find_subject users sub in if is_text sub u.external_subject then some u else rest

abbrev is_enabled : User → Bool
is_enabled u = elim u.disabled_at [ none ↦ true | some at ↦ false ]

abbrev is_idp : GroupSource → Bool
is_idp local = false
is_idp idp = true

-- `Group.source == "idp", Group.external_id == external_id`
abbrev pub find_idp : List Group → Text → Option Group
find_idp [] ext = none
find_idp (g ∷ groups) ext =
    let rest = find_idp groups ext in
    if is_idp g.source && is_text ext g.external_id then some g else rest

-- `UserGroup.group_id.in_(idp_group_ids)`
abbrev pub of_idp : List Group → ℕ → Bool
of_idp groups id = any (λ (g : Group). is_idp g.source && g.id == id) groups

-- What the seeding goes on changing.
pub record Seeded : Type 0 where
  pub groups : List Group
  pub user_groups : List UserGroup

abbrev pub membership : ℕ → ℕ → UserGroup
membership user_id group_id = record { user_id = user_id; group_id = group_id }

module _ (user_id : ℕ) (new_group_id : Text → ℕ) where
  -- A second row of one user and one group breaks the primary key.
  abbrev pub join : Seeded → ℕ → Reply Seeded
  join s group_id =
      guard
        (not
          (any (λ (m : UserGroup). m.user_id == user_id && m.group_id == group_id) s.user_groups))
        500
      >> answer (record s { user_groups = s.user_groups ++ membership user_id group_id ∷ [] })

  abbrev pub new_group : Text → Group
  new_group ext = record {
    id = new_group_id ext;
    name = codes "idp:" ++ ext;
    source = idp;
    external_id = some ext;
  }

  -- A name that is taken breaks the unique constraint.
  abbrev pub add_group : Seeded → Text → Reply Seeded
  add_group s ext =
      guard (not (any (λ (g : Group). same_text g.name (codes "idp:" ++ ext)) s.groups)) 500
      >> answer (record s { groups = s.groups ++ new_group ext ∷ [] })

  abbrev pub join_found : Seeded → Text → Option Group → Reply Seeded
  join_found s ext (some g) = join s g.id
  join_found s ext none = add_group s ext >>= λ s'. join s' (new_group_id ext)

  -- The loop over the claim.
  abbrev pub seed_from : Seeded → List Text → Reply Seeded
  seed_from s [] = answer s
  seed_from s (ext ∷ claim) = join_found s ext (find_idp s.groups ext) >>= λ s'. seed_from s' claim

  pub seed_idp_groups : Seeded → List Text → Reply Seeded
  seed_idp_groups s claim =
      seed_from
        (record s {
          user_groups =
              filter (λ (m : UserGroup). not (m.user_id == user_id && of_idp s.groups m.group_id))
                s.user_groups;
        })
        claim

-- The claims of a verified token.
pub record Claims : Type 0 where
  pub email : Option Text
  pub sub : Option Text
  pub name : Option Text
  pub groups : Option (List Text)

-- A text that is there and not empty, or a 400.
abbrev present : Option Text → Reply Text
present none = refused 400
present (some t) = if is_empty t then refused 400 else answer t

-- `cookie.split(":", 1)`, or a 400 without a colon
abbrev split_colon : Text → Reply (Text × Text)
split_colon [] = refused 400
split_colon (c ∷ s) =
    let rest = split_colon s in
    if c == 58 then answer ([], s) else (rest >>= λ p. answer (c ∷ p.0, p.1))

abbrev or_keep : Option Text → Option Text → Option Text
or_keep old none = old
or_keep old (some t) = if is_empty t then old else some t

abbrev user_key : User → ℕ
user_key u = u.id

module _ (hash_key : Text → Text) (verify_password : Text → Text → Bool) (ttl_days now : ℕ)
    (raw_token : Text) where
  abbrev with_session : Accounts → ℕ → Accounts
  with_session db user_id = record db {
    sessions = create_session hash_key ttl_days now user_id raw_token db.sessions;
  }

  abbrev password_fits : User → Text → Bool
  password_fits u password = elim u.password_hash [
    | none ↦ false
    | some hash ↦ verify_password hash password
  ]

  abbrev pub login_as : Accounts → Text → Option User → Reply Accounts
  login_as db password none = refused 401
  login_as db password (some u) =
      guard (is_enabled u && password_fits u password) 401 >> answer (with_session db u.id)

  pub login : Accounts → Text → Text → Reply Accounts
  login db email password = login_as db password (find_email db.users email)

  -- The email is unique.
  abbrev email_taken : List User → ℕ → Text → Bool
  email_taken users id email = any (λ (u : User). not (u.id == id) && same_text u.email email) users

  abbrev new_user : ℕ → Text → Text → Option Text → User
  new_user id sub email name = record {
    id = id;
    external_subject = some sub;
    email = email;
    display_name = name;
    is_admin = false;
    password_hash = none;
    daily_cap_usd_override = none;
    disabled_at = none;
  }

  abbrev upsert_user : Accounts → ℕ → Text → Text → Option Text → Option User → Reply (Accounts × ℕ)
  upsert_user db new_id sub email name none =
      guard (not (email_taken db.users new_id email)) 500
      >> answer (record db { users = db.users ++ new_user new_id sub email name ∷ [] }, new_id)
  upsert_user db new_id sub email name (some u) =
      guard (not (email_taken db.users u.id email)) 500
      >> answer (
        record db {
          users =
              put_by user_key
                (record u { email = email; display_name = or_keep u.display_name name }) db.users;
        },
        u.id,
      )

  abbrev seed : (Text → ℕ) → ℕ → Accounts → Option (List Text) → Reply Accounts
  seed new_group_id user_id db none = answer db
  seed new_group_id user_id db (some claim) =
      seed_idp_groups user_id new_group_id
        (record { groups = db.groups; user_groups = db.user_groups }) claim
      >>= λ s. answer (record db { groups = s.groups; user_groups = s.user_groups })

  -- The exchange takes the code and the nonce.
  pub oidc_callback :
      Bool
      → (Text → Text → Reply Claims)
      → Accounts
      → ℕ
      → (Text → ℕ)
      → Option Text
      → Option Text
      → Option Text
      → Reply Accounts
  oidc_callback oidc_configured exchange db new_user_id new_group_id code state cookie =
      guard oidc_configured 404 >> (do
        the_code ← present code
        the_state ← present state
        the_cookie ← present cookie
        parts ← split_colon the_cookie
        guard (same_text parts.0 the_state) 400
        claims ← exchange the_code parts.1
        email ← present claims.email
        sub ← present claims.sub
        upserted ← upsert_user db new_user_id sub email claims.name (find_subject db.users sub)
        seeded ← seed new_group_id upserted.1 upserted.0 claims.groups
        answer (with_session seeded upserted.1))
