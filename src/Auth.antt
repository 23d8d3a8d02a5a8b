-- ===== src/Auth.antt =====
-- Accounts and sessions: backend/ontology_platform/auth.py. Hashing, the random token, the
-- normalization of a name and the test of a password's strength are parameters; a moment is a
-- number of microseconds, and `format_moment` cuts it to whole seconds.
pub mod Dead
pub mod Revoked
pub mod Issued
use aletheia_onto.Base.{
  ℕ, ◌+◌, ◌*◌, ◌/◌, Bool, true, false, not, Option, none, some, List, [], ◌∷◌, find, ltb, ◌==◌,
  ◌&&◌, ◌||◌, if◌then◌else◌, Text, is_set, contains, Dict, lookup_or, Result, ok, err, ◌>>=◌, ◌>>◌,
  raise_if, or_raise,
}

-- The six capabilities and the six roles, numbered: read 1, write 2, review 3, publish 4,
-- execute 5 and admin 6.
abbrev pub all_capabilities : List Text
all_capabilities = 1 ∷ 2 ∷ 3 ∷ 4 ∷ 5 ∷ 6 ∷ []

-- Of admin 1, ontology_engineer 2, business_expert 3, operator 4, analyst 5 and ai_agent 6.
abbrev pub role_capabilities : Dict (List Text)
role_capabilities =
    (1, all_capabilities)
    ∷ (2, 1 ∷ 2 ∷ 4 ∷ [])
    ∷ (3, 1 ∷ 2 ∷ 3 ∷ [])
    ∷ (4, 1 ∷ 5 ∷ [])
    ∷ (5, 1 ∷ [])
    ∷ (6, 1 ∷ [])
    ∷ []

-- `is_federated` is that `identity_source` is not `local`.
pub record User : Type 0 where
  pub id : ℕ
  pub username : Text
  pub role_code : Text
  pub is_active : Bool
  pub password_hash : Text
  pub is_federated : Bool

pub record Session : Type 0 where
  pub token_hash : Text
  pub user_id : ℕ
  pub expires_at : ℕ
  pub is_revoked : Bool

pub record Accounts : Type 0 where
  pub users : List User
  pub sessions : List Session

pub data AuthError : Type 0 where
  empty_name unknown_role user_exists unknown_status no_user weak_password : AuthError
  wrong_credentials wrong_password disabled : AuthError
  no_token invalid_token revoked expired forbidden : AuthError

pub record Principal : Type 0 where
  pub user_id : ℕ
  pub username : Text
  pub role_code : Text

abbrev pub capabilities : Principal → List Text
capabilities p = lookup_or (1 ∷ []) p.role_code role_capabilities

unfoldable pub authorize : Principal → Text → Result AuthError (Unit {0})
authorize p capability = raise_if (not (contains capability (capabilities p))) forbidden

-- What the code calls: names in their normal form, hashes of a password, which salt differently at
-- each call, and of a token, and the tests of a password.
pub record Crypto : Type 0 where
  pub normalize : Text → Text
  pub verify_password : Text → Text → Bool
  pub hash_token : Text → Text
  pub is_strong : Text → Bool

abbrev pub user_named : Accounts → Text → Option User
user_named a username = find (λ u. u.username == username) a.users

-- `existing is not None`
abbrev pub is_there : Option User → Bool
is_there none = false
is_there (some u) = true

-- `role_code not in ROLE_CAPABILITIES`
abbrev pub roles : List Text
roles = 1 ∷ 2 ∷ 3 ∷ 4 ∷ 5 ∷ 6 ∷ []

-- `update user_session set revoked = 1 where user_id = ?`
unfoldable pub revoke_user : ℕ → List Session → List Session
revoke_user user_id [] = []
revoke_user user_id (x ∷ sessions) =
    (if x.user_id == user_id then record x { is_revoked = true } else x)
    ∷ revoke_user user_id sessions

-- `update user_session set revoked = 1 where token_hash = ?`
unfoldable pub revoke_token : Text → List Session → List Session
revoke_token token_hash [] = []
revoke_token token_hash (x ∷ sessions) =
    (if x.token_hash == token_hash then record x { is_revoked = true } else x)
    ∷ revoke_token token_hash sessions

unfoldable pub update_users : (User → User) → ℕ → List User → List User
update_users f id [] = []
update_users f id (u ∷ users) = (if u.id == id then f u else u) ∷ update_users f id users

-- `delete from user_session where expires_at < ?`
unfoldable pub unexpired : ℕ → List Session → List Session
unexpired now [] = []
unexpired now (x ∷ sessions) =
    if ltb x.expires_at now then unexpired now sessions else x ∷ unexpired now sessions

abbrev pub second : ℕ
second = 1000000

-- `format_moment`, read again: the whole second that the text names.
unfoldable pub format_moment : ℕ → ℕ
format_moment moment = moment / second * second

module _ (crypto : Crypto) where
  -- `new_id` and `hash` are what the database and `hash_password` answer.
  unfoldable pub create_user : Accounts → ℕ → Text → Text → Text → Result AuthError Accounts
  create_user a new_id name hash role_code = do
    raise_if (not (is_set (crypto.normalize name))) empty_name
    raise_if (not (contains role_code roles)) unknown_role
    raise_if (is_there (user_named a (crypto.normalize name))) user_exists
    ok (record a {
      users =
          record {
            id = new_id;
            username = crypto.normalize name;
            role_code = role_code;
            is_active = true;
            password_hash = hash;
            is_federated = false;
          }
          ∷ a.users;
    })

  -- The status is active or disabled; any other text is refused before it gets here.
  unfoldable pub set_user_status : Accounts → Text → Bool → Result AuthError Accounts
  unfolding update_users revoke_user
  set_user_status a name active = do
    u ← or_raise (user_named a (crypto.normalize name)) no_user
    ok (record a {
      users = update_users (λ x. record x { is_active = active }) u.id a.users;
      sessions = if active then a.sessions else revoke_user u.id a.sessions;
    })

  unfoldable pub change_password : Accounts → Text → Text → Text → Result AuthError Accounts
  unfolding update_users revoke_user
  change_password a name current hash = do
    u ← or_raise (user_named a (crypto.normalize name)) wrong_credentials
    raise_if (not (crypto.verify_password current u.password_hash)) wrong_password
    ok (record a {
      users = update_users (λ x. record x { password_hash = hash }) u.id a.users;
      sessions = revoke_user u.id a.sessions;
    })

  unfoldable pub reset_password : Accounts → Text → Text → Text → Result AuthError Accounts
  unfolding update_users revoke_user
  reset_password a name new_password hash = do
    raise_if (not (is_set (crypto.normalize name))) empty_name
    raise_if (not (crypto.is_strong new_password)) weak_password
    u ← or_raise (user_named a (crypto.normalize name)) no_user
    ok (record a {
      users = update_users (λ x. record x { password_hash = hash }) u.id a.users;
      sessions = revoke_user u.id a.sessions;
    })

  -- `token` is the random text that is handed out, if the call returns.
  unfoldable pub login : Accounts → Text → Text → Text → ℕ → ℕ → Result AuthError Accounts
  unfolding format_moment
  login a name password token now ttl = do
    u ← or_raise (user_named a (crypto.normalize name)) wrong_credentials
    raise_if (not (crypto.verify_password password u.password_hash) || u.is_federated)
        wrong_credentials
    raise_if (not u.is_active) disabled
    ok (record a {
      sessions =
          record {
            token_hash = crypto.hash_token token;
            user_id = u.id;
            expires_at = format_moment (now + ttl);
            is_revoked = false;
          }
          ∷ a.sessions;
    })

  unfoldable pub logout : Accounts → Text → Accounts
  unfolding revoke_token
  logout a token = record a { sessions = revoke_token (crypto.hash_token token) a.sessions }

  unfoldable pub resolve_principal : Accounts → Text → ℕ → Result AuthError Principal
  resolve_principal a token now = do
    raise_if (not (is_set token)) no_token
    x ← or_raise (find (λ x. x.token_hash == crypto.hash_token token) a.sessions) invalid_token
    u ← or_raise (find (λ u. u.id == x.user_id) a.users) invalid_token
    raise_if x.is_revoked revoked
    raise_if (ltb x.expires_at now) expired
    raise_if (not u.is_active) disabled
    ok (record { user_id = u.id; username = u.username; role_code = u.role_code })

unfoldable pub purge_expired_sessions : Accounts → ℕ → Accounts
unfolding unexpired format_moment
purge_expired_sessions a now = record a { sessions = unexpired (format_moment now) a.sessions }
