-- ===== src/Auth/Dead.antt =====
-- What the calls of backend/ontology_platform/auth.py do to sessions that are revoked.
use aletheia_onto.Base.{
  ℕ, ◌≡◌, ◌≢◌, ◌+◌, refl, subst, Bool, true, false, not, some, List, [], ◌∷◌, arith, All, find, ltb,
  ◌==◌, ◌||◌, if◌then◌else◌, is_set, Bool-cases, inl, inr, Text, contains, Result, ok, err,
  raise_if_returned, or_raise_returned,
}
use aletheia_onto.Auth.{
  User, Session, Accounts, AuthError, Principal, Crypto, format_moment, user_named, is_there, roles,
  revoke_user, revoke_token, unexpired, create_user, set_user_status, change_password,
  reset_password, login, resolve_principal,
}

-- Every session of the token is revoked, or there is none.
abbrev pub IsDead : Text → List Session → Type 0
IsDead token_hash sessions =
    All (λ x. (not (x.token_hash == token_hash) || x.is_revoked) ≡ true) sessions

-- Every session of the token is one of the user.
abbrev pub IssuedTo : ℕ → Text → List Session → Type 0
IssuedTo user_id token_hash sessions =
    All (λ x. (not (x.token_hash == token_hash) || (x.user_id == user_id)) ≡ true) sessions

pub revoke_user-IsDead :
    (user_id : ℕ) (th : Text) (sessions : List Session)
    → IsDead th sessions
    → IsDead th (revoke_user user_id sessions)
unfolding revoke_user
revoke_user-IsDead user_id th [] d = tt
revoke_user-IsDead user_id th (x ∷ sessions) d =
    (ground (arith, d.0), revoke_user-IsDead user_id th sessions d.1)

pub revoke_user-IssuedTo :
    (user_id : ℕ) (th : Text) (sessions : List Session)
    → IssuedTo user_id th sessions
    → IsDead th (revoke_user user_id sessions)
unfolding revoke_user
revoke_user-IssuedTo user_id th [] i = tt
revoke_user-IssuedTo user_id th (x ∷ sessions) i =
    (ground (arith, i.0), revoke_user-IssuedTo user_id th sessions i.1)

pub revoke_token-IsDead :
    (other th : Text) (sessions : List Session)
    → IsDead th sessions
    → IsDead th (revoke_token other sessions)
unfolding revoke_token
revoke_token-IsDead other th [] d = tt
revoke_token-IsDead other th (x ∷ sessions) d =
    (ground (arith, d.0), revoke_token-IsDead other th sessions d.1)

pub unexpired-IsDead :
    (now : ℕ) (th : Text) (sessions : List Session)
    → IsDead th sessions
    → IsDead th (unexpired now sessions)
unfolding unexpired
unexpired-IsDead now th [] d = tt
unexpired-IsDead now th (x ∷ sessions) d = elim (Bool-cases (ltb x.expires_at now)) [
  | inl e ↦ rw e (unexpired-IsDead now th sessions d.1)
  | inr e ↦ rw e (d.0, unexpired-IsDead now th sessions d.1)
]

found_revoked :
    (th : Text) (sessions : List Session) (x : Session)
    → IsDead th sessions
    → find (λ y. y.token_hash == th) sessions ≡ some x
    → x.is_revoked ≡ true
found_revoked th [] x d h = absurd (ground (arith, h))
found_revoked th (y ∷ sessions) x d h = elim (Bool-cases (y.token_hash == th)) [
  | inr e ↦ found_revoked th sessions x d.1 (rw e at h)
  | inl e ↦
      let same : some y ≡ some x = rw e at h in
      let eq : y ≡ x = ground (arith, same) in
      subst (λ (z : Session). z.is_revoked ≡ true) eq (ground (arith, d.0, e))
]

module _ (crypto : Crypto) where
  not_answered :
      (a : Accounts) (token : Text) (now : ℕ) (p : Principal)
      → IsDead (crypto.hash_token token) a.sessions
      → resolve_principal crypto a token now ≢ ok p
  unfolding resolve_principal
  not_answered a token now p dead h =
      let th = crypto.hash_token token in
      let (given, h₁) = raise_if_returned (not (is_set token)) _ _ p h in
      let (x, found, h₂) = or_raise_returned (find (λ y. y.token_hash == th) a.sessions) _ _ p h₁ in
      let (u, owner, h₃) = or_raise_returned (find (λ u. u.id == x.user_id) a.users) _ _ p h₂ in
      let (live, h₄) = raise_if_returned x.is_revoked _ _ p h₃ in
      ground (arith, live, found_revoked th a.sessions x dead found)

  -- The token of revoked sessions is refused at every moment.
  pub resolve_dead :
      (a : Accounts) (token : Text) (now : ℕ)
      → IsDead (crypto.hash_token token) a.sessions
      → (e : AuthError) × (resolve_principal crypto a token now ≡ err e)
  resolve_dead a token now dead = decide (resolve_principal crypto a token now) refl
    where
      decide :
          (r : Result AuthError Principal)
          → resolve_principal crypto a token now ≡ r
          → (e : AuthError) × (resolve_principal crypto a token now ≡ err e)
      decide (err e) h = (e, h)
      decide (ok p) h = absurd (not_answered a token now p dead h)

  pub create_user_sessions :
      (a a' : Accounts) (new_id : ℕ) (name hash role_code : Text)
      → create_user crypto a new_id name hash role_code ≡ ok a'
      → a'.sessions ≡ a.sessions
  unfolding create_user
  create_user_sessions a a' new_id name hash role_code h =
      let (given, h₁) = raise_if_returned (not (is_set (crypto.normalize name))) _ _ a' h in
      let (known, h₂) = raise_if_returned (not (contains role_code roles)) _ _ a' h₁ in
      let taken = is_there (user_named a (crypto.normalize name)) in
      let (free, h₃) = raise_if_returned taken _ _ a' h₂ in ground (arith, h₃)

  -- What a change of an account does to the sessions.
  pub set_user_status_sessions :
      (a a' : Accounts) (name : Text) (active : Bool)
      → set_user_status crypto a name active ≡ ok a'
      → (u : User) × (user_named a (crypto.normalize name) ≡ some u)
        × (a'.sessions ≡ (if active then a.sessions else revoke_user u.id a.sessions))
  unfolding set_user_status
  set_user_status_sessions a a' name active h =
      let (u, named, h₁) = or_raise_returned (user_named a (crypto.normalize name)) _ _ a' h in
      (u, named, ground (arith, h₁))

  pub change_password_sessions :
      (a a' : Accounts) (name current hash : Text)
      → change_password crypto a name current hash ≡ ok a'
      → (u : User) × (user_named a (crypto.normalize name) ≡ some u)
        × (a'.sessions ≡ revoke_user u.id a.sessions)
  unfolding change_password
  change_password_sessions a a' name current hash h =
      let (u, named, h₁) = or_raise_returned (user_named a (crypto.normalize name)) _ _ a' h in
      let (known, h₂) =
        raise_if_returned (not (crypto.verify_password current u.password_hash)) _ _ a' h₁ in
      (u, named, ground (arith, h₂))

  pub reset_password_sessions :
      (a a' : Accounts) (name new_password hash : Text)
      → reset_password crypto a name new_password hash ≡ ok a'
      → (u : User) × (user_named a (crypto.normalize name) ≡ some u)
        × (a'.sessions ≡ revoke_user u.id a.sessions)
  unfolding reset_password
  reset_password_sessions a a' name new_password hash h =
      let (given, h₁) = raise_if_returned (not (is_set (crypto.normalize name))) _ _ a' h in
      let (strong, h₂) = raise_if_returned (not (crypto.is_strong new_password)) _ _ a' h₁ in
      let (u, named, h₃) = or_raise_returned (user_named a (crypto.normalize name)) _ _ a' h₂ in
      (u, named, ground (arith, h₃))

  pub login-IsDead :
      (a a' : Accounts) (name password token : Text) (now ttl : ℕ) (th : Text)
      → (crypto.hash_token token == th) ≡ false
      → login crypto a name password token now ttl ≡ ok a'
      → IsDead th a.sessions
      → IsDead th a'.sessions
  unfolding login
  login-IsDead a a' name password token now ttl th other h dead =
      let (u, named, h₁) = or_raise_returned (user_named a (crypto.normalize name)) _ _ a' h in
      let (valid, h₂) =
        raise_if_returned (not (crypto.verify_password password u.password_hash) || u.is_federated)
          _ _ a' h₁ in
      let (active, h₃) = raise_if_returned (not u.is_active) _ _ a' h₂ in
      let added : Session = record {
        token_hash = crypto.hash_token token;
        user_id = u.id;
        expires_at = format_moment (now + ttl);
        is_revoked = false;
      } in
      let sessions : a'.sessions ≡ added ∷ a.sessions = ground (arith, h₃) in
      rw sessions (ground (arith, other), dead)
