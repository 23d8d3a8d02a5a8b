-- ===== src/Auth/Revoked.antt =====
-- A session that backend/ontology_platform/auth.py has revoked stays revoked, whatever is called
-- afterwards.
use aletheia_onto.Base.{
  ℕ, ◌≡◌, sym, ◌∙◌, ap, subst, Bool, true, false, some, arith, ◌==◌, Text, ok, err,
}
use aletheia_onto.Auth.{
  format_moment, User, Accounts, AuthError, Crypto, user_named, revoke_user, create_user,
  set_user_status, change_password, reset_password, login, logout, resolve_principal,
  purge_expired_sessions,
}
use aletheia_onto.Auth.Dead.{
  IsDead, IssuedTo, revoke_user-IsDead, revoke_user-IssuedTo, revoke_token-IsDead, unexpired-IsDead,
  resolve_dead, create_user_sessions, set_user_status_sessions, change_password_sessions,
  reset_password_sessions, login-IsDead,
}

module _ (crypto : Crypto) where
  -- One call; a login hands out another token than the one with the hash `th`.
  pub data Call (th : Text) : Accounts → Accounts → Type 0 where
    created :
        {a a' : Accounts} (new_id : ℕ) (name hash role_code : Text)
        → create_user crypto a new_id name hash role_code ≡ ok a'
        → Call th a a'
    status_set :
        {a a' : Accounts} (name : Text) (active : Bool)
        → set_user_status crypto a name active ≡ ok a'
        → Call th a a'
    changed :
        {a a' : Accounts} (name current hash : Text)
        → change_password crypto a name current hash ≡ ok a'
        → Call th a a'
    reset :
        {a a' : Accounts} (name new_password hash : Text)
        → reset_password crypto a name new_password hash ≡ ok a'
        → Call th a a'
    logged_in :
        {a a' : Accounts} (name password token : Text) (now ttl : ℕ)
        → (crypto.hash_token token == th) ≡ false
        → login crypto a name password token now ttl ≡ ok a'
        → Call th a a'
    logged_out : {a : Accounts} (token : Text) → Call th a (logout crypto a token)
    purged : {a : Accounts} (now : ℕ) → Call th a (purge_expired_sessions a now)

  pub data Calls (th : Text) : Accounts → Accounts → Type 0 where
    done : {a : Accounts} → Calls th a a
    next : {a b c : Accounts} → Call th a b → Calls th b c → Calls th a c

  Call-IsDead :
      (th : Text) (a b : Accounts) → Call th a b → IsDead th a.sessions → IsDead th b.sessions
  unfolding logout purge_expired_sessions
  Call-IsDead th a b (created i n p r h) d =
      subst (IsDead th) (sym (create_user_sessions crypto a b i n p r h)) d
  Call-IsDead th a b (status_set n true h) d =
      let (u, named, same) = set_user_status_sessions crypto a b n true h in
      subst (IsDead th) (sym same) d
  Call-IsDead th a b (status_set n false h) d =
      let (u, named, same) = set_user_status_sessions crypto a b n false h in
      subst (IsDead th) (sym same) (revoke_user-IsDead u.id th a.sessions d)
  Call-IsDead th a b (changed n p q h) d =
      let (u, named, same) = change_password_sessions crypto a b n p q h in
      subst (IsDead th) (sym same) (revoke_user-IsDead u.id th a.sessions d)
  Call-IsDead th a b (reset n p q h) d =
      let (u, named, same) = reset_password_sessions crypto a b n p q h in
      subst (IsDead th) (sym same) (revoke_user-IsDead u.id th a.sessions d)
  Call-IsDead th a b (logged_in n p t now ttl other h) d =
      login-IsDead crypto a b n p t now ttl th other h d
  Call-IsDead th a b (logged_out token) d =
      revoke_token-IsDead (crypto.hash_token token) th a.sessions d
  Call-IsDead th a b (purged now) d = unexpired-IsDead (format_moment now) th a.sessions d

  Calls-IsDead :
      (th : Text) (a b : Accounts) → Calls th a b → IsDead th a.sessions → IsDead th b.sessions
  Calls-IsDead th a b done d = d
  Calls-IsDead th a b (next {b = c} call calls) d =
      Calls-IsDead th c b calls (Call-IsDead th a c call d)

  -- What cuts off the sessions of a user: disabling the account, changing its password, and
  -- resetting it.
  pub data CutsOff (u : User) : Accounts → Accounts → Type 0 where
    by_status :
        {a b : Accounts} (name : Text)
        → user_named a (crypto.normalize name) ≡ some u
        → set_user_status crypto a name false ≡ ok b
        → CutsOff u a b
    by_change :
        {a b : Accounts} (name current hash : Text)
        → user_named a (crypto.normalize name) ≡ some u
        → change_password crypto a name current hash ≡ ok b
        → CutsOff u a b
    by_reset :
        {a b : Accounts} (name new_password hash : Text)
        → user_named a (crypto.normalize name) ≡ some u
        → reset_password crypto a name new_password hash ≡ ok b
        → CutsOff u a b

  revoked_for :
      (u v : User) (th : Text) (a b : Accounts) (name : Text)
      → user_named a (crypto.normalize name) ≡ some u
      → user_named a (crypto.normalize name) ≡ some v
      → b.sessions ≡ revoke_user v.id a.sessions
      → IssuedTo u.id th a.sessions
      → IsDead th b.sessions
  revoked_for u v th a b name named named' same issued =
      let eq : some u ≡ some v = sym named ∙ named' in
      let user : u.id ≡ v.id = ground (arith, eq) in
      subst (IsDead th) (sym (same ∙ ap (λ i. revoke_user i a.sessions) (sym user)))
        (revoke_user-IssuedTo u.id th a.sessions issued)

  CutsOff-IsDead :
      (u : User) (th : Text) (a b : Accounts)
      → CutsOff u a b
      → IssuedTo u.id th a.sessions
      → IsDead th b.sessions
  CutsOff-IsDead u th a b (by_status n named h) issued =
      let (v, named', same) = set_user_status_sessions crypto a b n false h in
      revoked_for u v th a b n named named' same issued
  CutsOff-IsDead u th a b (by_change n p q named h) issued =
      let (v, named', same) = change_password_sessions crypto a b n p q h in
      revoked_for u v th a b n named named' same issued
  CutsOff-IsDead u th a b (by_reset n p q named h) issued =
      let (v, named', same) = reset_password_sessions crypto a b n p q h in
      revoked_for u v th a b n named named' same issued

  -- Once an account is disabled or its password is changed or reset, a token that was issued only
  -- to that user is refused at every moment and after whatever calls, among them the account's
  -- reactivation and logins of anybody, as long as no login hands out a token with the same hash.
  pub cut_off_for_good :
      (u : User) (token : Text) (a b c : Accounts) (now : ℕ)
      → IssuedTo u.id (crypto.hash_token token) a.sessions
      → CutsOff u a b
      → Calls (crypto.hash_token token) b c
      → (e : AuthError) × (resolve_principal crypto c token now ≡ err e)
  cut_off_for_good u token a b c now issued cut calls = resolve_dead crypto c token now (
      Calls-IsDead (crypto.hash_token token) b c calls
        (CutsOff-IsDead u (crypto.hash_token token) a b cut issued))
