-- ===== src/Auth/Issued.antt =====
-- The token that `login` of backend/ontology_platform/auth.py hands out.
use aletheia_onto.Base.{
  ℕ, suc, ◌+◌, ◌*◌, ◌≤◌, ◌<◌, ◌≡◌, refl, sym, ◌∙◌, ap, true, false, not, some, ◌∷◌, arith, find,
  ltb, ◌==◌, ==-refl, ◌||◌, is_set, Text, ok, err, raise_if_returned, or_raise_returned,
}
use aletheia_onto.Auth.{
  User, Session, Accounts, Crypto, expired, second, format_moment, user_named, login,
  resolve_principal,
}

-- The whole second that a moment lies in.
format_moment_second :
    (moment whole : ℕ)
    → whole * second ≤ moment
    → moment < suc whole * second
    → format_moment moment ≡ whole * second
unfolding format_moment
format_moment_second moment whole low high = omega (arith, low, high)

module _ (crypto : Crypto) where
  resolved :
      (a : Accounts) (token : Text) (now : ℕ) (x : Session) (u : User)
      → is_set token ≡ true
      → find (λ y. y.token_hash == crypto.hash_token token) a.sessions ≡ some x
      → find (λ v. v.id == x.user_id) a.users ≡ some u
      → x.is_revoked ≡ false
      → now ≤ x.expires_at
      → u.is_active ≡ true
      → resolve_principal crypto a token now
        ≡ ok (record { user_id = u.id; username = u.username; role_code = u.role_code })
  unfolding resolve_principal
  resolved a token now x u given found owner live le active =
      let fresh : ltb x.expires_at now ≡ false = ground (arith, le) in
      rw (given, found, owner, live, fresh, active) refl

  late :
      (a : Accounts) (token : Text) (now : ℕ) (x : Session) (u : User)
      → is_set token ≡ true
      → find (λ y. y.token_hash == crypto.hash_token token) a.sessions ≡ some x
      → find (λ v. v.id == x.user_id) a.users ≡ some u
      → x.is_revoked ≡ false
      → x.expires_at < now
      → resolve_principal crypto a token now ≡ err expired
  unfolding resolve_principal
  late a token now x u given found owner live lt =
      let over : ltb x.expires_at now ≡ true = ground (arith, lt) in
      rw (given, found, owner, live, over) refl

  -- The state after a login, and the session in it.
  issued :
      (a b : Accounts) (name password token : Text) (now ttl : ℕ) (u : User)
      → user_named a (crypto.normalize name) ≡ some u
      → find (λ v. v.id == u.id) a.users ≡ some u
      → login crypto a name password token now ttl ≡ ok b
      → (find (λ y. y.token_hash == crypto.hash_token token) b.sessions
          ≡ some (record {
            token_hash = crypto.hash_token token;
            user_id = u.id;
            expires_at = format_moment (now + ttl);
            is_revoked = false;
          }))
        × (find (λ v. v.id == u.id) b.users ≡ some u)
        × (u.is_active ≡ true)
  unfolding login
  issued a b name password token now ttl u named unique h =
      let (v, named', h₁) = or_raise_returned (user_named a (crypto.normalize name)) _ _ b h in
      let (valid, h₂) =
        raise_if_returned (not (crypto.verify_password password v.password_hash) || v.is_federated)
          _ _ b h₁ in
      let (active, h₃) = raise_if_returned (not v.is_active) _ _ b h₂ in
      let added : User → Session = λ x. record {
        token_hash = crypto.hash_token token;
        user_id = x.id;
        expires_at = format_moment (now + ttl);
        is_revoked = false;
      } in
      let eq : some v ≡ some u = sym named' ∙ named in
      let same : v ≡ u = ground (arith, eq) in
      let sessions : b.sessions ≡ added v ∷ a.sessions = ground (arith, h₃) in
      let users : b.users ≡ a.users = ground (arith, h₃) in
      (
        ap (find (λ y. y.token_hash == crypto.hash_token token)) sessions
            ∙ (ground (arith, ==-refl (crypto.hash_token token))
                ∙ ap (λ (x : User). some (added x)) same),
        ap (find (λ (w : User). w.id == u.id)) users ∙ unique,
        ground (arith, active, same),
      )

  -- The token that a login hands out is answered with the user who logged in up to the last whole
  -- second that the session's duration reaches, and refused as expired after it: the name is that
  -- of an account, whose key is unique, and the token is not empty. Moments are microseconds.
  pub resolve_principal-login :
      (a b : Accounts) (name password token : Text) (now ttl t whole : ℕ) (u : User)
      → user_named a (crypto.normalize name) ≡ some u
      → find (λ v. v.id == u.id) a.users ≡ some u
      → is_set token ≡ true
      → whole * 1000000 ≤ now + ttl
      → now + ttl < suc whole * 1000000
      → login crypto a name password token now ttl ≡ ok b
      → ((t ≤ whole * 1000000)
          → resolve_principal crypto b token t
            ≡ ok (record { user_id = u.id; username = u.username; role_code = u.role_code }))
        × ((whole * 1000000 < t) → resolve_principal crypto b token t ≡ err expired)
  resolve_principal-login a b name password token now ttl t whole u named unique given low high h =
      let (found, owner, active) = issued a b name password token now ttl u named unique h in
      let ends = format_moment_second (now + ttl) whole low high in
      (
        λ le. resolved b token t _ u given found owner refl (omega (arith, ends, le)) active,
        λ lt. late b token t _ u given found owner refl (omega (arith, ends, lt)),
      )
