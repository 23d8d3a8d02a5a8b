-- ===== src/Tests/Login.antt =====
-- Examples for backend/ontology_platform/auth.py.
use aletheia_onto.Base.{◌+◌, ◌*◌, ◌≤◌, ◌<◌, ◌≡◌, refl, true, false, [], ◌∷◌, arith, ◌==◌, ok, err}
use aletheia_onto.Auth.{
  User, Session, Accounts, AuthError, Crypto, revoked, expired, forbidden, authorize, revoke_user,
  update_users, format_moment, set_user_status, login, resolve_principal,
}
use aletheia_onto.Auth.Revoked.{CutsOff, by_status, Calls, done, next, status_set, cut_off_for_good}
use aletheia_onto.Auth.Issued.{resolve_principal-login}

-- The hash of a text is the text moved.
abbrev plain : Crypto
plain = record {
  normalize = λ name. name;
  verify_password = λ password hash. hash == password + 100;
  hash_token = λ token. token + 1000;
  is_strong = λ password. true;
}

abbrev operator : User
operator = record {
  id = 1;
  username = 11;
  role_code = 4;
  is_active = true;
  password_hash = 122;
  is_federated = false;
}

abbrev session : Session
session = record { token_hash = 1050; user_id = 1; expires_at = 3000000; is_revoked = false }

abbrev before_login : Accounts
before_login = record { users = operator ∷ []; sessions = [] }

abbrev after_login : Accounts
after_login = record { users = operator ∷ []; sessions = session ∷ [] }

-- The session starts at 1.9 s, lasts 1.6 s and ends at 3 s.
resolve_principal-login_example :
    ((2000000 ≤ 3 * 1000000)
      → resolve_principal plain after_login 50 2000000
        ≡ ok (record { user_id = 1; username = 11; role_code = 4 }))
    × ((3 * 1000000 < 2000000) → resolve_principal plain after_login 50 2000000 ≡ err expired)
unfolding login format_moment
resolve_principal-login_example =
    resolve_principal-login plain before_login after_login 11 22 50 1900000 1600000 2000000 3
      operator refl refl refl (omega arith) (omega arith) refl

-- Before the end of its duration of 1.6 s it is refused.
cut_short : resolve_principal plain after_login 50 3200000 ≡ err expired
unfolding resolve_principal
cut_short = refl

abbrev disabled_account : Accounts
disabled_account = record {
  users = record operator { is_active = false } ∷ [];
  sessions = record session { is_revoked = true } ∷ [];
}

abbrev enabled_again : Accounts
enabled_again = record disabled_account { users = operator ∷ [] }

disabling : CutsOff plain operator after_login disabled_account
unfolding set_user_status update_users revoke_user
disabling = by_status 11 refl refl

enabling : Calls plain 1050 disabled_account enabled_again
unfolding set_user_status update_users revoke_user
enabling = next (status_set 11 true refl) done

cut_off_for_good_example : (e : AuthError) × (resolve_principal plain enabled_again 50 7 ≡ err e)
cut_off_for_good_example =
    cut_off_for_good plain operator 50 after_login disabled_account enabled_again 7 (refl, tt)
      disabling enabling

still_revoked : resolve_principal plain enabled_again 50 7 ≡ err revoked
unfolding resolve_principal
still_revoked = refl

-- An operator may execute and not write.
operator_authorized :
    (authorize (record { user_id = 1; username = 11; role_code = 4 }) 5 ≡ ok tt)
    × (authorize (record { user_id = 1; username = 11; role_code = 4 }) 2 ≡ err forbidden)
unfolding authorize
operator_authorized = (refl, refl)
