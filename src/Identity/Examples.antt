-- ===== src/Identity/Examples.antt =====
-- Runs of a registration, and of the refresh of a session.
use eventory.Common.{
  ◌≤◌, ◌≡◌, refl, none, some, List, [], ◌∷◌, ◌++◌, nat_eq, Text, codes, text_beq, text_eq, find_by,
  true,
}
use eventory.Errors.{Code, unauthorized, err, Result}
use eventory.Identity.Service.{RefreshToken, refresh, has_hash}
use eventory.Identity.Accounts.{
  Credentials, Settings, register, Draws, AccountDb, Library, Session, Account, to_public_user,
  set_session_cookies, account_for,
}
use eventory.Identity.Rotation.{
  IsRevoked, refresh-IsRevoked, Exchange, AreFresh, exchanges, exchanges-once,
}

abbrev hash : Text → Text
hash token = codes "#" ++ token

abbrev used_token : RefreshToken
used_token = record {
  id = codes "r1";
  user_id = codes "u1";
  token_hash = codes "#old";
  family_id = codes "f1";
  expires_at = 1000;
  used_at = some 5;
  revoked_at = none;
}

abbrev live_token : RefreshToken
live_token = record {
  id = codes "r2";
  user_id = codes "u1";
  token_hash = codes "#new";
  family_id = codes "f1";
  expires_at = 1000;
  used_at = none;
  revoked_at = none;
}

abbrev tokens : List RefreshToken
tokens = live_token ∷ (used_token ∷ [])

used_token_found : find_by (has_hash (hash (codes "old"))) tokens ≡ some used_token
unfolding find_by text_beq
used_token_found = refl

refresh-IsRevoked_example :
    ((refresh hash 10 11 60 (codes "r3") (codes "x") (some (codes "old")) tokens).0
      ≡ err (unauthorized Code.refresh_token_reuse))
    × IsRevoked
        (codes "f1")
        (refresh hash 10 11 60 (codes "r3") (codes "x") (some (codes "old")) tokens).1
refresh-IsRevoked_example =
    refresh-IsRevoked hash 10 11 60 (codes "r3") (codes "x") (codes "old") tokens used_token
      used_token_found refl refl

abbrev request : Text → Exchange
request fresh = record {
  now = 10;
  ttl = 60;
  fresh = fresh;
  refresh_token = codes "x";
  refresh_hash = codes "#x";
  current = live_token;
}

abbrev requests : List Exchange
requests = request (codes "r3") ∷ (request (codes "r4") ∷ [])

fresh_rows : AreFresh (codes "r2") requests
unfolding text_beq
fresh_rows = (refl, (refl, tt))

exchanges-once_example : exchanges (codes "r2") requests tokens ≤ 1
exchanges-once_example = exchanges-once (codes "r2") requests tokens fresh_rows

abbrev library : Library
library = record {
  to_lower_case = λ s. s;
  hash_token = hash;
  hash_password = λ salt password. password;
  verify_password = λ password_hash password. some (text_beq password_hash password);
  sign_access_token = λ signed_at ttl user_id role. user_id;
}

abbrev settings : Settings
settings = record {
  is_production = true;
  access_token_ttl_seconds = 900;
  refresh_token_ttl_seconds = 60;
}

abbrev draws : Text → Text → Draws
draws refresh_token token_id = record {
  signed_at = 9;
  now = 10;
  user_id = codes "u2";
  salt = codes "s";
  refresh_token = refresh_token;
  token_id = token_id;
  family_id = codes "f2";
}

abbrev credentials : Credentials
credentials = record { email = codes " ann@x.org"; password = codes "Correct-Horse7" }

abbrev accounts : AccountDb
accounts = record { users = []; refresh_tokens = tokens; audit_logs = [] }

abbrev ann : Account
ann = account_for library (draws (codes "y") (codes "r5")) (codes "Ann") credentials

abbrev first_session : Session
first_session = record {
  user = to_public_user ann;
  cookies = set_session_cookies settings (codes "u2") (codes "y");
}

abbrev registered : Result Session × AccountDb
registered =
    register library settings (draws (codes "y") (codes "r5")) (codes "Ann") credentials accounts
