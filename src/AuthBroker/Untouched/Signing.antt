-- ===== src/AuthBroker/Untouched/Signing.antt =====
-- The steps of the login, of the bootstrap and of the sessions.
use collator.Prelude.{[], Option, none, some, String, refl, arith, Bool-cases, inl, inr}
use collator.Model.{is_no_rows, Result, ok, err}
use collator.Auth.{Crypto, random_token}
use collator.AuthBroker.State.{
  Tables, Config, Server, Account, commit, session_token, csrf_token, Request, Net,
}
use collator.AuthBroker.Flow.{current, modify}
use collator.AuthBroker.Careful.{
  same, Kept, kept, Kept-trans, Kept-Same, Clean, Clean->>=, Guarded, Guarded->>=, Guarded-Written,
  Written, Written->>=, Succeeds, Succeeds->>=, or_respond-Clean,
}
use collator.AuthLimit.{success}
use collator.AuthBroker.Access.{limiter_name, release_hash, count_denied}
use collator.AuthBroker.Login.{
  Credentials, Factor, Pending, read_json, found_account, checked_account, deny, passed,
  check_login, is_consumed, end_login, opened, commit_login, login, load_account, check_password,
}
use collator.AuthBroker.Untouched.Steps.{
  rate_limit-Clean, wait-Clean, enter_gate-Clean, audit-Clean, audit-Written,
}

pub read_json-Clean {ℓ} : {A : Type ℓ} (body : Option A) → Clean (read_json body)
read_json-Clean none = record { at = λ s. kept }
read_json-Clean (some a) = record { at = λ s. kept }

pub current-Clean : Clean current
current-Clean = record { at = λ s. kept }

pub release_hash-Kept : (s : Server) → Kept s (release_hash s)
unfolding release_hash
release_hash-Kept s = record {
  users = refl;
  sessions = refl;
  settings = refl;
  config = refl;
  submitted = refl;
}

pub deny-Clean {ℓ} :
    (A : Type ℓ) (request : Request) (name : String) → Clean {A = A} (deny request name)
unfolding deny count_denied
deny-Clean A request name = record {
  at = λ s. record {
    users = refl;
    sessions = refl;
    settings = refl;
    config = refl;
    submitted = refl;
  };
}

found_account-Clean : (r : Result Account) → Clean (found_account r)
unfolding found_account
found_account-Clean (ok x) = record { at = λ s. kept }
found_account-Clean (err e) = record {
  at = λ s. elim (Bool-cases (is_no_rows e)) [
    | inl missing ↦ rw missing kept
    | inr other ↦ rw other kept
  ];
}

pub checked_account-Clean :
    (c : Crypto) (request : Request) (given : Credentials) → Clean (checked_account c request given)
unfolding checked_account
checked_account-Clean c request given = record {
  at = λ s. Kept-trans (release_hash-Kept s) (
      (found_account-Clean
          (check_password c given.password (load_account c request s given.username))).at
        (release_hash s));
}

pub passed-Clean :
    (request : Request) (name : String) (found : Option (Account × Factor))
    → Clean (passed request name found)
unfolding passed
passed-Clean request name none = record {
  at = λ s. (deny-Clean (Account × Factor) request name).at s;
}
passed-Clean request name (some granted) = record { at = λ s. kept }

pub check_login-Clean :
    (c : Crypto) (net : Net) (request : Request) (given : Credentials)
    → Clean (check_login c net request given)
unfolding check_login
check_login-Clean c net request given =
    Clean->>= _ _ (rate_limit-Clean net request given.username) λ delay.
      Clean->>= _ _ (wait-Clean request delay) λ _. Clean->>= _ _ enter_gate-Clean λ _.
        Clean->>= _ _ (checked_account-Clean c request given) λ found.
          Clean->>= _ _ (passed-Clean request given.username _) λ (x, factor).
            Clean->>= _ _ (or_respond-Clean (random_token c (request.random session_token)) _)
              λ session.
                Clean->>= _ _ (or_respond-Clean (random_token c (request.random csrf_token)) _)
                  λ csrf. record { at = λ s. kept }

-- The change is made by the step after the commit.
end_login-Guarded :
    (request : Request) (given : Credentials) (r : Result Tables)
    → Guarded (end_login request given r)
unfolding end_login
end_login-Guarded request given (err e) = record {
  at = λ s. elim (Bool-cases (is_consumed e)) [
    | inl consumed ↦
        rw consumed (inr (Kept-Same ((deny-Clean (Unit {0}) request given.username).at s)))
    | inr other ↦ rw other (inr same)
  ];
}
end_login-Guarded request given (ok t) =
    Guarded->>= _ _ (or_respond-Clean (request.fail commit) _) λ _. record { at = λ s. tt }

opened-Written :
    (c : Crypto) (request : Request) (given : Credentials) (p : Pending) (config : Config)
    → Written (opened c request given p config)
unfolding opened
opened-Written c request given p config =
    Written->>= _ _ (record { at = λ t. tt })
      λ _. Written->>= _ _ (audit-Written c request _ _ _ _) λ _. record { at = λ t. tt }

commit_login-Guarded :
    (c : Crypto) (request : Request) (given : Credentials) (p : Pending)
    → Guarded (commit_login c request given p)
unfolding commit_login
commit_login-Guarded c request given p = Guarded->>= _ _ current-Clean λ s.
    Guarded-Written _ _ (end_login-Guarded request given _)
      λ _. opened-Written c request given p s.config

pub opened-Succeeds :
    (c : Crypto) (request : Request) (given : Credentials) (p : Pending) (config : Config)
    → Succeeds (opened c request given p config)
unfolding opened
opened-Succeeds c request given p config =
    Succeeds->>= _ _ λ _. Succeeds->>= _ _ λ _. record { at = λ t. omega arith }

commit_login-Succeeds :
    (c : Crypto) (request : Request) (given : Credentials) (p : Pending)
    → Succeeds (commit_login c request given p)
unfolding commit_login
commit_login-Succeeds c request given p =
    Succeeds->>= _ _ λ s. Succeeds->>= _ _ λ _. opened-Succeeds c request given p s.config

pub limited-Clean :
    (name : String)
    → Clean (modify (λ s. record s { limiter = success (limiter_name name) s.limiter }))
limited-Clean name = record {
  at = λ s. record {
    users = refl;
    sessions = refl;
    settings = refl;
    config = refl;
    submitted = refl;
  };
}

pub opened-Clean :
    (c : Crypto) (request : Request) (given : Credentials) (p : Pending) (config : Config)
    → Clean (opened c request given p config)
unfolding opened
opened-Clean c request given p config = Clean->>= _ _ (limited-Clean given.username) λ _.
    Clean->>= _ _ (audit-Clean c request "session.login" p.account.username "success" [])
      λ _. record { at = λ s. kept }

pub login-Guarded :
    (c : Crypto) (net : Net) (request : Request) (body : Option Credentials)
    → Guarded (login c net request body)
unfolding login
login-Guarded c net request body = Guarded->>= _ _ (read_json-Clean body) λ given.
    Guarded->>= _ _ (check_login-Clean c net request given)
      λ p. commit_login-Guarded c request given p

pub login-Succeeds :
    (c : Crypto) (net : Net) (request : Request) (body : Option Credentials)
    → Succeeds (login c net request body)
unfolding login
login-Succeeds c net request body =
    Succeeds->>= _ _ λ given. Succeeds->>= _ _ λ p. commit_login-Succeeds c request given p
