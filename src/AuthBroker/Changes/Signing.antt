-- ===== src/AuthBroker/Changes/Signing.antt =====
-- The handlers that give no order, under such a relation.
use collator.Prelude.{[], List, Option, none, some, String, ◌≡◌, refl, Bool-cases, inl, inr}
use collator.Model.{Result, ok, err}
use collator.Auth.{Crypto}
use collator.AuthBroker.State.{
  User, Tables, Server, Response, count_active, commit, activate, ping, Request, Net, failure,
}
use collator.AuthBroker.Flow.{Handler, ◌>>=◌, ◌>>◌, modify, or_respond}
use collator.AuthBroker.Careful.{Clean, kept, or_respond-Clean}
use collator.AuthBroker.Changes.{Stable, Moves, Clean-Moves, moves_at, Moves->>=, clean_first}
use collator.AuthBroker.Access.{health}
use collator.AuthBroker.Login.{
  Credentials, Pending, is_consumed, login_body, end_login, commit_login, login,
}
use collator.AuthBroker.Bootstrap.{
  Enrolment, Confirmation, enrol, stored, enrol_now, bootstrap_status, bootstrap_start, set_active,
  activated, activate_user, confirms, bootstrap_confirm,
}
use collator.AuthBroker.Sessions.{logout}
use collator.AuthBroker.Untouched.Steps.{audit-Clean, rate_limit-Clean, wait-Clean}
use collator.AuthBroker.Untouched.Signing.{
  read_json-Clean, current-Clean, deny-Clean, limited-Clean, opened-Clean, check_login-Clean,
}
use collator.AuthBroker.Untouched.Bootstrap.{
  may_enrol-Clean, new_hash-Clean, make_user-Clean, require_token-Clean, require_code-Clean,
}

module _ {rel : Server → Server → Type 0} (stable : Stable rel) where
  first :
      {A : Type 0} (step : Handler A) (next : A → Handler Response)
      → Clean step
      → ((x : A) → Moves stable (next x))
      → Moves stable (step >>= next)
  first = clean_first stable

  end_login_moves :
      (c : Crypto) (request : Request) (given : Credentials) (p : Pending) (code : String)
      (s : Server) (r : Result Tables)
      → login_body c request p code s.tables ≡ r
      → rel s (end_login request given r s).1
  unfolding end_login ◌>>=◌
  end_login_moves c request given p code s (err e) h = elim (Bool-cases (is_consumed e)) [
    | inl used ↦ rw used (stable.unchanged ((deny-Clean (Unit {0}) request given.username).at s))
    | inr other ↦ rw other (stable.unchanged kept)
  ]
  end_login_moves c request given p code s (ok t) h = committed (request.fail commit)
    where
      committed :
          (r : Result (Unit {0}))
          → rel s
              ((or_respond r (failure 500 "database") >> modify (λ s'. record s' { tables = t }))
                s).1
      committed (ok _) = stable.signed_in c request p code s t h
      committed (err e) = stable.unchanged kept

  pub commit_login-Moves :
      (c : Crypto) (request : Request) (given : Credentials) (p : Pending)
      → Moves stable (commit_login c request given p)
  unfolding commit_login ◌>>=◌
  commit_login-Moves c request given p = record {
    at = λ s.
        let r = login_body c request p given.totp s.tables in
        moves_at stable (end_login request given r) _ s (end_login request given r s)
          (end_login_moves c request given p given.totp s r refl)
          λ _. Clean-Moves stable _ (opened-Clean c request given p s.config);
  }

  pub login-Moves :
      (c : Crypto) (net : Net) (request : Request) (body : Option Credentials)
      → Moves stable (login c net request body)
  unfolding login
  login-Moves c net request body = first _ _ (read_json-Clean body) λ given.
      first _ _ (check_login-Clean c net request given) λ p. commit_login-Moves c request given p

  stored_moves :
      (request : Request) (u : User) (s : Server) (r : Result Tables)
      → enrol request u s.tables ≡ r
      → rel s (stored r s).1
  stored_moves request u s (ok t) h = stable.enrolled request u s t h
  stored_moves request u s (err e) h = stable.unchanged kept

  enrol_now-Moves : (request : Request) (u : User) → Moves stable (enrol_now request u)
  unfolding enrol_now
  enrol_now-Moves request u = record {
    at = λ s. stored_moves request u s (enrol request u s.tables) refl;
  }

  activated_moves :
      (r : Result (Unit {0})) (name : String) (changed : Option (List User)) (s : Server)
      → set_active name s.tables.users ≡ changed
      → rel s (activated r changed s).1
  activated_moves (err e) name changed s h = stable.unchanged kept
  activated_moves (ok _) name none s h = stable.unchanged kept
  activated_moves (ok _) name (some users) s h = stable.confirmed name s users h

  activate_user-Moves :
      (request : Request) (name : String) → Moves stable (activate_user request name)
  unfolding activate_user
  activate_user-Moves request name = record {
    at = λ s. activated_moves (request.fail activate) name (set_active name s.tables.users) s refl;
  }

  module _ (c : Crypto) (net : Net) (request : Request) where
    pub bootstrap_start-Moves :
        (body : Option Enrolment) → Moves stable (bootstrap_start c net request body)
    unfolding bootstrap_start
    bootstrap_start-Moves body = first _ _ (read_json-Clean body) λ given.
        first _ _ (may_enrol-Clean net request given) λ _.
          first _ _ (new_hash-Clean c request given.password) λ hash. first _ _ current-Clean λ s.
            first _ _ (make_user-Clean c request s.config given hash) λ (u, secret, codes).
              Moves->>= stable _ _ (enrol_now-Moves request u) λ _.
                first _ _
                  (audit-Clean c request "admin.bootstrap.start" given.username "success" [])
                  λ _. Clean-Moves stable _ (record { at = λ t. kept })

    pub bootstrap_confirm-Moves :
        (body : Option Confirmation) → Moves stable (bootstrap_confirm c net request body)
    unfolding bootstrap_confirm
    bootstrap_confirm-Moves body = first _ _ (read_json-Clean body) λ given.
        first _ _ (rate_limit-Clean net request given.username) λ delay.
          first _ _ (wait-Clean request delay) λ _. first _ _ (require_token-Clean given.token) λ _.
            first _ _ current-Clean λ s.
              first _ _ (require_code-Clean (confirms c request s.config given s.tables.users)) λ _.
                Moves->>= stable _ _ (activate_user-Moves request given.username) λ _.
                  first _ _ (limited-Clean given.username) λ _.
                    first _ _
                      (audit-Clean c request "admin.bootstrap.confirm" given.username "success" [])
                      λ _. Clean-Moves stable _ (record { at = λ t. kept })

  pub status-Moves : (request : Request) → Moves stable (bootstrap_status request)
  unfolding bootstrap_status
  status-Moves request =
      first _ _ (or_respond-Clean (request.fail count_active) _)
        λ _. first _ _ current-Clean λ s. Clean-Moves stable _ (record { at = λ t. kept })

  pub health-Moves :
      (request : Request) (controller : Result (Unit {0}))
      → Moves stable (health request controller)
  unfolding health
  health-Moves request controller = first _ _ (or_respond-Clean (request.fail ping) _) λ _.
      first _ _ (or_respond-Clean controller _)
        λ _. Clean-Moves stable _ (record { at = λ t. kept })

  pub logout-Moves : (c : Crypto) (request : Request) → Moves stable (logout c request)
  unfolding logout
  logout-Moves c request = record { at = λ s. stable.signed_out c request request.session_cookie s }
