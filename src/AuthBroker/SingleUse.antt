-- ===== src/AuthBroker/SingleUse.antt =====
-- A recovery code opens one session.
pub mod Codes
pub mod Writes
pub mod Lasting
use collator.Prelude.{
  some-injective, ℕ, List, Bool, true, false, Option, none, some, String, if◌then◌else◌, ◌≡◌, ◌≢◌,
  refl, sym, ap, ◌∙◌, subst, arith, Bool-cases, inl, inr,
}
use collator.Model.{Error, recovery_code_consumed, Result, ok, err, Returns-eq}
use collator.AuthLimit.Keys.{Distinct}
use collator.Auth.{Crypto}
use collator.AuthBroker.State.{
  User, Session, Tables, Config, ActionKind, restart_service, acknowledge_pruned_reward_gap,
  ManualAction, Server, Account, Cookie, Body, nothing, error, status, needs_bootstrap, enrolled,
  username, queued, automation_enabled, Response, Moment, at_limit, at_check, at_session, at_fail,
  at_observe, at_clean_test, at_clean, Site, load_user, count_active, begin, lock_codes,
  update_codes, insert_session, commit, delete_pending, insert_user, load_pending, activate,
  load_session, delete_session, set_setting, insert_audit, delete_expired, ping, Draw,
  session_token, csrf_token, id_bytes, salt, totp_secret, nonce, audit_bytes, Request, Net, answer,
  failure, no_answer,
}
use collator.AuthBroker.Flow.{
  Flow, go, done, Handler, proceed, ◌>>=◌, ◌>>◌, respond, pure, current, modify, respond_if,
  or_respond, outcome, outcome_server, serve,
}
use collator.AuthBroker.Careful.{Kept, Clean}
use collator.AuthBroker.Login.{
  Credentials, Factor, totp_code, recovery_code, Pending, find_id, take_out, set_recovery,
  recovery_hash, hashes_of, login_body, is_consumed, deny, end_login, opened, commit_login,
}
use collator.AuthBroker.Actions.{Submit}
use collator.AuthBroker.Changes.Events.{Event, run, run_moves}
use collator.AuthBroker.Untouched.Signing.{opened-Clean}
use Codes.{IsSpent, take_out-gone, find_id-set_same}
use Writes.{Taken, Signs, login_body-Signs}
use Lasting.{StaysSpent-Lasting}

-- A commit that is answered with 200 has stored the tables of its transaction.
record Committed (c : Crypto) (request : Request) (given : Credentials) (p : Pending)
    (s s' : Server) : Type 0 where
  tables : Tables
  body : login_body c request p given.totp s.tables ≡ ok tables
  users : s'.tables.users ≡ tables.users

module _ (c : Crypto) (request : Request) (given : Credentials) (p : Pending) where
  refused_code :
      (e : Error) (s : Server) (next : Handler Response)
      → (outcome (proceed (λ _. next) (end_login request given (err e) s))).1.code ≢ 200
  unfolding end_login deny ◌>>=◌
  refused_code e s next h = elim (Bool-cases (is_consumed e)) [
    | inl used ↦ absurd (let h' : 401 ≡ 200 = rw used at h in omega arith)
    | inr other ↦ absurd (let h' : 500 ≡ 200 = rw other at h in omega arith)
  ]

  stored_by :
      (s : Server) (t : Tables) (r : Result (Unit {0}))
      → login_body c request p given.totp s.tables ≡ ok t
      → let last =
          proceed
            (λ _. opened c request given p s.config)
            ((or_respond r (failure 500 "database") >> modify (λ s'. record s' { tables = t }))
              s) in
        (outcome last).1.code ≡ 200 → Committed c request given p s (outcome last).0
  unfolding ◌>>=◌
  stored_by s t (err e) h k = absurd (let k' : 500 ≡ 200 = k in omega arith)
  stored_by s t (ok _) h k = record {
    tables = t;
    body = h;
    users =
        ap (λ (s' : Server). s'.tables.users)
          (outcome_server (opened c request given p s.config (record s { tables = t })))
        ∙ ((opened-Clean c request given p s.config).at (record s { tables = t })).users;
  }

  committed_by :
      (s : Server) (r : Result Tables)
      → login_body c request p given.totp s.tables ≡ r
      → let last = proceed (λ _. opened c request given p s.config) (end_login request given r s) in
        (outcome last).1.code ≡ 200 → Committed c request given p s (outcome last).0
  unfolding end_login
  committed_by s (err e) h k = absurd (refused_code e s (opened c request given p s.config) k)
  committed_by s (ok t) h k = stored_by s t (request.fail commit) h k

  committed :
      (s : Server)
      → (serve (commit_login c request given p) s).1.code ≡ 200
      → Committed c request given p s (serve (commit_login c request given p) s).0
  unfolding commit_login ◌>>=◌
  committed s h = committed_by s (login_body c request p given.totp s.tables) refl h

-- The code that a committed login has used is gone.
commit-IsSpent :
    (c : Crypto) (request : Request) (given : Credentials) (p : Pending) (s s' : Server) (i : ℕ)
    (u : User)
    → p.factor ≡ recovery_code i
    → find_id p.account.id s.tables.users ≡ some u
    → u.active ≡ true
    → Distinct (hashes_of u.recovery_hashes)
    → Committed c request given p s s'
    → IsSpent (recovery_hash c given.totp) p.account.id s'.tables.users
commit-IsSpent c request given p s s' i u factor found active distinct k =
    let signs =
      Returns-eq (Signs c p.factor p.account given.totp s.tables) _
        (login_body-Signs c request p given.totp s.tables) k.body in
    let taken : Taken c p.account given.totp s.tables k.tables =
      subst (λ f. Signs c f p.account given.totp s.tables k.tables) factor signs in
    let owner : u ≡ taken.owner = some-injective (sym found ∙ taken.found) in
    subst (IsSpent (recovery_hash c given.totp) p.account.id) (sym (k.users ∙ taken.users))
      (record {
        user = record taken.owner { recovery_hashes = some taken.rest };
        found = find_id-set_same p.account.id taken.rest s.tables.users taken.found;
        active = sym (ap (λ (w : User). w.active) owner) ∙ active;
        gone =
            take_out-gone (recovery_hash c given.totp) (hashes_of taken.owner.recovery_hashes)
              taken.rest
              (subst (λ (w : User). Distinct (hashes_of w.recovery_hashes)) owner distinct)
              taken.taken;
      })

spent-refused :
    (c : Crypto) (request : Request) (given : Credentials) (p : Pending) (s s' : Server) (i : ℕ)
    (hash id : String)
    → p.factor ≡ recovery_code i
    → p.account.id ≡ id
    → recovery_hash c given.totp ≡ hash
    → IsSpent hash id s.tables.users
    → ¬ (Committed c request given p s s')
spent-refused c request given p s s' i hash id factor same_user same_code h k =
    let signs =
      Returns-eq (Signs c p.factor p.account given.totp s.tables) _
        (login_body-Signs c request p given.totp s.tables) k.body in
    let taken : Taken c p.account given.totp s.tables k.tables =
      subst (λ f. Signs c f p.account given.totp s.tables k.tables) factor signs in
    let found : find_id id s.tables.users ≡ some taken.owner =
      subst (λ j. find_id j s.tables.users ≡ some taken.owner) same_user taken.found in
    let owner : h.user ≡ taken.owner = some-injective (sym h.found ∙ found) in
    let gone : take_out hash (hashes_of taken.owner.recovery_hashes) ≡ none =
      subst (λ (w : User). take_out hash (hashes_of w.recovery_hashes) ≡ none) owner h.gone in
    let taken' : take_out hash (hashes_of taken.owner.recovery_hashes) ≡ some taken.rest =
      subst (λ j. take_out j (hashes_of taken.owner.recovery_hashes) ≡ some taken.rest) same_code
        taken.taken in
    let e : none ≡ some taken.rest = sym gone ∙ taken' in absurd (cc)

-- A recovery code signs in once. An active user, whose codes are distinct, has signed in with one of
-- them: the second half of the login was answered with 200. Then, whatever happens afterwards, also
-- logins that had looked the code up before, the second half of a login of the same user with the
-- same code is never answered with 200 again.
pub recovery_code_once :
    (c : Crypto) (net : Net) (submit : Submit) (s : Server) (u : User) (request : Request)
    (given : Credentials) (p : Pending) (i : ℕ) (later : List Event) (request' : Request)
    (given' : Credentials) (p' : Pending) (j : ℕ)
    → p.factor ≡ recovery_code i
    → find_id p.account.id s.tables.users ≡ some u
    → u.active ≡ true
    → Distinct (hashes_of u.recovery_hashes)
    → (serve (commit_login c request given p) s).1.code ≡ 200
    → p'.factor ≡ recovery_code j
    → p'.account.id ≡ p.account.id
    → recovery_hash c given'.totp ≡ recovery_hash c given.totp
    → ¬ (
        (serve
          (commit_login c request' given' p')
          (run c net submit later (serve (commit_login c request given p) s).0)).1.code
        ≡ 200)
recovery_code_once c net submit s u request given p i later request' given' p' j factor found active
      distinct fine factor' same_user same_code again =
    let first =
      commit-IsSpent c request given p s _ i u factor found active distinct
        (committed c request given p s fine) in
    let after = run c net submit later (serve (commit_login c request given p) s).0 in
    let still =
      run_moves (StaysSpent-Lasting (recovery_hash c given.totp) p.account.id) c net submit later _
        first in
    spent-refused c request' given' p' after _ j _ _ factor' same_user same_code still
      (committed c request' given' p' after again)
