-- ===== src/AuthBroker/Granted.antt =====
-- What stands behind a session.
mod Checks
use collator.Prelude.{ℕ, List, [], ◌∷◌, not, ◌&&◌, ◌||◌, Option, none, String, ◌=?◌, ◌≡◌}
use collator.Model.{Error, no_rows, is_no_rows, ◌>>=◌ as bind, ◌>>◌ as both, >>=-eq-ok}
use collator.Auth.{Crypto, random_token}
use collator.Auth.Password.{verify_password}
use collator.AuthBroker.State.{
  User, Session, Tables, Config, ActionKind, restart_service, acknowledge_pruned_reward_gap,
  ManualAction, Server, Cookie, Body, nothing, error, status, needs_bootstrap, enrolled, queued,
  automation_enabled, Response, Moment, at_limit, at_check, at_session, at_fail, at_observe,
  at_clean_test, at_clean, Site, load_user, count_active, delete_pending, insert_user, load_pending,
  activate, load_session, delete_session, set_setting, insert_audit, delete_expired, ping, Draw,
  session_token, csrf_token, id_bytes, salt, totp_secret, nonce, audit_bytes, Request, answer,
  no_answer,
}
use collator.AuthBroker.Flow.{
  Flow, Handler, ◌>>=◌, ◌>>◌, respond, pure, current, respond_if, outcome,
}
use collator.AuthBroker.Careful.{kept, Clean, or_respond-Clean}
use collator.AuthBroker.Login.{
  Credentials, Pending, find_active, open_account, load_account, check_password, found_account,
  checked_account, second_factor, with_factor, factor_of, deny, passed, new_session, read_json,
}
use collator.AuthBroker.Untouched.Steps.{rate_limit-Clean, wait-Clean, enter_gate-Clean}
use collator.AuthBroker.Untouched.Signing.{read_json-Clean, checked_account-Clean, passed-Clean}
use collator.AuthBroker.Authority.Rules.{View, view, Learns, Learns->>=, Learns-nothing}
use collator.AuthBroker.SingleUse.Writes.{row_of-eq, Signs}
use Checks.{IsChecked}

-- What the transaction does to the sessions.
module _ (c : Crypto) (request : Request) (p : Pending) (code : String) where
  abbrev Adds : Tables → Tables → Type 0
  Adds t t' = t'.sessions ≡ new_session c request p ∷ t.sessions

-- A login that was refused, or went wrong, has left users and sessions alone.
abbrev pub IsRefused : Server → Server → Type 0
IsRefused s s' = (s'.tables.users ≡ s.tables.users) × (s'.tables.sessions ≡ s.tables.sessions)

-- One that was granted has added one session, of the account that was checked, and has taken out the
-- recovery code if one was used.
pub record IsGranted (c : Crypto) (request : Request) (given : Credentials) (s s' : Server)
    : Type 0 where
  pub pending : Pending
  pub checked : IsChecked c request (view s) given pending
  pub sessions : s'.tables.sessions ≡ new_session c request pending ∷ s.tables.sessions
  pub users : Signs c pending.factor pending.account given.totp s.tables s'.tables
