-- ===== src/AuthBroker/Changes.antt =====
-- What a whole request may do to the server: relations that every write keeps.
pub mod Signing
pub mod Events
use collator.Prelude.{List, Bool, Option, none, some, String, ◌≡◌, refl}
use collator.Model.{Result, ok, err}
use collator.Auth.{Bytes, Crypto}
use collator.AuthBroker.State.{
  User, Session, Tables, Config, ActionKind, restart_service, acknowledge_pruned_reward_gap,
  ManualAction, Server, Account, Cookie, Body, nothing, error, status, needs_bootstrap, enrolled,
  username, queued, automation_enabled, Response, Moment, at_limit, at_check, at_session, at_fail,
  at_observe, at_clean_test, at_clean, Site, load_user, count_active, begin, lock_codes,
  update_codes, insert_session, commit, delete_pending, insert_user, load_pending, activate,
  load_session, delete_session, set_setting, insert_audit, delete_expired, ping, Draw,
  session_token, csrf_token, id_bytes, salt, totp_secret, nonce, audit_bytes, Request, Net, answer,
  failure, no_answer,
}
use collator.AuthBroker.Flow.{
  Flow, go, done, Handler, proceed, ◌>>=◌, ◌>>◌, respond, pure, current, modify, respond_if,
  or_respond, outcome, serve,
}
use collator.AuthBroker.Careful.{Kept, Clean}
use collator.AuthBroker.Login.{Pending, login_body}
use collator.AuthBroker.Bootstrap.{enrol, set_active}
use collator.AuthBroker.Sessions.{end_session}

abbrev pub with_tables : Tables → Server → Server
with_tables t s = record s { tables = t }

-- A relation between the server before and after: it holds where nothing is written and for each
-- write of the login, the bootstrap and the logout, and it goes from step to step.
pub record Stable (rel : Server → Server → Type 0) : Type 0 where
  pub unchanged : {s s' : Server} → Kept s s' → rel s s'
  pub onward : {s t u : Server} → rel s t → rel t u → rel s u
  pub signed_in :
      (c : Crypto) (request : Request) (p : Pending) (code : String) (s : Server) (t : Tables)
      → login_body c request p code s.tables ≡ ok t
      → rel s (with_tables t s)
  pub enrolled :
      (request : Request) (u : User) (s : Server) (t : Tables)
      → enrol request u s.tables ≡ ok t
      → rel s (with_tables t s)
  pub confirmed :
      (name : String) (s : Server) (users : List User)
      → set_active name s.tables.users ≡ some users
      → rel s (with_tables (record s.tables { users = users }) s)
  pub signed_out :
      (c : Crypto) (request : Request) (cookie : Option String) (s : Server)
      → rel s (with_tables (end_session c request cookie s.tables) s)

module _ {rel : Server → Server → Type 0} (stable : Stable rel) where
  pub record Moves {ℓ} {A : Type ℓ} (step : Handler A) : Type 0 where
    pub at : (s : Server) → rel s (step s).1

  pub Clean-Moves {ℓ} : {A : Type ℓ} (step : Handler A) → Clean step → Moves step
  Clean-Moves step h = record { at = λ s. stable.unchanged (h.at s) }

  module _ {ℓ κ} {A : Type ℓ} {B : Type κ} (step : Handler A) (next : A → Handler B) where
    pub moves_at :
        (s : Server) (r : Flow A × Server)
        → rel s r.1
        → ((x : A) → Moves (next x))
        → rel s (proceed next r).1
    moves_at s (go x, s') h k = stable.onward h ((k x).at s')
    moves_at s (done sent, s') h k = h

    pub Moves->>= : Moves step → ((x : A) → Moves (next x)) → Moves (step >>= next)
    unfolding ◌>>=◌
    Moves->>= h k = record { at = λ s. moves_at s (step s) (h.at s) k }

    pub clean_first : Clean step → ((x : A) → Moves (next x)) → Moves (step >>= next)
    clean_first h k = Moves->>= (Clean-Moves step h) k
