-- ===== src/AuthBroker/State.antt =====
-- cmd/authbroker/main.go: the tables that the auth broker works on, what it keeps in memory, and what
-- a request finds and is answered.
use collator.Prelude.{ℕ, ℤ, Time, List, Bool, Option, none, String}
use collator.Model.{Result}
use collator.Store.{AuditRow}
use collator.Auth.{Bytes, Random}
use collator.AuthLimit.{Limiter}

-- A row of `users`. The recovery hashes are a column of JSON: `none` is one that is no list of texts.
pub record User : Type 0 where
  pub id : String
  pub username : String
  pub password_hash : Bytes
  pub totp_secret : Bytes
  pub recovery_hashes : Option (List String)
  pub active : Bool

pub record Session : Type 0 where
  pub token_hash : String
  pub user_id : String
  pub csrf_hash : String
  pub expires_at : Time

-- The tables `users`, `sessions`, `settings` and `audit_events`.
pub record Tables : Type 0 where
  pub users : List User
  pub sessions : List Session
  pub settings : List (String × Bool)
  pub audits : List AuditRow

-- The broker's part of `config.Config`.
pub record Config : Type 0 where
  pub encryption_key : String
  pub bootstrap_token : String
  pub node_name : String
  pub installed_at : Time
  pub observe_only_period : ℕ
  pub cookie_secure : Bool

pub data ActionKind : Type 0 where
  restart_service : ActionKind
  acknowledge_pruned_reward_gap : ℤ → ActionKind

-- `actionbroker.ManualAction`: the parameters belong to the kind.
pub record ManualAction : Type 0 where
  pub action_id : String
  pub idempotency_key : String
  pub incident_id : String
  pub requested_by : String
  pub reason : String
  pub action_kind : ActionKind

-- `server`: `submitted` lists what was sent to the controller, the latest first; `hashing` counts the places of the hash gate that are taken.
pub record Server : Type 0 where
  pub config : Config
  pub limiter : Limiter
  pub hashing : ℕ
  pub denied_total : ℕ
  pub denied_rate_limited : ℕ
  pub last_clean : Time
  pub submitted : List ManualAction
  pub tables : Tables

-- `user`, with the secret decrypted.
pub record Account : Type 0 where
  pub id : String
  pub username : String
  pub password_hash : Bytes
  pub totp_secret : Bytes
  pub recovery : List String

pub record Cookie : Type 0 where
  pub value : String
  pub max_age : ℤ
  pub http_only : Bool
  pub secure : Bool
  pub same_site_strict : Bool

pub data Body : Type 0 where
  nothing : Body
  error : String → Body
  status : String → Body
  needs_bootstrap : Bool → Body
  enrolled : Bytes → Bytes → List String → Body
  username : String → Body
  queued : String → Body
  automation_enabled : Bool → Body

pub record Response : Type 0 where
  pub code : ℕ
  pub body : Body
  pub retry_after : Option ℕ
  pub cookie : Option Cookie
  pub csrf_token : Option String

-- The readings of the clock.
pub data Moment : Type 0 where
  at_limit at_check at_session at_fail at_observe at_clean_test at_clean : Moment

-- The statements on the database.
pub data Site : Type 0 where
  load_user count_active begin lock_codes update_codes insert_session commit : Site
  delete_pending insert_user load_pending activate load_session delete_session set_setting : Site
  insert_audit delete_expired ping : Site

-- What is drawn at random; a recovery code is drawn in each of eight rounds.
pub data Draw : Type 0 where
  session_token csrf_token id_bytes salt totp_secret nonce audit_bytes : Draw

-- The headers and the cookie of a request, and what the world answers while it is served.
-- `resolves` is what looking up the proxy's name gives.
pub record Request : Type 0 where
  pub remote_address : String
  pub path : String
  pub is_safe_method : Bool
  pub real_ip : String
  pub session_cookie : Option String
  pub csrf_header : String
  pub idempotency_key : String
  pub clock : Moment → Time
  pub fail : Site → Result (Unit {0})
  pub random : Draw → Random
  pub recovery_draws : List Random
  pub waits_out : Bool
  pub resolves : Result (List Bytes)

-- `net.ParseIP`, to the 16 bytes of an address, and the host of `net.SplitHostPort`.
pub record Net : Type 0 where
  pub parse_ip : String → Option Bytes
  pub split_host : String → Option String

abbrev pub answer : ℕ → Body → Response
answer code body = record {
  code = code;
  body = body;
  retry_after = none;
  cookie = none;
  csrf_token = none;
}

abbrev pub failure : ℕ → String → Response
failure code why = answer code (error why)

-- The handler returns, or is stopped by a panic, before it has written: nobody waits, or the
-- connection is cut.
abbrev pub no_answer : Response
no_answer = answer 0 nothing
