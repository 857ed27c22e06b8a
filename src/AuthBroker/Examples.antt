-- ===== src/AuthBroker/Examples.antt =====
-- Runs of the auth broker with stand-ins for the cryptography.
use collator.Prelude.{
  ℕ, ◌≤◌, List, [], ◌∷◌, true, false, Option, none, some, String, utf8, ◌≡◌, ◌⊎◌, refl, arith,
}
use collator.Model.{Result, ok, err}
use collator.AuthLimit.Keys.{Distinct}
use collator.AuthLimit.{default_config, new_limiter}
use collator.Auth.{Bytes}
use collator.Auth.Password.{hash_password}
use collator.Auth.Examples.{toy, noon}
use collator.AuthBroker.State.{User, Config, Server, Request, Net}
use collator.AuthBroker.Flow.{serve, ◌>>=◌}
use collator.AuthBroker.Login.{
  Credentials, find_id, hashes_of, recovery_code, Pending, commit_login, recovery_hash,
}
use collator.AuthBroker.Actions.{Submit}
use collator.AuthBroker.Routes.{Call, sign_in, order_restart, handle}
use collator.AuthBroker.Careful.{Same}
use collator.AuthBroker.Untouched.{failed_changes_nothing}
use collator.AuthBroker.Authority.{IsAuthorised, orders_need_authority}
use collator.AuthBroker.Authority.Rules.{view, Unordered}
use collator.AuthBroker.Changes.Events.{Event, request, run}
use collator.AuthBroker.SingleUse.{recovery_code_once}

abbrev or_empty : Result Bytes → Bytes
or_empty (ok s) = s
or_empty (err e) = []

-- An administrator with two recovery codes.
unfoldable alice : User
unfolding hash_password utf8
alice = record {
  id = "usr_1";
  username = "alice";
  password_hash = or_empty (hash_password toy "Correct-horse-7" (ok (1 ∷ 2 ∷ [])));
  totp_secret = utf8 "v1:";
  recovery_hashes = some ("large" ∷ "middle" ∷ []);
  active = true;
}

abbrev config : Config
config = record {
  encryption_key = "key";
  bootstrap_token = "token";
  node_name = "node-1";
  installed_at = 0;
  observe_only_period = 0;
  cookie_secure = true;
}

unfoldable server : Server
unfolding new_limiter alice
server = record {
  config = config;
  limiter = new_limiter default_config noon;
  hashing = 0;
  denied_total = 0;
  denied_rate_limited = 0;
  last_clean = noon;
  submitted = [];
  tables = record { users = alice ∷ []; sessions = []; settings = []; audits = [] };
}

abbrev proxy : Bytes
proxy = 0 ∷ 0 ∷ 0 ∷ 0 ∷ 0 ∷ 0 ∷ 0 ∷ 0 ∷ 0 ∷ 0 ∷ 255 ∷ 255 ∷ 172 ∷ 18 ∷ 0 ∷ 2 ∷ []

abbrev network : Net
network = record { parse_ip = λ text. some proxy; split_host = λ address. some address }

abbrev arrives : Option String → Request
arrives cookie = record {
  remote_address = "172.18.0.2:4000";
  path = "/api/v1/auth/login";
  is_safe_method = false;
  real_ip = "203.0.113.7";
  session_cookie = cookie;
  csrf_header = "";
  idempotency_key = "";
  clock = λ moment. noon;
  fail = λ site. ok tt;
  random = λ draw. ok (1 ∷ []);
  recovery_draws = [];
  waits_out = true;
  resolves = ok (proxy ∷ []);
}

abbrev with_code : String → Credentials
with_code code = record { username = "alice"; password = "Correct-horse-7"; totp = code }

abbrev queue : Submit
queue action = ok (record { status = 202; id = "act_1"; error = "" })

code_of : Call → ℕ
unfolding handle server ◌>>=◌
code_of call = (serve (handle toy network queue (arrives none) call) server).1.code

codes_of_calls :
    (code_of (sign_in (some (with_code "aaaaaaaaaa"))) ≡ 200)
    × (code_of (sign_in (some (with_code "!"))) ≡ 401)
    × (code_of (sign_in none) ≡ 400)
    × (code_of (order_restart none) ≡ 401)
unfolding code_of
codes_of_calls = (refl, refl, refl, refl)

refused_code :
    400 ≤ (serve (handle toy network queue (arrives none) (order_restart none)) server).1.code
unfolding handle server ◌>>=◌
refused_code = omega arith

failed_changes_nothing_example :
    Same server (serve (handle toy network queue (arrives none) (order_restart none)) server).0
failed_changes_nothing_example =
    failed_changes_nothing toy network queue (arrives none) (order_restart none) server refused_code

orders_need_authority_example :
    Unordered server (serve (handle toy network queue (arrives none) (order_restart none)) server).0
    ⊎ IsAuthorised toy (arrives none) (view server) (order_restart none)
orders_need_authority_example =
    orders_need_authority toy network queue (arrives none) (order_restart none) server

-- A login that has found the recovery code.
unfoldable found : Pending
unfolding alice
found = record {
  account = record {
    id = "usr_1";
    username = "alice";
    password_hash = alice.password_hash;
    totp_secret = [];
    recovery = "large" ∷ "middle" ∷ [];
  };
  factor = recovery_code 0;
  session = "small";
  csrf = "middle";
}

opens : (serve (commit_login toy (arrives none) (with_code "aaaaaaaaaa") found) server).1.code ≡ 200
unfolding commit_login server found ◌>>=◌
opens = refl

abbrev meanwhile : List Event
meanwhile = request (arrives none) (sign_in (some (with_code "!"))) ∷ []

found_alice :
    (found.factor ≡ recovery_code 0)
    × (find_id found.account.id server.tables.users ≡ some alice)
    × (alice.active ≡ true)
unfolding found server find_id
found_alice = (refl, refl, refl)

alice-Distinct : Distinct (hashes_of alice.recovery_hashes)
unfolding alice
alice-Distinct = (refl, (refl, tt))

same_code : recovery_hash toy "AAAAAAAAAA" ≡ recovery_hash toy "aaaaaaaaaa"
unfolding recovery_hash
same_code = refl

recovery_code_once_example : ¬ (
    (serve (commit_login toy (arrives none) (with_code "AAAAAAAAAA") found) (
      run toy network queue meanwhile
        (serve (commit_login toy (arrives none) (with_code "aaaaaaaaaa") found) server).0)).1.code
    ≡ 200)
recovery_code_once_example =
    recovery_code_once toy network queue server alice (arrives none) (with_code "aaaaaaaaaa") found
      0 meanwhile (arrives none) (with_code "AAAAAAAAAA") found 0 found_alice.0 found_alice.1
      found_alice.2 alice-Distinct opens found_alice.0 refl same_code
