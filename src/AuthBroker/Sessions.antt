-- ===== src/AuthBroker/Sessions.antt =====
-- cmd/authbroker/main.go: `requireAuth`, `logout` and the minute's `maintenance`.
use collator.Prelude.{
  pos, negsuc, Time, hour, before, elapsed, List, [], ◌∷◌, filterb, Bool, not, ◌&&◌, ◌||◌, ltb,
  if◌then◌else◌, Option, none, some, String, ◌=?◌,
}
use collator.Model.{Result, ok, err, num, ◌>>=◌ as bind, ◌>>◌ as both}
use collator.Auth.{Crypto, hash_token}
use collator.AuthBroker.State.{
  User, Session, Tables, Config, Server, Account, status, Response, at_session, at_clean_test,
  at_clean, load_session, delete_session, delete_expired, Request, answer, failure,
}
use collator.AuthBroker.Flow.{go, done, Handler, ◌>>=◌, ◌>>◌, modify}
use collator.AuthBroker.Access.{audit}
use collator.AuthBroker.Login.{row_of, find_id, open_account, session_cookie_of}

-- The session with a token's hash, joined to its user if that one is active.
unfoldable pub find_session : String → List Session → Option Session
find_session hash [] = none
find_session hash (x ∷ xs) = if x.token_hash =? hash then some x else find_session hash xs

abbrev pub if_active : Option User → Option User
if_active none = none
if_active (some u) = if u.active then some u else none

unfoldable pub joined : List User → Session → Result (User × Session)
unfolding find_id
joined users x = bind (row_of (if_active (find_id x.user_id users))) (λ u. ok (u, x))

unfoldable pub load_session_row : Crypto → Request → Tables → String → Result (User × Session)
unfolding hash_token find_session joined
load_session_row c request t token =
    both (request.fail load_session)
      (bind (row_of (find_session (hash_token c token) t.sessions)) (joined t.users))

-- The account of the session, and the session.
unfoldable pub session_account :
    Crypto → Request → Config → Tables → String → Result (Account × Session)
unfolding load_session_row open_account
session_account c request config t token =
    bind (load_session_row c request t token)
      (λ (u, x). bind (open_account c config u) (λ account. ok (account, x)))

-- Whether a request that may change something lacks the session's CSRF token.
unfoldable pub lacks_csrf : Crypto → Request → Session → Bool
unfolding hash_token
lacks_csrf c request x =
    not request.is_safe_method
    && (request.csrf_header =? "" || not (hash_token c request.csrf_header =? x.csrf_hash))

unfoldable pub admit : Crypto → Request → Result (Account × Session) → Handler Account
unfolding lacks_csrf
admit c request (err e) s = (done (failure 401 "unauthorized"), s)
admit c request (ok (account, x)) s =
    if before x.expires_at (request.clock at_session)
    then (done (failure 401 "unauthorized"), s)
    else (if lacks_csrf c request x then (done (failure 403 "csrf"), s) else (go account, s))

unfoldable pub authenticate : Crypto → Request → Option String → Handler Account
unfolding session_account admit
authenticate c request none s = (done (failure 401 "unauthorized"), s)
authenticate c request (some token) s =
    admit c request (session_account c request s.config s.tables token) s

-- `requireAuth`
unfoldable pub require_auth : Crypto → Request → (Account → Handler Response) → Handler Response
unfolding authenticate
require_auth c request next = authenticate c request request.session_cookie >>= next

abbrev pub has_other_token : String → Session → Bool
has_other_token hash x = not (x.token_hash =? hash)

-- The deletion, whose error is dropped.
abbrev pub without_token : Crypto → String → Result (Unit {0}) → Tables → Tables
without_token c token (err e) t = t
without_token c token (ok _) t = record t {
  sessions = filterb (has_other_token (hash_token c token)) t.sessions;
}

unfoldable pub end_session : Crypto → Request → Option String → Tables → Tables
unfolding hash_token
end_session c request none t = t
end_session c request (some token) t = without_token c token (request.fail delete_session) t

-- `logout`
unfoldable pub logout : Crypto → Request → Handler Response
unfolding end_session
logout c request s = (
  go (record (answer 200 (status "logged_out")) {
    cookie = some (session_cookie_of s.config "" (negsuc 0));
  }),
  record s { tables = end_session c request request.session_cookie s.tables },
)

-- The clean-up of each hour.
abbrev pub is_alive : Time → Session → Bool
is_alive now x = not (before x.expires_at now)

abbrev pub without_expired : Time → Result (Unit {0}) → Tables → Tables
without_expired now (err e) t = t
without_expired now (ok _) t = record t { sessions = filterb (is_alive now) t.sessions }

unfoldable pub clean : Request → Server → Server
unfolding elapsed
clean request s =
    if elapsed (request.clock at_clean_test) s.last_clean hour
    then record s {
      tables = without_expired (request.clock at_session) (request.fail delete_expired) s.tables;
      last_clean = request.clock at_clean;
    }
    else s

-- The denied attempts since the last minute, if there were any.
unfoldable pub summarise : Crypto → Request → Handler (Unit {0})
unfolding audit
summarise c request s =
    let swapped = record s { denied_total = 0; denied_rate_limited = 0 } in
    if ltb 0 s.denied_total
    then audit c request "login.denied_summary" "anonymous" "denied"
        (("total", num (pos s.denied_total))
          ∷ ("rate_limited", num (pos s.denied_rate_limited))
          ∷ [])
        swapped
    else (go tt, swapped)

-- One round of `maintenance`.
unfoldable pub maintain : Crypto → Request → Handler (Unit {0})
unfolding summarise clean
maintain c request = do summarise c request; modify (clean request)
