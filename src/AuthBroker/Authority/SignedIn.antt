-- ===== src/AuthBroker/Authority/SignedIn.antt =====
-- What `requireAuth` has checked when it lets a request through.
use collator.Prelude.{
  arith, ◌≢◌, ◌⊎◌, =?_iff, ◌=?◌, not, ◌&&◌, ◌||◌, Bool, true, false, before, Option, none, some,
  String, if◌then◌else◌, ◌≡◌, refl, sym, ap, ◌∙◌, subst, Bool-cases, inl, inr,
}
use collator.Model.{Result, ok, err, >>=-eq-ok}
use collator.Auth.{Crypto, hash_token}
use collator.AuthBroker.State.{
  User, Session, Tables, Config, Server, Account, at_session, load_session, Request,
}
use collator.AuthBroker.Login.{find_id, open_account, row_of}
use collator.AuthBroker.Sessions.{
  find_session, if_active, joined, load_session_row, session_account, lacks_csrf, admit,
  authenticate,
}
use collator.AuthBroker.Authority.Rules.{View, view, Learns, LearnsAt}

-- The cookie's token belongs to a session that has not expired, of an active user, whose account this
-- is; and if the request may change something, then it comes with the session's CSRF token.
pub record Authenticated (c : Crypto) (request : Request) (v : View) (x : Account) : Type 0 where
  pub token : String
  pub session : Session
  pub owner : User
  pub cookie : request.session_cookie ≡ some token
  pub found : find_session (hash_token c token) v.2 ≡ some session
  pub owned : find_id session.user_id v.1 ≡ some owner
  pub active : owner.active ≡ true
  pub account : open_account c v.0 owner ≡ ok x
  pub alive : before session.expires_at (request.clock at_session) ≡ false
  pub csrf :
      (request.is_safe_method ≡ true)
      ⊎ ((request.csrf_header ≢ "") × (hash_token c request.csrf_header ≡ session.csrf_hash))

row_of-eq {ℓ} : {A : Type ℓ} (o : Option A) {a : A} → row_of o ≡ ok a → o ≡ some a
row_of-eq none h = absurd (cc)
row_of-eq (some a) h = cc

if-eq : (b : Bool) {w u : User} → (if b then some w else none) ≡ some u → (w ≡ u) × (b ≡ true)
if-eq true h = (cc, refl)
if-eq false h = absurd (cc)

given_csrf :
    (safe empty right : Bool)
    → (not safe && (empty || not right)) ≡ false
    → (safe ≡ true) ⊎ ((empty ≡ false) × (right ≡ true))
given_csrf safe empty right h = ground arith

differs : (s t : String) → (s =? t) ≡ false → s ≢ t
differs s t h e = let h' : true ≡ false = sym ((=?_iff s t).1 e) ∙ h in absurd (cc)

csrf_checked :
    (c : Crypto) (request : Request) (x : Session)
    → lacks_csrf c request x ≡ false
    → (request.is_safe_method ≡ true)
      ⊎ ((request.csrf_header ≢ "") × (hash_token c request.csrf_header ≡ x.csrf_hash))
unfolding lacks_csrf
csrf_checked c request x h = elim (given_csrf _ _ _ h) [
  | inl safe ↦ inl safe
  | inr (present, right) ↦ inr (differs _ _ present, (=?_iff _ _).0 right)
]

if_active-eq :
    (o : Option User) {u : User} → if_active o ≡ some u → (o ≡ some u) × (u.active ≡ true)
if_active-eq none h = absurd (cc)
if_active-eq (some w) h = let (e, a) = if-eq w.active h in (ap some e, sym (ap User.active e) ∙ a)

-- The row that the query gives.
load_session_row-eq :
    (c : Crypto) (request : Request) (t : Tables) (token : String) {u : User} {x : Session}
    → load_session_row c request t token ≡ ok (u, x)
    → (find_session (hash_token c token) t.sessions ≡ some x)
      × (find_id x.user_id t.users ≡ some u)
      × (u.active ≡ true)
unfolding load_session_row joined
load_session_row-eq c request t token {u} {x} h =
    let (_, _, h1) = >>=-eq-ok (request.fail load_session) _ h in
    let (y, e1, h2) = >>=-eq-ok (row_of (find_session (hash_token c token) t.sessions)) _ h1 in
    let (w, e2, h3) = >>=-eq-ok (row_of (if_active (find_id y.user_id t.users))) _ h2 in
    let ew : w ≡ u = cc in
    let ey : y ≡ x = cc in
    let found = row_of-eq _ e1 in
    let (owned, active) = if_active-eq _ (row_of-eq _ e2) in
    (rw (← ey) found, rw (← ey, ← ew) owned, rw (← ew) active)

session_account-eq :
    (c : Crypto) (request : Request) (config : Config) (t : Tables) (token : String) {a : Account}
    {x : Session}
    → session_account c request config t token ≡ ok (a, x)
    → (u : User) × (load_session_row c request t token ≡ ok (u, x))
      × (open_account c config u ≡ ok a)
unfolding session_account
session_account-eq c request config t token {a} {x} h =
    let ((u, y), e1, h1) = >>=-eq-ok (load_session_row c request t token) _ h in
    let (b, e2, h2) = >>=-eq-ok (open_account c config u) _ h1 in
    let ey : y ≡ x = cc in let eb : b ≡ a = cc in (u, rw (← ey) e1, rw (← eb) e2)

module _ (c : Crypto) (request : Request) (token : String) where
  admit_learned :
      (r : Result (Account × Session)) (s : Server)
      → request.session_cookie ≡ some token
      → session_account c request s.config s.tables token ≡ r
      → LearnsAt (Authenticated c request (view s)) (admit c request r s)
  unfolding admit
  admit_learned (err e) s cookie h = tt
  admit_learned (ok (a, x)) s cookie h =
      elim (Bool-cases (before x.expires_at (request.clock at_session))) [
        | inl over ↦ rw over tt
        | inr alive ↦ elim (Bool-cases (lacks_csrf c request x)) [
          | inl lacking ↦ rw (alive, lacking) tt
          | inr given ↦
              let (u, row, account) = session_account-eq c request s.config s.tables token h in
              let (found, owned, active) = load_session_row-eq c request s.tables token row in
              rw (alive, given)
                (record {
                  token = token;
                  session = x;
                  owner = u;
                  cookie = cookie;
                  found = found;
                  owned = owned;
                  active = active;
                  account = account;
                  alive = alive;
                  csrf = csrf_checked c request x given;
                })
        ]
      ]

cookie_learned :
    (c : Crypto) (request : Request) (cookie : Option String) (s : Server)
    → request.session_cookie ≡ cookie
    → LearnsAt (Authenticated c request (view s)) (authenticate c request cookie s)
unfolding authenticate
cookie_learned c request none s h = tt
cookie_learned c request (some token) s h = admit_learned c request token _ s h refl

pub authenticate-Learns :
    (c : Crypto) (request : Request) (v : View)
    → Learns v (Authenticated c request v) (authenticate c request request.session_cookie)
authenticate-Learns c request v = record {
  at = λ s e.
      subst
        (λ w.
          LearnsAt (Authenticated c request w) (authenticate c request request.session_cookie s))
        e (cookie_learned c request request.session_cookie s refl);
}
