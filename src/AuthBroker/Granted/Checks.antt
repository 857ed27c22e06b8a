-- ===== src/AuthBroker/Granted/Checks.antt =====
-- What the first half of a login has checked.
use collator.Prelude.{true, Option, none, some, ◌≡◌, refl, ap, ◌∙◌, subst, Bool-cases, inl, inr}
use collator.Model.{no_rows, is_no_rows, Result, ok, err, >>=-eq-ok}
use collator.Auth.{Crypto, random_token}
use collator.Auth.Password.{verify_password}
use collator.AuthBroker.State.{
  User, Server, Account, at_check, load_user, session_token, csrf_token, Request, Net,
}
use collator.AuthBroker.Careful.{or_respond-Clean}
use collator.AuthBroker.Login.{
  Credentials, Factor, Pending, find_active, row_of, open_account, load_account, check_password,
  found_account, checked_account, second_factor, with_factor, factor_of, deny, passed, check_login,
}
use collator.AuthBroker.Untouched.Steps.{rate_limit-Clean, wait-Clean, enter_gate-Clean}
use collator.AuthBroker.Untouched.Signing.{checked_account-Clean, passed-Clean}
use collator.AuthBroker.Authority.Rules.{View, view, Learns, LearnsAt, Learns->>=, Learns-nothing}
use collator.AuthBroker.SingleUse.Writes.{row_of-eq}

-- An account that has passed the check of the password.
record Known (c : Crypto) (v : View) (given : Credentials) (x : Account) : Type 0 where
  user : User
  found : find_active given.username v.1 ≡ some user
  account : open_account c v.0 user ≡ ok x
  password : verify_password c x.password_hash given.password ≡ true

module _ (c : Crypto) (request : Request) (given : Credentials) where
  check_password-eq :
      (r : Result Account) {x : Account}
      → check_password c given.password r ≡ ok x
      → (r ≡ ok x) × (verify_password c x.password_hash given.password ≡ true)
  unfolding check_password
  check_password-eq (err e) h = absurd (cc)
  check_password-eq (ok y) {x} h =
      elim (Bool-cases (verify_password c y.password_hash given.password)) [
        | inl right ↦
            let e : ok y ≡ ok x = rw right at h in
            let e' : y ≡ x = cc in
            (
              e,
              subst (λ (z : Account). verify_password c z.password_hash given.password ≡ true) e'
                  right,
            )
        | inr wrong ↦ absurd (let e : err no_rows ≡ ok x = rw wrong at h in cc)
      ]

  load_account-Known :
      (s : Server) (x : Account)
      → check_password c given.password (load_account c request s given.username) ≡ ok x
      → Known c (view s) given x
  unfolding load_account
  load_account-Known s x h =
      let (loaded, password) = check_password-eq _ h in
      let (_, _, h1) = >>=-eq-ok (request.fail load_user) _ loaded in
      let (u, e, h2) = >>=-eq-ok (row_of (find_active given.username s.tables.users)) _ h1 in
      record { user = u; found = row_of-eq _ e; account = h2; password = password }

  -- What the step leaves behind in the account that it found.
  abbrev IfKnown : View → Option Account → Type 0
  IfKnown v none = Unit
  IfKnown v (some x) = Known c v given x

  found_at :
      (v : View) (r : Result Account) (s : Server)
      → ((x : Account) → r ≡ ok x → Known c v given x)
      → LearnsAt (IfKnown v) (found_account r s)
  unfolding found_account
  found_at v (ok x) s h = h x refl
  found_at v (err e) s h = elim (Bool-cases (is_no_rows e)) [
    | inl missing ↦ rw missing tt
    | inr other ↦ rw other tt
  ]

  checked_account-Learns : (v : View) → Learns v (IfKnown v) (checked_account c request given)
  unfolding checked_account
  checked_account-Learns v = record {
    at = λ s e. found_at v _ _ λ x h. subst (λ w. Known c w given x) e (load_account-Known s x h);
  }

  passed-Learns :
      (v : View) (found : Option (Account × Factor))
      → Learns v (λ granted. found ≡ some granted) (passed request given.username found)
  unfolding passed deny
  passed-Learns v none = record { at = λ s e. tt }
  passed-Learns v (some granted) = record { at = λ s e. refl }

-- The user has this name and is active, the password is right, and what was given as a code is the
-- second factor.
pub record IsChecked (c : Crypto) (request : Request) (v : View) (given : Credentials) (p : Pending)
    : Type 0 where
  pub user : User
  pub found : find_active given.username v.1 ≡ some user
  pub account : open_account c v.0 user ≡ ok p.account
  pub password : verify_password c p.account.password_hash given.password ≡ true
  pub factor : second_factor c p.account given.totp (request.clock at_check) ≡ some p.factor

with_factor-eq :
    (x : Account) (o : Option Factor) {y : Account} {f : Factor}
    → with_factor x o ≡ some (y, f)
    → (x ≡ y) × (o ≡ some f)
with_factor-eq x none h = absurd (cc)
with_factor-eq x (some g) h = (cc, cc)

module _ (c : Crypto) (request : Request) (given : Credentials) (v : View) where
  checked :
      (found : Option Account) (p : Pending)
      → IfKnown c request given v found
      → factor_of c request given found ≡ some (p.account, p.factor)
      → IsChecked c request v given p
  unfolding factor_of
  checked none p k h = absurd (cc)
  checked (some x) p k h =
      let (e, factor) = with_factor-eq x _ h in
      record {
        user = k.user;
        found = k.found;
        account = k.account ∙ ap ok e;
        password =
            subst (λ (y : Account). verify_password c y.password_hash given.password ≡ true) e
              k.password;
        factor =
            subst (λ y. second_factor c y given.totp (request.clock at_check) ≡ some p.factor) e
              factor;
      }

  pub check_login-Learns :
      (net : Net) → Learns v (IsChecked c request v given) (check_login c net request given)
  unfolding check_login
  check_login-Learns net =
      Learns->>= _ _ v _ _ (rate_limit-Clean net request given.username) (Learns-nothing v _)
        λ delay _. Learns->>= _ _ v _ _ (wait-Clean request delay) (Learns-nothing v _) λ _ _.
          Learns->>= _ _ v _ _ enter_gate-Clean (Learns-nothing v _) λ _ _.
            Learns->>= _ _ v _ _ (checked_account-Clean c request given)
              (checked_account-Learns c request given v)
              λ found known.
                Learns->>= _ _ v _ _ (passed-Clean request given.username _)
                  (passed-Learns c request given v (factor_of c request given found))
                  λ (x, factor) e.
                    Learns->>= _ _ v _ _
                      (or_respond-Clean (random_token c (request.random session_token)) _)
                      (Learns-nothing v _)
                      λ session _.
                        Learns->>= _ _ v _ _
                          (or_respond-Clean (random_token c (request.random csrf_token)) _)
                          (Learns-nothing v _)
                          λ csrf _. record {
                            at = λ s _.
                                checked found
                                  (record {
                                    account = x;
                                    factor = factor;
                                    session = session;
                                    csrf = csrf;
                                  })
                                  known e;
                          }
