-- ===== src/AuthBroker/Authority/Others.antt =====
-- The login, the bootstrap and the logout give no order.
use collator.Prelude.{
  filterb, ◌∷◌, ◌||◌, not, ◌∙◌, Bool, true, false, Option, none, some, String, if◌then◌else◌, ◌≡◌,
  refl,
}
use collator.Model.{plain, Result, ok, err, Returns, Returns-eq, anything, >>=-Returns, Returns-map}
use collator.Auth.{Crypto, hash_token}
use collator.AuthBroker.State.{
  User, Tables, Account, begin, lock_codes, update_codes, insert_session, commit, delete_pending,
  insert_user, delete_session, Request,
}
use collator.AuthBroker.Login.{
  Factor, totp_code, recovery_code, Pending, row_of, find_id, take_out, recovery_hash, hashes_of,
  not_consumed, consume, consumed_by, consume_if, token_taken, is_user, new_session, add_session,
  login_body,
}
use collator.AuthBroker.Bootstrap.{enrol, is_new}
use collator.AuthBroker.Sessions.{without_token, end_session}
use collator.AuthBroker.Changes.{Stable}
use collator.AuthBroker.Authority.Rules.{Unordered, Kept-Unordered}

-- Tables with the same settings.
abbrev Beside : Tables → Tables → Type 0
Beside t t' = t'.settings ≡ t.settings

add_session-Beside :
    (c : Crypto) (request : Request) (p : Pending) (t : Tables)
    → Returns (Beside t) (add_session c request p t)
unfolding add_session
add_session-Beside c request p t =
    >>=-Returns (λ _. Unit {0}) (Beside t) (request.fail insert_session) _ (anything _)
      λ _ _.
        inserted
          (token_taken (hash_token c p.session) t.sessions || not (is_user p.account.id t.users))
  where
    inserted :
        (b : Bool)
        → Returns (Beside t) (
            if b
            then err (plain "constraint")
            else ok (record t { sessions = new_session c request p ∷ t.sessions }))
    inserted true = tt
    inserted false = refl

consume-Beside :
    (c : Crypto) (request : Request) (x : Account) (code : String) (t : Tables)
    → Returns (Beside t) (consume c request x code t)
unfolding consume
consume-Beside c request x code t =
    >>=-Returns (λ _. Unit {0}) (Beside t) (request.fail lock_codes) _ (anything _)
      λ _ _.
        >>=-Returns (λ _. Unit {0}) (Beside t) (row_of (find_id x.id t.users)) _ (anything _)
          λ u _.
            >>=-Returns (λ _. Unit {0}) (Beside t)
              (not_consumed (take_out (recovery_hash c code) (hashes_of u.recovery_hashes))) _
              (anything _)
              λ rest _.
                >>=-Returns (λ _. Unit {0}) (Beside t) (request.fail update_codes) _ (anything _)
                  λ _ _. refl

login_body-Beside :
    (c : Crypto) (request : Request) (p : Pending) (code : String) (t : Tables)
    → Returns (Beside t) (login_body c request p code t)
unfolding login_body
login_body-Beside c request p code t =
    >>=-Returns (λ _. Unit {0}) (Beside t) (request.fail begin) _ (anything _)
      λ _ _.
        >>=-Returns (Beside t) (Beside t) (consume_if c request p code t) _ (consumed p.factor)
          λ t' h.
            Returns-map (Beside t') (Beside t) (add_session c request p t') (λ t2 k. k ∙ h)
              (add_session-Beside c request p t')
  where
    consumed : (f : Factor) → Returns (Beside t) (consumed_by c request f p.account code t)
    consumed totp_code = refl
    consumed (recovery_code i) = consume-Beside c request p.account code t

enrol-Beside : (request : Request) (u : User) (t : Tables) → Returns (Beside t) (enrol request u t)
unfolding enrol
enrol-Beside request u t =
    >>=-Returns (λ _. Unit {0}) (Beside t) (request.fail begin) _ (anything _)
      λ _ _.
        >>=-Returns (λ _. Unit {0}) (Beside t) (request.fail delete_pending) _ (anything _)
          λ _ _.
            >>=-Returns (λ _. Unit {0}) (Beside t) (request.fail insert_user) _ (anything _)
              λ _ _.
                >>=-Returns (λ _. Unit {0}) (Beside t) (is_new u (filterb (λ v. v.active) t.users))
                  _ (anything _)
                  λ _ _.
                    >>=-Returns (λ _. Unit {0}) (Beside t) (request.fail commit) _ (anything _)
                      λ _ _. refl

ended_plain :
    (c : Crypto) (request : Request) (r : Option String) (t : Tables)
    → (end_session c request r t).settings ≡ t.settings
unfolding end_session
ended_plain c request none t = refl
ended_plain c request (some token) t = deleted (request.fail delete_session)
  where
    deleted : (r : Result (Unit {0})) → (without_token c token r t).settings ≡ t.settings
    deleted (ok _) = refl
    deleted (err e) = refl

pub Unordered-Stable : Stable Unordered
Unordered-Stable = record {
  unchanged = Kept-Unordered;
  onward = λ h k. (k.0 ∙ h.0, k.1 ∙ h.1);
  signed_in = λ c request p code s t e.
      (refl, Returns-eq (Beside s.tables) _ (login_body-Beside c request p code s.tables) e);
  enrolled =
      λ request u s t e. (refl, Returns-eq (Beside s.tables) _ (enrol-Beside request u s.tables) e);
  confirmed = λ name s users e. (refl, refl);
  signed_out = λ c request cookie s. (refl, ended_plain c request cookie s.tables);
}
