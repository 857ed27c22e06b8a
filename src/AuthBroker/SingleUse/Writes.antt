-- ===== src/AuthBroker/SingleUse/Writes.antt =====
-- What the transaction of a login does to the users.
use collator.Prelude.{
  List, ◌∷◌, Bool, true, false, not, ◌||◌, Option, none, some, String, if◌then◌else◌, ◌≡◌, refl,
  ◌∙◌,
}
use collator.Model.{plain, ok, err, Returns, anything, >>=-Returns, >>=-Returns_eq, Returns-map}
use collator.Auth.{Crypto, hash_token}
use collator.AuthBroker.State.{
  User, Tables, Account, begin, lock_codes, update_codes, insert_session, Request,
}
use collator.AuthBroker.Login.{
  Factor, totp_code, recovery_code, Pending, row_of, find_id, take_out, set_recovery, recovery_hash,
  hashes_of, not_consumed, consume, consumed_by, consume_if, token_taken, is_user, new_session,
  add_session, login_body,
}

pub row_of-eq {ℓ} : {A : Type ℓ} (o : Option A) {a : A} → row_of o ≡ ok a → o ≡ some a
row_of-eq none h = absurd (cc)
row_of-eq (some a) h = cc

pub not_consumed-eq :
    (o : Option (List String)) {rest : List String} → not_consumed o ≡ ok rest → o ≡ some rest
not_consumed-eq none h = absurd (cc)
not_consumed-eq (some a) h = cc

-- What a login takes out of the codes.
pub record Taken (c : Crypto) (x : Account) (code : String) (t t' : Tables) : Type 0 where
  pub owner : User
  pub rest : List String
  pub found : find_id x.id t.users ≡ some owner
  pub taken : take_out (recovery_hash c code) (hashes_of owner.recovery_hashes) ≡ some rest
  pub users : t'.users ≡ set_recovery x.id rest t.users

pub consume-Taken :
    (c : Crypto) (request : Request) (x : Account) (code : String) (t : Tables)
    → Returns (Taken c x code t) (consume c request x code t)
unfolding consume
consume-Taken c request x code t =
    >>=-Returns (λ _. Unit {0}) (Taken c x code t) (request.fail lock_codes) _ (anything _)
      λ _ _. >>=-Returns_eq (Taken c x code t) (row_of (find_id x.id t.users)) _ λ u found.
        >>=-Returns_eq (Taken c x code t)
          (not_consumed (take_out (recovery_hash c code) (hashes_of u.recovery_hashes))) _
          λ rest taken.
            >>=-Returns (λ _. Unit {0}) (Taken c x code t) (request.fail update_codes) _
              (anything _)
              λ _ _. record {
                owner = u;
                rest = rest;
                found = row_of-eq _ found;
                taken = not_consumed-eq _ taken;
                users = refl;
              }

pub add_session-users :
    (c : Crypto) (request : Request) (p : Pending) (t : Tables)
    → Returns (λ t'. t'.users ≡ t.users) (add_session c request p t)
unfolding add_session
add_session-users c request p t =
    >>=-Returns (λ _. Unit {0}) (λ t'. t'.users ≡ t.users) (request.fail insert_session) _
      (anything _)
      λ _ _.
        inserted
          (token_taken (hash_token c p.session) t.sessions || not (is_user p.account.id t.users))
  where
    inserted :
        (b : Bool)
        → Returns
            (λ t'. t'.users ≡ t.users)
            (if b
              then err (plain "constraint")
              else ok (record t { sessions = new_session c request p ∷ t.sessions }))
    inserted true = tt
    inserted false = refl

-- A login leaves the users alone or takes one code out.
abbrev pub Signs : Crypto → Factor → Account → String → Tables → Tables → Type 0
Signs c totp_code x code t t' = t'.users ≡ t.users
Signs c (recovery_code i) x code t t' = Taken c x code t t'

consumed_by-Signs :
    (c : Crypto) (request : Request) (f : Factor) (x : Account) (code : String) (t : Tables)
    → Returns (Signs c f x code t) (consumed_by c request f x code t)
consumed_by-Signs c request totp_code x code t = refl
consumed_by-Signs c request (recovery_code i) x code t = consume-Taken c request x code t

pub Signs-onward :
    (c : Crypto) (f : Factor) (x : Account) (code : String) (t t' t2 : Tables)
    → Signs c f x code t t'
    → t2.users ≡ t'.users
    → Signs c f x code t t2
Signs-onward c totp_code x code t t' t2 h e = e ∙ h
Signs-onward c (recovery_code i) x code t t' t2 h e = record {
  owner = h.owner;
  rest = h.rest;
  found = h.found;
  taken = h.taken;
  users = e ∙ h.users;
}

pub login_body-Signs :
    (c : Crypto) (request : Request) (p : Pending) (code : String) (t : Tables)
    → Returns (Signs c p.factor p.account code t) (login_body c request p code t)
unfolding login_body consume_if
login_body-Signs c request p code t =
    >>=-Returns (λ _. Unit {0}) (Signs c p.factor p.account code t) (request.fail begin) _
      (anything _)
      λ _ _.
        >>=-Returns (Signs c p.factor p.account code t) (Signs c p.factor p.account code t)
          (consumed_by c request p.factor p.account code t) _
          (consumed_by-Signs c request p.factor p.account code t)
          λ t' h.
            Returns-map (λ t2. t2.users ≡ t'.users) (Signs c p.factor p.account code t)
              (add_session c request p t')
              (λ t2 e. Signs-onward c p.factor p.account code t t' t2 h e)
              (add_session-users c request p t')
