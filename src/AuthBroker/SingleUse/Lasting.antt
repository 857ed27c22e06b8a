-- ===== src/AuthBroker/SingleUse/Lasting.antt =====
-- No event of a run gives a code back.
use collator.Prelude.{
  some-injective, List, ◌∷◌, filterb, true, false, ◌||◌, Option, none, some, String, ◌=?◌, =?_iff,
  elapsed, hour, ◌≡◌, refl, sym, ap, ◌∙◌, subst, arith, Bool-cases, inl, inr,
}
use collator.Model.{
  plain, Result, ok, err, Returns, Returns-eq, anything, >>=-Returns, >>=-Returns_eq,
}
use collator.Auth.{Crypto}
use collator.AuthBroker.State.{
  User, Tables, Server, Account, at_session, at_clean_test, begin, commit, delete_pending,
  insert_user, delete_session, delete_expired, Request,
}
use collator.AuthBroker.Login.{
  Factor, totp_code, recovery_code, find_id, take_out, set_recovery, hashes_of,
}
use collator.AuthBroker.Bootstrap.{enrol, is_new, name_taken, id_taken}
use collator.AuthBroker.Sessions.{without_token, without_expired, end_session, clean}
use collator.AuthBroker.Changes.Events.{Lasting}
use collator.AuthBroker.SingleUse.Codes.{
  IsSpent, if_true, take_out-none, find_id-there, find_id-set_same, find_id-set_other,
  find_id-active, find_id-id_taken, find_id-set_active,
}
use collator.AuthBroker.SingleUse.Writes.{Taken, Signs, login_body-Signs}

IsSpent-users :
    {hash id : String} {us us' : List User} → us' ≡ us → IsSpent hash id us → IsSpent hash id us'
IsSpent-users {hash} {id} e h = subst (IsSpent hash id) (sym e) h

Taken-IsSpent :
    (hash id : String) (c : Crypto) (x : Account) (code : String) (t t' : Tables)
    → Taken c x code t t'
    → IsSpent hash id t.users
    → IsSpent hash id t'.users
Taken-IsSpent hash id c x code t t' k h = elim (Bool-cases (x.id =? id)) [
  | inl same ↦
      let e : x.id ≡ id = (=?_iff x.id id).0 same in
      let found : find_id id t.users ≡ some k.owner =
        subst (λ i. find_id i t.users ≡ some k.owner) e k.found in
      let owner : h.user ≡ k.owner = some-injective (sym h.found ∙ found) in
      let gone : take_out hash (hashes_of k.owner.recovery_hashes) ≡ none =
        subst (λ (u : User). take_out hash (hashes_of u.recovery_hashes) ≡ none) owner h.gone in
      IsSpent-users (k.users ∙ ap (λ i. set_recovery i k.rest t.users) e) (record {
        user = record k.owner { recovery_hashes = some k.rest };
        found = find_id-set_same id k.rest t.users found;
        active = sym (ap (λ (u : User). u.active) owner) ∙ h.active;
        gone = take_out-none hash _ (hashes_of k.owner.recovery_hashes) k.rest gone k.taken;
      })
  | inr other ↦ IsSpent-users k.users (record {
    user = h.user;
    found = find_id-set_other id x.id k.rest t.users other ∙ h.found;
    active = h.active;
    gone = h.gone;
  })
]

Signs-IsSpent :
    (hash id : String) (c : Crypto) (f : Factor) (x : Account) (code : String) (t t' : Tables)
    → Signs c f x code t t'
    → IsSpent hash id t.users
    → IsSpent hash id t'.users
Signs-IsSpent hash id c totp_code x code t t' e h = IsSpent-users e h
Signs-IsSpent hash id c (recovery_code i) x code t t' k h = Taken-IsSpent hash id c x code t t' k h

is_new-eq :
    (u : User) (us : List User) {x : Unit {0}} → is_new u us ≡ ok x → id_taken u.id us ≡ false
is_new-eq u us h = elim (Bool-cases (name_taken u.username us || id_taken u.id us)) [
  | inl taken ↦
      absurd (let e : err (plain "duplicate key") ≡ ok _ = sym (if_true _ _ _ taken) ∙ h in cc)
  | inr free ↦ ground arith
]

-- What the bootstrap makes of the users.
pub enrol-users :
    (request : Request) (u : User) (t : Tables)
    → Returns
        (λ t'.
          (t'.users ≡ u ∷ filterb (λ v. v.active) t.users)
          × (id_taken u.id (filterb (λ v. v.active) t.users) ≡ false))
        (enrol request u t)
unfolding enrol
enrol-users request u t =
    let P : Tables → Type 0 = λ t'.
      (t'.users ≡ u ∷ filterb (λ v. v.active) t.users)
      × (id_taken u.id (filterb (λ v. v.active) t.users) ≡ false) in
    >>=-Returns (λ _. Unit {0}) P (request.fail begin) _ (anything _)
      λ _ _.
        >>=-Returns (λ _. Unit {0}) P (request.fail delete_pending) _ (anything _)
          λ _ _.
            >>=-Returns (λ _. Unit {0}) P (request.fail insert_user) _ (anything _)
              λ _ _. >>=-Returns_eq P (is_new u (filterb (λ v. v.active) t.users)) _ λ _ new.
                >>=-Returns (λ _. Unit {0}) P (request.fail commit) _ (anything _)
                  λ _ _. (refl, is_new-eq u _ new)

enrol-IsSpent :
    (hash id : String) (u : User) (us us' : List User)
    → us' ≡ u ∷ filterb (λ v. v.active) us
    → id_taken u.id (filterb (λ v. v.active) us) ≡ false
    → IsSpent hash id us
    → IsSpent hash id us'
enrol-IsSpent hash id u us us' e new h =
    let kept = filterb (λ (v : User). v.active) us in
    let found : find_id id kept ≡ some h.user = find_id-active id us h.found h.active in
    elim (Bool-cases (u.id =? id)) [
      | inl same ↦ absurd (
          let k : true ≡ false =
            sym (find_id-id_taken id kept found)
            ∙ sym (ap (λ i. id_taken i kept) ((=?_iff u.id id).0 same))
            ∙ new in
          cc)
      | inr other ↦ IsSpent-users e (record {
        user = h.user;
        found = find_id-there id u kept other ∙ found;
        active = h.active;
        gone = h.gone;
      })
    ]

ended-users :
    (c : Crypto) (request : Request) (cookie : Option String) (t : Tables)
    → (end_session c request cookie t).users ≡ t.users
unfolding end_session
ended-users c request none t = refl
ended-users c request (some token) t = deleted (request.fail delete_session)
  where
    deleted : (r : Result (Unit {0})) → (without_token c token r t).users ≡ t.users
    deleted (ok _) = refl
    deleted (err e) = refl

clean-users : (request : Request) (s : Server) → (clean request s).tables.users ≡ s.tables.users
unfolding clean
clean-users request s =
    elim (Bool-cases (elapsed (request.clock at_clean_test) s.last_clean hour)) [
      | inl due ↦ rw due (expired (request.fail delete_expired))
      | inr early ↦ rw early refl
    ]
  where
    expired :
        (r : Result (Unit {0}))
        → (without_expired (request.clock at_session) r s.tables).users ≡ s.tables.users
    expired (ok _) = refl
    expired (err e) = refl

-- Once gone, a code stays gone.
abbrev pub StaysSpent : String → String → Server → Server → Type 0
StaysSpent hash id s s' = IsSpent hash id s.tables.users → IsSpent hash id s'.tables.users

pub StaysSpent-Lasting : (hash id : String) → Lasting (StaysSpent hash id)
StaysSpent-Lasting hash id = record {
  stable = record {
    unchanged = λ k h. IsSpent-users k.users h;
    onward = λ h k x. k (h x);
    signed_in = λ c request p code s t e.
        Signs-IsSpent hash id c p.factor p.account code s.tables t (
          Returns-eq (Signs c p.factor p.account code s.tables) _
            (login_body-Signs c request p code s.tables) e);
    enrolled = λ request u s t e.
        let (users, new) =
          Returns-eq
            (λ t'.
              (t'.users ≡ u ∷ filterb (λ v. v.active) s.tables.users)
              × (id_taken u.id (filterb (λ v. v.active) s.tables.users) ≡ false))
            _ (enrol-users request u s.tables) e in
        enrol-IsSpent hash id u s.tables.users t.users users new;
    confirmed = λ name s users e h. record {
      user = h.user;
      found = find_id-set_active id name s.tables.users h.found h.active e;
      active = h.active;
      gone = h.gone;
    };
    signed_out = λ c request cookie s. IsSpent-users (ended-users c request cookie s.tables);
  };
  sent = λ action s h. h;
  set = λ settings s h. h;
  cleaned = λ request s. IsSpent-users (clean-users request s);
  counted = λ total limited s h. h;
}
