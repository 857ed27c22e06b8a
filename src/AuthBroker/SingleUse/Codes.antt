-- ===== src/AuthBroker/SingleUse/Codes.antt =====
-- A recovery code that is gone from a user's list, and what each write does to it.
use collator.Prelude.{
  some-injective, List, [], ◌∷◌, filterb, Bool, true, false, not, ◌&&◌, Option, none, some, String,
  ◌=?◌, =?_iff, if◌then◌else◌, ◌≡◌, refl, sym, ap, ◌∙◌, subst, arith, Bool-cases, Option-cases, inl,
  inr,
}
use collator.AuthLimit.Keys.{listed, Distinct}
use collator.AuthBroker.State.{User}
use collator.AuthBroker.Login.{find_id, take_out, set_recovery, hashes_of}
use collator.AuthBroker.Bootstrap.{after_row, set_active, id_taken}

=?_refl : (s : String) → (s =? s) ≡ true
=?_refl s = (=?_iff s s).1 refl

=?_sym : (s t : String) → (s =? t) ≡ true → (t =? s) ≡ true
=?_sym s t h = (=?_iff t s).1 (sym ((=?_iff s t).0 h))

take_out-listed : (h : String) (hs : List String) → listed h hs ≡ false → take_out h hs ≡ none
unfolding take_out
take_out-listed h [] l = refl
take_out-listed h (x ∷ hs) l = elim (Bool-cases (h =? x)) [
  | inl here ↦ absurd (ground (arith, =?_sym h x here))
  | inr other ↦ rw (other, take_out-listed h hs (ground arith)) refl
]

-- Taking a code out of a list that has it once leaves a list without it.
pub take_out-gone :
    (h : String) (hs rest : List String)
    → Distinct hs
    → take_out h hs ≡ some rest
    → take_out h rest ≡ none
unfolding take_out
take_out-gone h [] rest d e = absurd (cc)
take_out-gone h (x ∷ hs) rest d e = elim (Bool-cases (h =? x)) [
  | inl here ↦
      let e' : some hs ≡ some rest = rw here at e in
      let once : listed h hs ≡ false = ap (λ y. listed y hs) ((=?_iff h x).0 here) ∙ d.0 in
      subst (λ r. take_out h r ≡ none) (some-injective e') (take_out-listed h hs once)
  | inr other ↦ elim (Option-cases (take_out h hs)) [
    | inl gone ↦ absurd (let e' : none ≡ some rest = rw (other, gone) at e in cc)
    | inr (r, found) ↦
        let e' : some (x ∷ r) ≡ some rest = rw (other, found) at e in
        subst (λ r'. take_out h r' ≡ none) (some-injective e')
          (rw (other, take_out-gone h hs r d.1 found) refl)
  ]
]

-- Taking another one out does not bring it back.
pub take_out-none :
    (h k : String) (hs rest : List String)
    → take_out h hs ≡ none
    → take_out k hs ≡ some rest
    → take_out h rest ≡ none
unfolding take_out
take_out-none h k [] rest n e = absurd (cc)
take_out-none h k (x ∷ hs) rest n e = elim (Bool-cases (h =? x)) [
  | inl here ↦ absurd (let n' : some hs ≡ none = rw here at n in cc)
  | inr other ↦ elim (Option-cases (take_out h hs)) [
    | inr (r, found) ↦ absurd (let n' : some (x ∷ r) ≡ none = rw (other, found) at n in cc)
    | inl gone ↦ elim (Bool-cases (k =? x)) [
      | inl first ↦
          let e' : some hs ≡ some rest = rw first at e in
          subst (λ r. take_out h r ≡ none) (some-injective e') gone
      | inr later ↦ elim (Option-cases (take_out k hs)) [
        | inl missing ↦ absurd (let e' : none ≡ some rest = rw (later, missing) at e in cc)
        | inr (r, found) ↦
            let e' : some (x ∷ r) ≡ some rest = rw (later, found) at e in
            subst (λ r'. take_out h r' ≡ none) (some-injective e')
              (rw (other, take_out-none h k hs r gone found) refl)
      ]
    ]
  ]
]

-- The codes of the active user with an id no longer hold a hash.
pub record IsSpent (hash id : String) (users : List User) : Type 0 where
  pub user : User
  pub found : find_id id users ≡ some user
  pub active : user.active ≡ true
  pub gone : take_out hash (hashes_of user.recovery_hashes) ≡ none

pub find_id-set_same :
    (id : String) (hashes : List String) (users : List User) {u : User}
    → find_id id users ≡ some u
    → find_id id (set_recovery id hashes users) ≡ some (record u { recovery_hashes = some hashes })
unfolding find_id set_recovery
find_id-set_same id hashes [] h = absurd (cc)
find_id-set_same id hashes (w ∷ us) {u} h = elim (Bool-cases (w.id =? id)) [
  | inl here ↦
      let e : some w ≡ some u = rw here at h in
      rw (here, here)
        (ap (λ (v : User). some (record v { recovery_hashes = some hashes })) (some-injective e))
  | inr other ↦ rw (other, other) (find_id-set_same id hashes us (rw other at h))
]

pub find_id-set_other :
    (id other : String) (hashes : List String) (users : List User)
    → (other =? id) ≡ false
    → find_id id (set_recovery other hashes users) ≡ find_id id users
unfolding find_id set_recovery
find_id-set_other id other hashes [] h = refl
find_id-set_other id other hashes (w ∷ us) h = elim (Bool-cases (w.id =? other)) [
  | inl here ↦
      let apart : (w.id =? id) ≡ false = ap (λ i. i =? id) ((=?_iff w.id other).0 here) ∙ h in
      rw (here, apart) (find_id-set_other id other hashes us h)
  | inr differ ↦
      rw differ
        (ap (λ o. if w.id =? id then some w else o) (find_id-set_other id other hashes us h))
]

pub if_true {ℓ} : {A : Type ℓ} (b : Bool) (x y : A) → b ≡ true → (if b then x else y) ≡ x
if_true true x y h = refl
if_true false x y h = absurd (cc)

pub if_false {ℓ} : {A : Type ℓ} (b : Bool) (x y : A) → b ≡ false → (if b then x else y) ≡ y
if_false true x y h = absurd (cc)
if_false false x y h = refl

pub find_id-here :
    (id : String) (w : User) (us : List User) → (w.id =? id) ≡ true → find_id id (w ∷ us) ≡ some w
unfolding find_id
find_id-here id w us h = if_true (w.id =? id) _ _ h

pub find_id-there :
    (id : String) (w : User) (us : List User)
    → (w.id =? id) ≡ false
    → find_id id (w ∷ us) ≡ find_id id us
unfolding find_id
find_id-there id w us h = if_false (w.id =? id) _ _ h

pub find_id-active :
    (id : String) (users : List User) {u : User}
    → find_id id users ≡ some u
    → u.active ≡ true
    → find_id id (filterb (λ v. v.active) users) ≡ some u
unfolding find_id
find_id-active id [] h a = absurd (cc)
find_id-active id (w ∷ us) {u} h a = elim (Bool-cases (w.id =? id)) [
  | inl here ↦
      let e : w ≡ u = some-injective (sym (find_id-here id w us here) ∙ h) in
      let on : w.active ≡ true = ap (λ (v : User). v.active) e ∙ a in
      ap (find_id id) (if_true w.active (w ∷ filterb (λ v. v.active) us) _ on)
      ∙ find_id-here id w _ here
      ∙ ap some e
  | inr other ↦
      let rest = find_id-active id us (sym (find_id-there id w us other) ∙ h) a in
      elim (Bool-cases w.active) [
        | inl on ↦
            ap (find_id id) (if_true w.active (w ∷ filterb (λ v. v.active) us) _ on)
            ∙ find_id-there id w _ other
            ∙ rest
        | inr off ↦
            ap (find_id id) (if_false w.active (w ∷ filterb (λ v. v.active) us) _ off) ∙ rest
      ]
]

pub find_id-id_taken :
    (id : String) (users : List User) {u : User}
    → find_id id users ≡ some u
    → id_taken id users ≡ true
unfolding find_id
find_id-id_taken id [] h = absurd (cc)
find_id-id_taken id (w ∷ us) h = elim (Bool-cases (w.id =? id)) [
  | inl here ↦ rw here refl
  | inr other ↦ rw other (find_id-id_taken id us (rw other at h))
]

inactive_differs :
    (id : String) (w : User) (us : List User) {u : User}
    → find_id id (w ∷ us) ≡ some u
    → u.active ≡ true
    → w.active ≡ false
    → (w.id =? id) ≡ false
inactive_differs id w us h a off = elim (Bool-cases (w.id =? id)) [
  | inr other ↦ other
  | inl here ↦
      let e = some-injective (sym (find_id-here id w us here) ∙ h) in
      let on : w.active ≡ true = ap (λ (v : User). v.active) e ∙ a in
      absurd (let e' : true ≡ false = sym on ∙ off in cc)
]

and_not : (a b : Bool) → (a && not b) ≡ true → b ≡ false
and_not a b h = ground arith

find_id-after_row :
    (id : String) (w : User) (us : List User) (o : Option (List User)) {u : User}
    {later : List User}
    → find_id id (w ∷ us) ≡ some u
    → ((rest : List User) → o ≡ some rest → find_id id us ≡ some u → find_id id rest ≡ some u)
    → after_row w o ≡ some later
    → find_id id later ≡ some u
find_id-after_row id w us none h k e = absurd (cc)
find_id-after_row id w us (some rest) h k e = elim (Bool-cases (w.id =? id)) [
  | inl here ↦
      ap (find_id id) (sym (some-injective e))
      ∙ find_id-here id w rest here
      ∙ sym (find_id-here id w us here)
      ∙ h
  | inr other ↦
      ap (find_id id) (sym (some-injective e))
      ∙ find_id-there id w rest other
      ∙ k rest refl (sym (find_id-there id w us other) ∙ h)
]

pub find_id-set_active :
    (id name : String) (users : List User) {u : User} {later : List User}
    → find_id id users ≡ some u
    → u.active ≡ true
    → set_active name users ≡ some later
    → find_id id later ≡ some u
unfolding set_active
find_id-set_active id name [] h a e = absurd (cc)
find_id-set_active id name (w ∷ us) {u} {later} h a e =
    elim (Bool-cases (w.username =? name && not w.active)) [
      | inl pending ↦
          let e' : (record w { active = true }) ∷ us ≡ later =
            some-injective (sym (if_true _ _ _ pending) ∙ e) in
          let differs : (w.id =? id) ≡ false = inactive_differs id w us h a (and_not _ _ pending) in
          ap (find_id id) (sym e')
          ∙ find_id-there id (record w { active = true }) us differs
          ∙ sym (find_id-there id w us differs)
          ∙ h
      | inr other ↦
          find_id-after_row id w us (set_active name us) h
            (λ rest found here. find_id-set_active id name us here a found)
            (sym (if_false _ _ _ other) ∙ e)
    ]
