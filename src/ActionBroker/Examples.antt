-- ===== src/ActionBroker/Examples.antt =====
-- Tests of the verifier's memory.
use collator.Prelude.{
  add64, true, ◌++◌, ℕ, ◌+◌, ◌%◌, second, codes, some, leb, if◌then◌else◌, minute, ◌*◌, [], ◌∷◌,
  false, not, filterb, ◌≡◌, refl, arith,
}
use collator.ActionBroker.{new_verifier, remember, forget, has_nonce, evict, insert}
use collator.ActionBroker.Memory.{IsValid, has_entry, is_young, remember-IsValid}
use collator.Auth.{Bytes}
use collator.Model.{plain, err, is_ok}
use collator.ActionBroker.Verify.{Codecs, Call, verify, check_call}
use collator.ActionBroker.Once.{verify_all, verify-once}
use collator.ActionBroker.Replay.{remember_all, remember-no_replay}

new-IsValid : IsValid new_verifier
unfolding has_nonce
new-IsValid = record { holds = λ n. refl; distinct = tt; bounded = omega arith }

remember-IsValid_example :
    IsValid (remember "a" minute new_verifier).0
    × ((remember "a" minute new_verifier).1
        ≡ not (has_entry "a" (filterb (is_young minute) new_verifier.order)))
remember-IsValid_example = remember-IsValid "a" minute new_verifier new-IsValid

remember-no_replay_example :
    (remember "a"
      (2 * minute)
      (remember_all (("b", minute) ∷ []) (remember "a" minute new_verifier).0)).1
    ≡ false
unfolding remember forget has_nonce evict insert
remember-no_replay_example =
    remember-no_replay "a" minute (2 * minute) new_verifier (("b", minute) ∷ []) new-IsValid refl
      (omega arith, tt) (omega arith) (omega arith)

abbrev total : Bytes → ℕ
total [] = 0
total (x ∷ xs) = x + total xs

abbrev toy_codecs : Codecs
toy_codecs = record {
  sha256 = λ body. body;
  hmac_sha256 = λ key text. key ++ text;
  base64_url = λ raw. if leb 1 (total raw % 2) then "odd" else "even";
  base64_url_decode = λ text. some (codes text);
}

abbrev key : Bytes
key = 7 ∷ []

-- A quarter of a minute after the time in the header.
abbrev noon : ℕ
noon = (62135596800 + 1700000015) * second

abbrev signed_call : Call
signed_call = record {
  header = record { timestamp = "1700000000"; nonce = " nonce-of-16-byte"; signature = "even" };
  body = 1 ∷ 2 ∷ [];
  now = noon;
}

abbrev other_call : Call
other_call = record signed_call {
  header = record signed_call.header { nonce = "other-of-16-byte" };
  now = noon + second;
}

abbrev same_call : Call
same_call = record signed_call { now = noon + 2 * second }

accepted : is_ok (verify toy_codecs key signed_call new_verifier).0 ≡ true
unfolding verify add64
accepted = refl

forged :
    (verify toy_codecs key (record signed_call { body = 2 ∷ 2 ∷ [] }) new_verifier).0
    ≡ err (plain "invalid broker signature")
unfolding verify add64
forged = refl

-- Sixteen seconds later the thirty seconds are over.
late :
    (verify toy_codecs key (record signed_call { now = noon + 16 * second }) new_verifier).0
    ≡ err (plain "expired broker request")
unfolding verify add64
late = refl

verify-once_example :
    is_ok
      (verify toy_codecs key same_call (
        verify_all toy_codecs key
          (other_call ∷ [])
          (verify toy_codecs key signed_call new_verifier).1)).0
    ≡ false
unfolding check_call add64
verify-once_example =
    verify-once toy_codecs key signed_call same_call (other_call ∷ []) new_verifier new-IsValid
      accepted refl refl (omega arith, tt) (omega arith)
