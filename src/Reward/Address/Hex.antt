-- ===== src/Reward/Address/Hex.antt =====
-- Hexadecimal text of bytes: the decoding, as in encoding/hex, and the round trip.
use collator.Prelude.{
  ℕ, ◌+◌, ◌-◌, ◌*◌, ◌/◌, ◌%◌, ◌<◌, List, [], ◌∷◌, ◌&&◌, leb, if◌then◌else◌, Option, none, some, ◌≡◌,
  refl, ap, arith, All,
}
use collator.Reward.Codec.Numbers.{IsByte}
use collator.Reward.Address.{hex_digit, hex_encode}

abbrev pub hex_value : ℕ → Option ℕ
hex_value c =
    if leb 48 c && leb c 57
    then some (c - 48)
    else (if leb 97 c && leb c 102
        then some (c - 87)
        else (if leb 65 c && leb c 70 then some (c - 55) else none))

abbrev pair_up : Option ℕ → Option ℕ → Option (List ℕ) → Option (List ℕ)
pair_up (some hi) (some lo) (some bs) = some ((hi * 16 + lo) ∷ bs)
pair_up _ _ _ = none

-- `hex.DecodeString`
unfoldable pub hex_decode : List ℕ → Option (List ℕ)
hex_decode [] = some []
hex_decode (c ∷ []) = none
hex_decode (c ∷ d ∷ cs) = pair_up (hex_value c) (hex_value d) (hex_decode cs)

hex_value-digit : (n : ℕ) → n < 16 → hex_value (hex_digit n) ≡ some n
hex_value-digit n h = ground arith

pub hex_decode-encode : (bs : List ℕ) → All IsByte bs → hex_decode (hex_encode bs) ≡ some bs
unfolding hex_decode hex_encode
hex_decode-encode [] h = refl
hex_decode-encode (b ∷ bs) (hb, h) =
    rw
      (
        hex_value-digit (b / 16) (omega arith),
        hex_value-digit (b % 16) (omega arith),
        hex_decode-encode bs h,
      )
      (ap (λ (t : ℕ). some (t ∷ bs)) (omega arith))

pub hex_encode-injective :
    (as' bs : List ℕ) → All IsByte as' → All IsByte bs → hex_encode as' ≡ hex_encode bs → as' ≡ bs
hex_encode-injective as' bs ha hb e =
    cc (hex_decode-encode as' ha, ap hex_decode e, hex_decode-encode bs hb)
