-- ===== src/Prelude/Text.antt =====
-- Texts. A `String` is compared whole; where the code walks a text it goes over `codes`, the code
-- points, which are the bytes of a text in ASCII.
use Prim.Native.Nat.{ℕ, ◌+◌, ◌-◌, ◌/◌, ◌%◌, Ordering, compare}
use Prim.Native.Char.{Char, code, char, nul}
use Prim.Native.String.{String, ◌++◌ as append}
use text.Mathlib.Text.{◌==◌ as native_eq}
use text.Mathlib.TextEquality.{eq_iff}
use mathlib.Core.Path.{◌≡◌, refl}
use mathlib.Core.Logic.{◌↔◌}
use mathlib.Core.Bool.{Bool, true, false, ◌&&◌, ◌||◌}
use mathlib.Core.List.{List, [], ◌∷◌, ◌++◌, map}
use collator.Prelude.Tests.{ltb, leb, ◌==◌, if◌then◌else◌}

infix 50 ◌=?◌
abbrev pub ◌=?◌ : String → String → Bool
s =? t = native_eq s t

pub =?_iff : (s t : String) → ((s =? t) ≡ true) ↔ (s ≡ t)
=?_iff s t = eq_iff s t

unfoldable pub codes : String → List ℕ
codes String.[] = []
codes (String.◌∷◌ c s) = code c ∷ codes s

-- `strings.HasPrefix`, `strings.Contains` and `strings.ToLower` on the code points (the last one
-- changes ASCII letters only).
unfoldable pub has_prefix : List ℕ → List ℕ → Bool
has_prefix [] s = true
has_prefix (p ∷ ps) [] = false
has_prefix (p ∷ ps) (c ∷ s) = p == c && has_prefix ps s

unfoldable pub contains : List ℕ → List ℕ → Bool
unfolding has_prefix
contains term [] = has_prefix term []
contains term (c ∷ s) = has_prefix term (c ∷ s) || contains term s

unfoldable pub lower : List ℕ → List ℕ
lower = map (λ c. if leb b'A' c && leb c b'Z' then c + 32 else c)

-- `strings.TrimSpace`, for the spaces of ASCII.
abbrev is_space : Char → Bool
is_space c = leb 9 (code c) && leb (code c) 13 || code c == 32

trim_left : String → String
trim_left String.[] = String.[]
trim_left (String.◌∷◌ c s) = let rest = trim_left s in if is_space c then rest else String.◌∷◌ c s

attach : Char → String → String
attach c String.[] = if is_space c then String.[] else String.◌∷◌ c String.[]
attach c (String.◌∷◌ d s) = String.◌∷◌ c (String.◌∷◌ d s)

trim_right : String → String
unfolding attach
trim_right String.[] = String.[]
trim_right (String.◌∷◌ c s) = attach c (trim_right s)

unfoldable pub trim_space : String → String
unfolding trim_left trim_right
trim_space s = trim_right (trim_left s)

-- The bytes of a text, in UTF-8.
abbrev bytes_of : ℕ → List ℕ
bytes_of c =
    if ltb c 128
    then c ∷ []
    else (if ltb c 2048
        then (192 + c / 64) ∷ (128 + c % 64) ∷ []
        else (if ltb c 65536
            then (224 + c / 4096) ∷ (128 + c / 64 % 64) ∷ (128 + c % 64) ∷ []
            else (240 + c / 262144)
              ∷ (128 + c / 4096 % 64)
              ∷ (128 + c / 64 % 64)
              ∷ (128 + c % 64)
              ∷ []))

unfoldable pub utf8 : String → List ℕ
utf8 String.[] = []
utf8 (String.◌∷◌ c s) = bytes_of (code c) ++ utf8 s

-- `strings.ToUpper` and `strings.ToLower` of a text, for the letters of ASCII.
to_char : (n : ℕ) (o : Ordering) → compare n 55296 ≡ o → Char
to_char n Ordering.lt e = char n (rw e tt)
to_char n Ordering.eq e = nul
to_char n Ordering.gt e = nul

abbrev shift : ℕ → Char
unfolding to_char
shift n = to_char n (compare n 55296) refl

unfoldable pub to_upper : String → String
unfolding shift
to_upper String.[] = String.[]
to_upper (String.◌∷◌ c s) =
    String.◌∷◌ (if leb b'a' (code c) && leb (code c) b'z' then shift (code c - 32) else c)
      (to_upper s)

unfoldable pub to_lower : String → String
unfolding shift
to_lower String.[] = String.[]
to_lower (String.◌∷◌ c s) =
    String.◌∷◌ (if leb b'A' (code c) && leb (code c) b'Z' then shift (code c + 32) else c)
      (to_lower s)

-- A prefix, an underscore and the rest.
unfoldable pub with_prefix : String → String → String
with_prefix prefix s = append prefix (append "_" s)
