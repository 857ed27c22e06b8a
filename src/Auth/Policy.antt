-- ===== src/Auth/Policy.antt =====
-- internal/auth/auth.go: which names and passwords are allowed.
use collator.Prelude.{
  ℕ, ◌+◌, List, [], ◌∷◌, length, Bool, true, false, ◌&&◌, ◌||◌, ltb, leb, ◌==◌, if◌then◌else◌,
  String, codes, utf8,
}

-- `strings.ContainsRune` and `strings.ContainsAny`
unfoldable pub contains_rune : List ℕ → ℕ → Bool
contains_rune [] r = false
contains_rune (c ∷ s) r = c == r || contains_rune s r

unfoldable pub contains_any : List ℕ → List ℕ → Bool
unfolding contains_rune
contains_any [] chars = false
contains_any (c ∷ s) chars = contains_rune chars c || contains_any s chars

abbrev is_name_rune : ℕ → Bool
is_name_rune r =
    r == b'_'
    || (r == b'-'
        || (leb b'a' r && leb r b'z' || (leb b'A' r && leb r b'Z' || leb b'0' r && leb r b'9')))

unfoldable pub all_name_runes : List ℕ → Bool
all_name_runes [] = true
all_name_runes (r ∷ rs) = is_name_rune r && all_name_runes rs

-- `ValidUsername`
unfoldable pub valid_username : String → Bool
unfolding all_name_runes utf8 codes
valid_username v =
    if ltb (length (utf8 v)) 3 || ltb 40 (length (utf8 v)) then false else all_name_runes (codes v)

-- The four classes of characters.
unfoldable pub classes : List (List ℕ)
unfolding codes
classes =
    codes "abcdefghijklmnopqrstuvwxyz"
    ∷ codes "ABCDEFGHIJKLMNOPQRSTUVWXYZ"
    ∷ codes "0123456789"
    ∷ codes "!@#$%^&*()_+-=[]{}:,.?"
    ∷ []

unfoldable pub count_classes : List ℕ → List (List ℕ) → ℕ
unfolding contains_any
count_classes v [] = 0
count_classes v (chars ∷ rest) = (if contains_any v chars then 1 else 0) + count_classes v rest

-- `ValidPassword`
unfoldable pub valid_password : String → Bool
unfolding count_classes classes utf8 codes
valid_password v =
    if ltb (length (utf8 v)) 14 || ltb 256 (length (utf8 v))
    then false
    else leb 3 (count_classes (codes v) classes)
