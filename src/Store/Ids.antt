-- ===== src/Store/Ids.antt =====
-- internal/store/store.go: ids.
use collator.Prelude.{String, with_prefix}
use collator.Model.{Result, ok, ◌>>=◌}
use collator.Auth.{Crypto, Random, random_token}

-- `NewID`
unfoldable pub new_id : Crypto → String → Random → Result String
unfolding random_token with_prefix
new_id c prefix drawn = random_token c drawn >>= λ token. ok (with_prefix prefix token)
