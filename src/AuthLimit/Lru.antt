-- ===== src/AuthLimit/Lru.antt =====
-- The bounded maps of internal/authlimit/limiter.go: a map, and the list of its keys, the one used
-- last in front. The two kinds of entries are a parameter.
use collator.Prelude.{
  ℕ, zero, suc, ◌+◌, Time, before, List, [], ◌∷◌, length, Bool, false, ◌||◌, leb, if◌then◌else◌,
  Option, none, some, String, ◌=?◌,
}

pub record LruMap (E : Type 0) : Type 0 where
  pub entries : List (String × E)
  pub order : List String

abbrev pub empty_lru : {E : Type 0} → LruMap E
empty_lru = record { entries = []; order = [] }

unfoldable pub is_key : {E : Type 0} → String → List (String × E) → Bool
is_key k [] = false
is_key k ((j, e) ∷ m) = j =? k || is_key k m

unfoldable pub find : {E : Type 0} → String → List (String × E) → Option E
find k [] = none
find k ((j, e) ∷ m) = let rest = find k m in if j =? k then some e else rest

-- A change of the entry that a pointer into the map leads to.
unfoldable pub update : {E : Type 0} → String → E → List (String × E) → List (String × E)
update k e [] = []
update k e ((j, d) ∷ m) = let rest = update k e m in if j =? k then (j, e) ∷ rest else (j, d) ∷ rest

-- `delete` on the map.
unfoldable pub erase : {E : Type 0} → String → List (String × E) → List (String × E)
erase k [] = []
erase k ((j, e) ∷ m) = let rest = erase k m in if j =? k then rest else (j, e) ∷ rest

-- `list.Remove` of a key's element.
unfoldable pub remove : String → List String → List String
remove k [] = []
remove k (j ∷ ks) = if j =? k then ks else j ∷ remove k ks

-- `list.Back`, and the list without it.
unfoldable pub back : List String → Option String
back [] = none
back (k ∷ []) = some k
back (k ∷ j ∷ ks) = back (j ∷ ks)

unfoldable pub without_back : List String → List String
without_back [] = []
without_back (k ∷ []) = []
without_back (k ∷ j ∷ ks) = k ∷ without_back (j ∷ ks)

-- `evictIP` and `evictAccount`
unfoldable pub evict_oldest : {E : Type 0} → LruMap E → Option String → LruMap E
unfolding erase without_back
evict_oldest l none = l
evict_oldest l (some k) = record { entries = erase k l.entries; order = without_back l.order }

-- The loop that makes room, on fuel.
unfoldable pub make_room : {E : Type 0} → ℕ → ℕ → LruMap E → LruMap E
unfolding evict_oldest back
make_room zero limit l = l
make_room (suc fuel) limit l =
    let rest = make_room fuel limit (evict_oldest l (back l.order)) in
    if leb limit (length l.entries) then rest else l

-- A new entry, in front.
unfoldable pub push : {E : Type 0} → String → E → LruMap E → LruMap E
push k e l = record { entries = (k, e) ∷ l.entries; order = k ∷ l.order }

-- `ip` and `account`: the entry of a key, with the time of its use set by `touched`, or a new one.
unfoldable pub obtain : {E : Type 0} → ℕ → String → E → (E → E) → LruMap E → Option E → LruMap E × E
unfolding update remove make_room push
obtain limit k new touched l (some e) =
    (record { entries = update k (touched e) l.entries; order = k ∷ remove k l.order }, touched e)
obtain limit k new touched l none = (push k new (make_room (suc (length l.entries)) limit l), new)

-- One of the loops of `cleanup`: the entries that no call has used for `ttl` go.
unfoldable pub drop_old :
    {E : Type 0} → (E → Time) → ℕ → Time → List (String × E) → List String → LruMap E
unfolding remove
drop_old access ttl now [] order = record { entries = []; order = order }
drop_old access ttl now ((k, e) ∷ m) order =
    let gone = drop_old access ttl now m (remove k order) in
    let kept = drop_old access ttl now m order in
    if before (access e + ttl) now
    then gone
    else record { entries = (k, e) ∷ kept.entries; order = kept.order }
