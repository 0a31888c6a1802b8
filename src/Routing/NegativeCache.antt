-- ===== src/Routing/NegativeCache.antt =====
-- `_iccid_negative_cache` of routing.py: ICCIDs that no provider claimed, each until a deadline of
-- the monotonic clock. A dict keeps its keys in the order of their insertion.
use app_suscriptions_back.Prelude.{
  ℕ, ◌+◌, ◌≤◌, ◌<◌, ◌≡◌, ◌↔◌, refl, Bool, true, false, ◌&&◌, Option, none, some, List, [], ◌∷◌,
  String, length, filter, length-filter, arith, leb, ltb, ◌==◌, ==_iff, str_eq, str_eq_iff,
  if◌then◌else◌,
}

abbrev pub Key : Type 0
Key = ℕ × String

unfoldable pub key_eq : Key → Key → Bool
key_eq a b = (a.0 == b.0) && str_eq a.1 b.1

pub key_eq_iff : (a b : Key) → (key_eq a b ≡ true) ↔ (a ≡ b)
unfolding key_eq
key_eq_iff (c, s) (d, t) = ground (arith, str_eq_iff s t, ==_iff c d)

abbrev pub Cache : Type 0
Cache = List (Key × ℕ)

-- `_NEGATIVE_CACHE_TTL_SECONDS`, in nanoseconds
abbrev pub ttl : ℕ
ttl = 60_000_000_000

-- `_NEGATIVE_CACHE_MAX_ENTRIES`
abbrev pub max_entries : ℕ
max_entries = 10_000

-- `cache.get(key)`
unfoldable pub get : Key → Cache → Option ℕ
get key [] = none
get key ((k, t) ∷ cache) = if key_eq k key then some t else get key cache

-- `cache.pop(key, None)`
unfoldable pub pop : Key → Cache → Cache
pop key [] = []
pop key ((k, t) ∷ cache) = if key_eq k key then cache else (k, t) ∷ pop key cache

-- `cache[key] = t`
unfoldable pub put : Key → ℕ → Cache → Cache
put key t [] = (key, t) ∷ []
put key t ((k, t') ∷ cache) = if key_eq k key then (k, t) ∷ cache else (k, t') ∷ put key t cache

-- `_negative_cache_hit`
unfoldable pub hit : ℕ → Key → Cache → Bool × Cache
hit now key cache = elim (get key cache) [
  | none ↦ (false, cache)
  | some t ↦ if leb t now then (false, pop key cache) else (true, cache)
]

-- dropping the entries whose deadline has come
unfoldable pub purge : ℕ → Cache → Cache
purge now cache = filter (λ e. ltb now e.1) cache

-- `cache.pop(next(iter(cache)), None)`
unfoldable pub pop_oldest : Cache → Cache
pop_oldest [] = []
pop_oldest (e ∷ cache) = cache

-- The room that `_negative_cache_record` makes before it writes, for a cache of `limit` entries.
unfoldable pub make_room : ℕ → ℕ → Cache → Cache
make_room limit now cache =
    if leb limit (length cache)
    then (let kept = purge now cache in if leb limit (length kept) then pop_oldest kept else kept)
    else cache

-- `_negative_cache_record`
unfoldable pub record_miss : ℕ → Key → Cache → Cache
record_miss now key cache = put key (now + ttl) (make_room max_entries now cache)

-- `_negative_cache_forget`
unfoldable pub forget : Key → Cache → Cache
forget = pop

get-put :
    (key other : Key) (t : ℕ) (cache : Cache)
    → get other (put key t cache) ≡ (if key_eq key other then some t else get other cache)
unfolding get put
get-put key other t [] = refl
get-put key other t ((k, t') ∷ cache) =
    ground
      (arith, get-put key other t cache, key_eq_iff k key, key_eq_iff k other, key_eq_iff key other)

length-put : (key : Key) (t : ℕ) (cache : Cache) → length (put key t cache) ≤ length cache + 1
unfolding put
length-put key t [] = omega arith
length-put key t ((k, t') ∷ cache) = ground (arith, length-put key t cache)

length-make_room :
    (limit now : ℕ) (cache : Cache)
    → 0 < limit
    → length cache ≤ limit
    → length (make_room limit now cache) < limit
unfolding make_room pop_oldest purge
length-make_room limit now cache h k =
    ground (arith, length-filter (λ (e : Key × ℕ). ltb now e.1) cache)

-- The cache never holds more than `max_entries` entries.
pub record_miss_bounded :
    (now : ℕ) (key : Key) (cache : Cache)
    → length cache ≤ max_entries
    → length (record_miss now key cache) ≤ max_entries
unfolding record_miss
record_miss_bounded now key cache h = omega (
  arith,
  length-put key (now + ttl) (make_room max_entries now cache),
  length-make_room max_entries now cache (omega arith) h,
)

-- After a miss is recorded at `now`, the ICCID is a hit exactly until `now + ttl`, however full the
-- cache was.
pub hit-record_miss :
    (now later : ℕ) (key : Key) (cache : Cache)
    → (hit later key (record_miss now key cache)).0 ≡ ltb later (now + ttl)
unfolding hit record_miss
hit-record_miss now later key cache =
    ground
      (arith, get-put key key (now + ttl) (make_room max_entries now cache), key_eq_iff key key)

-- no key twice
abbrev pub IsUnique : Cache → Type 0
IsUnique [] = Unit
IsUnique ((k, t) ∷ cache) = (get k cache ≡ none) × IsUnique cache

get-pop_ne :
    (key other : Key) (cache : Cache)
    → key_eq key other ≡ false
    → get other (pop key cache) ≡ get other cache
unfolding get pop
get-pop_ne key other [] h = refl
get-pop_ne key other ((k, t) ∷ cache) h = ground (
  arith,
  get-pop_ne key other cache h,
  key_eq_iff k key,
  key_eq_iff k other,
  key_eq_iff key other,
)

get-pop_self : (key : Key) (cache : Cache) → IsUnique cache → get key (pop key cache) ≡ none
unfolding get pop
get-pop_self key [] h = refl
get-pop_self key ((k, t) ∷ cache) (fresh, h) =
    ground (arith, get-pop_self key cache h, key_eq_iff k key)

get-filter :
    (sel : Key × ℕ → Bool) (key : Key) (cache : Cache)
    → get key cache ≡ none
    → get key (filter sel cache) ≡ none
unfolding get
get-filter sel key [] h = refl
get-filter sel key ((k, t) ∷ cache) h = ground (arith, get-filter sel key cache)

IsUnique-filter :
    (sel : Key × ℕ → Bool) (cache : Cache) → IsUnique cache → IsUnique (filter sel cache)
IsUnique-filter sel [] h = tt
IsUnique-filter sel ((k, t) ∷ cache) (fresh, h) =
    ground (arith, IsUnique-filter sel cache h, get-filter sel k cache fresh)

IsUnique-pop : (key : Key) (cache : Cache) → IsUnique cache → IsUnique (pop key cache)
unfolding pop
IsUnique-pop key [] h = tt
IsUnique-pop key ((k, t) ∷ cache) (fresh, h) =
    ground
      (arith, IsUnique-pop key cache h, get-pop_ne key k cache, key_eq_iff k key, key_eq_iff key k)

IsUnique-put : (key : Key) (t : ℕ) (cache : Cache) → IsUnique cache → IsUnique (put key t cache)
unfolding put get
IsUnique-put key t [] h = (refl, tt)
IsUnique-put key t ((k, t') ∷ cache) (fresh, h) =
    ground
      (arith, IsUnique-put key t cache h, get-put key k t cache, key_eq_iff k key, key_eq_iff key k)

make_room-IsUnique :
    (limit now : ℕ) (cache : Cache) → IsUnique cache → IsUnique (make_room limit now cache)
unfolding make_room pop_oldest purge
make_room-IsUnique limit now cache h =
    ground (arith, IsUnique-filter (λ (e : Key × ℕ). ltb now e.1) cache h)

-- Each of the three operations keeps every key of the cache at one entry.
pub cache-IsUnique :
    (now : ℕ) (key : Key) (cache : Cache)
    → IsUnique cache
    → IsUnique (record_miss now key cache)
      × IsUnique (hit now key cache).1
      × IsUnique (forget key cache)
unfolding record_miss hit forget
cache-IsUnique now key cache h = (
  IsUnique-put key (now + ttl) (make_room max_entries now cache)
      (make_room-IsUnique max_entries now cache h),
  ground (arith, IsUnique-pop key cache h),
  IsUnique-pop key cache h,
)

-- A forgotten ICCID is no hit, and whether another one is a hit does not change.
pub hit-forget :
    (now : ℕ) (key other : Key) (cache : Cache)
    → IsUnique cache
    → (hit now other (forget key cache)).0
      ≡ (if key_eq key other then false else (hit now other cache).0)
unfolding hit forget
hit-forget now key other cache h =
    ground (arith, get-pop_self key cache h, get-pop_ne key other cache, key_eq_iff key other)
