-- ===== src/Tests/Caches.antt =====
-- The cache of the static proxy on small responses.
use status_dashboard_backend.Common.{
  ℕ, ◌≡◌, refl, ◌≤◌, ltb, Option, none, some, true, List, [], ◌∷◌, Text, arith,
}
use status_dashboard_backend.Static.Cache.{
  Entry, ResponseCache, new_cache, put, get, get_stale, size,
}
use status_dashboard_backend.Static.Cache.Budget.{IsSound}
use status_dashboard_backend.Static.Cache.Lru.{
  CacheOperation, puts, gets, gets_stale, replay, replay-IsSound, put-get_stale,
}
use status_dashboard_backend.Static.Cache.Latest.{nothing_stored, replay_map, get-refines_map}

abbrev page : ℕ → Entry
page c = record { status = 200; header = []; body = c ∷ c ∷ c ∷ []; expires = 100; storable = true }

abbrev home : Text
home = b'/' ∷ []

abbrev about : Text
about = b'/' ∷ b'a' ∷ []

-- the second page evicts the first
abbrev history : List CacheOperation
history = puts home (page 1) ∷ gets 50 home ∷ puts about (page 2) ∷ gets_stale home ∷ []

replay-IsSound_example : IsSound (replay history (new_cache 5))
replay-IsSound_example = replay-IsSound 5 history

fits : size (page 3) ≤ 5
unfolding size
fits = ground arith

-- a cache that holds one page of three bytes
abbrev filled : ResponseCache
filled = record { max_bytes = 5; bytes = 3; order = record { key = about; entry = page 2 } ∷ [] }

filled-IsSound : IsSound filled
unfolding size
filled-IsSound = record { counted = refl; within = ground arith; distinct = (refl, tt) }

put-get_stale_example : (get_stale home (put home (page 3) filled)).0 ≡ some (page 3)
put-get_stale_example = put-get_stale home (page 3) filled filled-IsSound fits

abbrev entry_or : Entry → Option Entry → Entry
entry_or e none = e
entry_or e (some x) = x

-- the first page is gone, the second one is served
abbrev second_serving : Option Entry
second_serving = (get 50 about (replay history (new_cache 5))).0

second_serves : second_serving ≡ some (entry_or (page 0) second_serving)
unfolding replay new_cache
second_serves = refl

get-refines_map_example :
    (replay_map 5 history nothing_stored about ≡ some (entry_or (page 0) second_serving))
    × (ltb 50 (entry_or (page 0) second_serving).expires ≡ true)
get-refines_map_example = get-refines_map 5 history 50 about second_serves
