-- ===== src/Static/Cache.antt =====
-- internal/static/cache.go: the LRU cache of origin responses. The linked list and the map that indexes
-- it are one list of items, from the least to the most recently used, searched by key; every operation
-- runs under the lock, as if alone. Texts and bodies are lists of bytes.
pub mod Budget
pub mod Lru
pub mod Latest
use status_dashboard_backend.Common.{
  ℕ, ◌+◌, ◌-◌, Bool, true, false, if◌then◌else◌, ltb, ◌==◌, text_eq, Option, none, some, List, [],
  ◌∷◌, ◌++◌, length, find, Text,
}
use status_dashboard_backend.Model.{Time}

pub record Entry : Type 0 where
  pub status : ℕ
  pub header : List (Text × List Text)
  pub body : Text
  pub expires : Time
  pub storable : Bool

-- the values of one header name, each counted with the name
unfoldable pub values_size : Text → List Text → ℕ
values_size name [] = 0
values_size name (value ∷ values) = length name + length value + values_size name values

unfoldable pub header_size : List (Text × List Text) → ℕ
unfolding values_size
header_size [] = 0
header_size ((name, values) ∷ header) = values_size name values + header_size header

unfoldable pub size : Entry → ℕ
unfolding header_size
size e = length e.body + header_size e.header

pub record CacheItem : Type 0 where
  pub key : Text
  pub entry : Entry

pub record ResponseCache : Type 0 where
  pub max_bytes : ℕ
  pub bytes : ℕ
  -- the back of the list first
  pub order : List CacheItem

unfoldable pub new_cache : ℕ → ResponseCache
new_cache max_bytes = record { max_bytes = max_bytes; bytes = 0; order = [] }

abbrev pub look_up : Text → List CacheItem → Option CacheItem
look_up key items = find (λ (i : CacheItem). i.key == key) items

-- order.Remove
unfoldable pub remove : Text → List CacheItem → List CacheItem
remove key [] = []
remove key (i ∷ items) = let rest = remove key items in if i.key == key then items else i ∷ rest

unfoldable pub drop_item : CacheItem → ResponseCache → ResponseCache
unfolding remove size
drop_item item c = record c { bytes = c.bytes - size item.entry; order = remove item.key c.order }

unfoldable pub touch : Text → ResponseCache → Option CacheItem × ResponseCache
unfolding remove
touch key c = elim (look_up key c.order) [
  | none ↦ (none, c)
  | some item ↦ (some item, record c { order = remove key c.order ++ item ∷ [] })
]

unfoldable pub get_stale : Text → ResponseCache → Option Entry × ResponseCache
unfolding touch
get_stale key c =
    let (o, c') = touch key c in (elim o [ none ↦ none | some item ↦ some item.entry ], c')

unfoldable pub get : Time → Text → ResponseCache → Option Entry × ResponseCache
unfolding touch
get now key c =
    let (o, c') = touch key c in
    (
      elim o [
        | none ↦ none
        | some item ↦ if ltb now item.entry.expires then some item.entry else none
      ],
      c',
    )

-- the loop of put: the bytes that remain, and the items
unfoldable pub evict : ℕ → ℕ → List CacheItem → ℕ × List CacheItem
unfolding size
evict max_bytes bytes [] = (bytes, [])
evict max_bytes bytes (i ∷ items) =
    let rest = evict max_bytes (bytes - size i.entry) items in
    if ltb max_bytes bytes then rest else (bytes, i ∷ items)

-- put, without an item of that key
unfoldable pub insert : Text → Entry → ResponseCache → ResponseCache
unfolding evict
insert key e c =
    let (bytes, order) =
      evict c.max_bytes (c.bytes + size e) (c.order ++ record { key = key; entry = e } ∷ []) in
    record c { bytes = bytes; order = order }

-- `if element, ok := c.items[key]; ok { c.drop(element) }`
unfoldable pub drop_key : Text → ResponseCache → ResponseCache
unfolding drop_item
drop_key key c = elim (look_up key c.order) [ none ↦ c | some item ↦ drop_item item c ]

unfoldable pub put : Text → Entry → ResponseCache → ResponseCache
unfolding insert drop_key
put key e c = if ltb c.max_bytes (size e) then c else insert key e (drop_key key c)
