-- ===== src/Static/Cache/Budget.antt =====
-- The bytes and the keys of the cache of origin responses.
use status_dashboard_backend.Common.{
  ℕ, ◌≡◌, ◌≤◌, ◌+◌, ◌-◌, refl, Bool, false, ltb, ◌==◌, ◌||◌, text_eq, eqb_text_iff, none, some,
  List, [], ◌∷◌, ◌++◌, any, Text, arith, Bool-cases, inl, inr, if_elim,
}
use status_dashboard_backend.Static.Cache.{size, CacheItem, ResponseCache, look_up, remove, evict}

abbrev pub total : List CacheItem → ℕ
total [] = 0
total (i ∷ items) = size i.entry + total items

abbrev pub has_key : Text → List CacheItem → Bool
has_key key items = any (λ (i : CacheItem). i.key == key) items

abbrev pub DistinctItems : List CacheItem → Type 0
DistinctItems [] = Unit
DistinctItems (i ∷ items) = (has_key i.key items ≡ false) × DistinctItems items

-- the bytes are those of the items, within the budget, one item per key
pub record IsSound (c : ResponseCache) : Type 0 where
  pub counted : c.bytes ≡ total c.order
  pub within : c.bytes ≤ c.max_bytes
  pub distinct : DistinctItems c.order

pub total-snoc :
    (items : List CacheItem) (i : CacheItem) → total (items ++ i ∷ []) ≡ total items + size i.entry
total-snoc [] i = omega arith
total-snoc (j ∷ items) i = omega (arith, total-snoc items i)

has_key-snoc :
    (key : Text) (items : List CacheItem) (i : CacheItem)
    → has_key key (items ++ i ∷ []) ≡ (has_key key items || i.key == key)
has_key-snoc key [] i = ground arith
has_key-snoc key (j ∷ items) i = ground (arith, has_key-snoc key items i)

pub Distinct-snoc :
    (items : List CacheItem) (i : CacheItem)
    → DistinctItems items
    → has_key i.key items ≡ false
    → DistinctItems (items ++ i ∷ [])
Distinct-snoc [] i h n = (refl, tt)
Distinct-snoc (j ∷ items) i h n = (
  ground
      (arith, has_key-snoc j.key items i, eqb_text_iff i.key j.key, eqb_text_iff j.key i.key, h.0),
  Distinct-snoc items i h.1 (ground arith),
)

pub total-remove :
    (key : Text) (items : List CacheItem) (item : CacheItem)
    → look_up key items ≡ some item
    → total (remove key items) + size item.entry ≡ total items
unfolding remove
total-remove key [] item h = ground arith
total-remove key (i ∷ items) item h = ground (arith, total-remove key items item)

has_key-remove :
    (k key : Text) (items : List CacheItem)
    → has_key k items ≡ false
    → has_key k (remove key items) ≡ false
unfolding remove
has_key-remove k key [] h = refl
has_key-remove k key (i ∷ items) h = ground (arith, has_key-remove k key items)

pub removed :
    (key : Text) (items : List CacheItem)
    → DistinctItems items
    → (has_key key (remove key items) ≡ false) × DistinctItems (remove key items)
unfolding remove
removed key [] h = (refl, tt)
removed key (i ∷ items) h = elim (Bool-cases (i.key == key)) [
  | inl e ↦ rw e (ground (arith, h.0, eqb_text_iff i.key key), h.1)
  | inr e ↦ rw e (
    ground (arith, e, removed key items h.1),
    (has_key-remove i.key key items h.0, (removed key items h.1).1),
  )
]

pub key-look_up :
    (key : Text) (items : List CacheItem) (item : CacheItem)
    → look_up key items ≡ some item
    → item.key ≡ key
key-look_up key [] item h = ground arith
key-look_up key (i ∷ items) item h =
    ground (arith, key-look_up key items item, eqb_text_iff i.key key)

pub not_found :
    (key : Text) (items : List CacheItem) → look_up key items ≡ none → has_key key items ≡ false
not_found key [] h = refl
not_found key (i ∷ items) h = ground (arith, not_found key items)

look_up-snoc :
    (items : List CacheItem) (i : CacheItem)
    → has_key i.key items ≡ false
    → look_up i.key (items ++ i ∷ []) ≡ some i
look_up-snoc [] i h = ground (arith, eqb_text_iff i.key i.key)
look_up-snoc (j ∷ items) i h = ground (arith, look_up-snoc items i)

-- what the loop of put leaves: counted bytes within the budget, one item per key, and the newest item
pub record IsEvicted (max_bytes : ℕ) (i : CacheItem) (r : ℕ × List CacheItem) : Type 0 where
  pub counted : r.0 ≡ total r.1
  pub within : r.0 ≤ max_bytes
  pub distinct : DistinctItems r.1
  pub kept : look_up i.key r.1 ≡ some i

not-IsEvicted :
    (max_bytes bytes : ℕ) (items : List CacheItem) (i : CacheItem)
    → bytes ≡ total (items ++ i ∷ [])
    → DistinctItems (items ++ i ∷ [])
    → has_key i.key items ≡ false
    → ltb max_bytes bytes ≡ false
    → IsEvicted max_bytes i (bytes, items ++ i ∷ [])
not-IsEvicted max_bytes bytes items i b d n f = record {
  counted = b;
  within = ground (arith, f);
  distinct = d;
  kept = look_up-snoc items i n;
}

pub evict-IsEvicted :
    (max_bytes bytes : ℕ) (items : List CacheItem) (i : CacheItem)
    → bytes ≡ total (items ++ i ∷ [])
    → size i.entry ≤ max_bytes
    → DistinctItems (items ++ i ∷ [])
    → has_key i.key items ≡ false
    → IsEvicted max_bytes i (evict max_bytes bytes (items ++ i ∷ []))
unfolding evict
evict-IsEvicted max_bytes bytes [] i b s d n =
    if_elim (IsEvicted max_bytes i) (ltb max_bytes bytes) _ (bytes, i ∷ [])
      (λ t. absurd (ground (arith, t, b, s))) (λ f. not-IsEvicted max_bytes bytes [] i b d n f)
evict-IsEvicted max_bytes bytes (j ∷ items) i b s d n =
    if_elim (IsEvicted max_bytes i) (ltb max_bytes bytes) _ (bytes, j ∷ items ++ i ∷ [])
      (λ t.
        evict-IsEvicted max_bytes (bytes - size j.entry) items i (omega (arith, b)) s d.1
          (ground (arith, n)))
      (λ f. not-IsEvicted max_bytes bytes (j ∷ items) i b d n f)
