-- ===== src/Static/Cache/Latest.antt =====
-- The cache of origin responses as a map that forgets: what it serves is what was stored last.
use status_dashboard_backend.Common.{
  ℕ, ◌≡◌, refl, ◌∙◌, subst, arith, true, false, ◌==◌, ◌+◌, ◌-◌, ltb, text_eq, eqb_text_iff,
  if◌then◌else◌, if_elim, Option, none, some, List, [], ◌∷◌, ◌++◌, All, All-append, Text,
  Bool-cases, Option-cases, inl, inr,
}
use status_dashboard_backend.Model.{Time}
use status_dashboard_backend.Static.Cache.{
  Entry, size, CacheItem, ResponseCache, new_cache, look_up, remove, drop_item, drop_key, touch,
  get, get_stale, evict, insert, put,
}
use status_dashboard_backend.Static.Cache.Budget.{has_key, IsSound, key-look_up}
use status_dashboard_backend.Static.Cache.Lru.{
  drop_key-IsReady, put-IsSound, touch-IsSound, CacheOperation, puts, gets, gets_stale, replay,
}

-- The map without a bound: a response that is larger than the whole budget is never stored.
abbrev pub Origin : Type 0
Origin = Text → Option Entry

abbrev pub nothing_stored : Origin
nothing_stored key = none

abbrev pub store : ℕ → Text → Entry → Origin → Origin
store max_bytes key e m =
    if ltb max_bytes (size e) then m else (λ k. if key == k then some e else m k)

pub replay_map : ℕ → List CacheOperation → Origin → Origin
replay_map max_bytes [] m = m
replay_map max_bytes (puts key e ∷ ops) m = replay_map max_bytes ops (store max_bytes key e m)
replay_map max_bytes (gets now key ∷ ops) m = replay_map max_bytes ops m
replay_map max_bytes (gets_stale key ∷ ops) m = replay_map max_bytes ops m

-- Every item of the cache is in the map.
abbrev Within : Origin → List CacheItem → Type 0
Within m items = All (λ (i : CacheItem). m i.key ≡ some i.entry) items

Within-remove :
    (m : Origin) (key : Text) (items : List CacheItem)
    → Within m items
    → Within m (remove key items)
unfolding remove
Within-remove m key [] h = tt
Within-remove m key (i ∷ items) h =
    if_elim (Within m) (i.key == key) items (i ∷ remove key items) (λ _. h.1)
      (λ _. (h.0, Within-remove m key items h.1))

Within-look_up :
    (m : Origin) (key : Text) (items : List CacheItem) {item : CacheItem}
    → Within m items
    → look_up key items ≡ some item
    → m item.key ≡ some item.entry
Within-look_up m key [] h e = cc
Within-look_up m key (i ∷ items) {item} h e = elim (Bool-cases (i.key == key)) [
  | inl f ↦
      let g : some i ≡ some item = rw f at e in
      subst (λ (x : CacheItem). m x.key ≡ some x.entry) (let k : i ≡ item = cc in k) h.0
  | inr f ↦ Within-look_up m key items {item = item} h.1 (rw f at e)
]

Within-evict :
    (m : Origin) (max_bytes bytes : ℕ) (items : List CacheItem)
    → Within m items
    → Within m (evict max_bytes bytes items).1
unfolding evict
Within-evict m max_bytes bytes [] h = tt
Within-evict m max_bytes bytes (i ∷ items) h =
    if_elim (λ (r : ℕ × List CacheItem). Within m r.1) (ltb max_bytes bytes) _ _
      (λ _. Within-evict m max_bytes (bytes - size i.entry) items h.1) (λ _. h)

-- The items of other keys are in the map after a store.
Within-store :
    (m : Origin) (key : Text) (e : Entry) (items : List CacheItem)
    → has_key key items ≡ false
    → Within m items
    → Within (λ k. if key == k then some e else m k) items
Within-store m key e [] n h = tt
Within-store m key e (i ∷ items) n h = (
  ground (arith, h.0, eqb_text_iff key i.key, eqb_text_iff i.key key),
  Within-store m key e items (ground arith) h.1,
)

Within-drop_key :
    (m : Origin) (key : Text) (c : ResponseCache)
    → Within m c.order
    → Within m (drop_key key c).order
unfolding drop_key drop_item
Within-drop_key m key c h = elim (Option-cases (look_up key c.order)) [
  | inl n ↦ rw (drop_key, n) h
  | inr (item, n) ↦ rw (drop_key, n) (Within-remove m item.key c.order h)
]

Within-touch :
    (m : Origin) (key : Text) (c : ResponseCache)
    → Within m c.order
    → Within m (touch key c).1.order
unfolding touch
Within-touch m key c h = elim (Option-cases (look_up key c.order)) [
  | inl n ↦ rw (touch, n) h
  | inr (item, n) ↦
      rw (touch, n)
        (All-append (λ (i : CacheItem). m i.key ≡ some i.entry) (remove key c.order) (item ∷ [])
          (Within-remove m key c.order h) (Within-look_up m key c.order {item = item} h n, tt))
]

budget-touch : (key : Text) (c : ResponseCache) → (touch key c).1.max_bytes ≡ c.max_bytes
unfolding touch
budget-touch key c = elim (Option-cases (look_up key c.order)) [
  | inl n ↦ rw (touch, n) refl
  | inr (item, n) ↦ rw (touch, n) refl
]

-- A sound cache of this budget that holds nothing but what the map holds.
record Refines (max_bytes : ℕ) (m : Origin) (c : ResponseCache) : Type 0 where
  sound : IsSound c
  budget : c.max_bytes ≡ max_bytes
  within : Within m c.order

stored-Within :
    (m : Origin) (key : Text) (e : Entry) (c : ResponseCache)
    → IsSound c
    → Within m c.order
    → Within (λ k. if key == k then some e else m k) (insert key e (drop_key key c)).order
unfolding insert
stored-Within m key e c s h =
    let c' = drop_key key c in
    let m' : Origin = λ k. if key == k then some e else m k in
    Within-evict m' c'.max_bytes (c'.bytes + size e)
      (c'.order ++ record { key = key; entry = e } ∷ [])
      (All-append (λ (i : CacheItem). m' i.key ≡ some i.entry) c'.order
        (record { key = key; entry = e } ∷ [])
        (Within-store m key e c'.order (drop_key-IsReady key c s).absent
          (Within-drop_key m key c h))
        (ground (arith, eqb_text_iff key key), tt))

budget-insert :
    (key : Text) (e : Entry) (c : ResponseCache) → (insert key e c).max_bytes ≡ c.max_bytes
unfolding insert
budget-insert key e c = refl

put-Refines :
    (max_bytes : ℕ) (m : Origin) (key : Text) (e : Entry) (c : ResponseCache)
    → Refines max_bytes m c
    → Refines max_bytes (store max_bytes key e m) (put key e c)
unfolding put
put-Refines max_bytes m key e c r = elim (Bool-cases (ltb max_bytes (size e))) [
  | inl f ↦ let g : ltb c.max_bytes (size e) ≡ true = rw r.budget f in rw (f, put, g) r
  | inr f ↦
      let g : ltb c.max_bytes (size e) ≡ false = rw r.budget f in
      let s : IsSound (insert key e (drop_key key c)) =
        rw (put, g) at (put-IsSound key e c r.sound) in
      rw (f, put, g)
        (record {
          sound = s;
          budget =
              budget-insert key e (drop_key key c)
              ∙ (drop_key-IsReady key c r.sound).same_budget
              ∙ r.budget;
          within = stored-Within m key e c r.sound r.within;
        })
]

touch-Refines :
    (max_bytes : ℕ) (m : Origin) (key : Text) (c : ResponseCache)
    → Refines max_bytes m c
    → Refines max_bytes m (touch key c).1
touch-Refines max_bytes m key c r = record {
  sound = touch-IsSound key c r.sound;
  budget = budget-touch key c ∙ r.budget;
  within = Within-touch m key c r.within;
}

replay-Refines :
    (max_bytes : ℕ) (ops : List CacheOperation) (m : Origin) (c : ResponseCache)
    → Refines max_bytes m c
    → Refines max_bytes (replay_map max_bytes ops m) (replay ops c)
unfolding replay replay_map get get_stale
replay-Refines max_bytes [] m c r = r
replay-Refines max_bytes (puts key e ∷ ops) m c r =
    replay-Refines max_bytes ops (store max_bytes key e m) (put key e c)
      (put-Refines max_bytes m key e c r)
replay-Refines max_bytes (gets now key ∷ ops) m c r =
    replay-Refines max_bytes ops m (get now key c).1 (touch-Refines max_bytes m key c r)
replay-Refines max_bytes (gets_stale key ∷ ops) m c r =
    replay-Refines max_bytes ops m (get_stale key c).1 (touch-Refines max_bytes m key c r)

new_cache-Refines : (max_bytes : ℕ) → Refines max_bytes nothing_stored (new_cache max_bytes)
unfolding new_cache
new_cache-Refines max_bytes = record {
  sound = record { counted = refl; within = omega arith; distinct = tt };
  budget = refl;
  within = tt;
}

served :
    (m : Origin) (now : Time) (key : Text) (c : ResponseCache) {e : Entry}
    → Within m c.order
    → (get now key c).0 ≡ some e
    → (m key ≡ some e) × (ltb now e.expires ≡ true)
unfolding get touch
served m now key c {e} h g = elim (Option-cases (look_up key c.order)) [
  | inl n ↦ cc (let f : none ≡ some e = rw (n, get, touch) at g in f)
  | inr (item, n) ↦
      let k = key-look_up key c.order item n in
      let w = Within-look_up m key c.order {item = item} h n in
      elim (Bool-cases (ltb now item.entry.expires)) [
        | inl t ↦
            let f : some item.entry ≡ some e = rw (n, t, get, touch) at g in
            let x : item.entry ≡ e = cc in
            (
              subst (λ z. m z ≡ some e) k (w ∙ f),
              subst (λ (y : Entry). ltb now y.expires ≡ true) x t,
            )
        | inr t ↦ cc (let f : none ≡ some e = rw (n, t, get, touch) at g in f)
      ]
]

-- After every history on a new cache, a response that a lookup serves is the one that the unbounded map, replaying the
-- same history, holds under that key, so the last one stored there that fits the budget at all,
-- and it has not expired.
pub get-refines_map :
    (max_bytes : ℕ) (ops : List CacheOperation) (now : Time) (key : Text) {e : Entry}
    → (get now key (replay ops (new_cache max_bytes))).0 ≡ some e
    → (replay_map max_bytes ops nothing_stored key ≡ some e) × (ltb now e.expires ≡ true)
get-refines_map max_bytes ops now key g =
    served (replay_map max_bytes ops nothing_stored) now key (replay ops (new_cache max_bytes))
      (replay-Refines max_bytes ops nothing_stored (new_cache max_bytes)
        (new_cache-Refines max_bytes)).within
      g
