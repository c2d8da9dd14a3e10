-- ===== src/Static/Cache/Lru.antt =====
-- The operations of the cache of origin responses.
use status_dashboard_backend.Common.{
  ℕ, ◌≡◌, ◌≤◌, ◌+◌, refl, sym, subst, false, ltb, text_eq, some, List, [], ◌∷◌, ◌++◌, Text, arith,
  Option-cases, inl, inr, if_elim,
}
use status_dashboard_backend.Model.{Time}
use status_dashboard_backend.Static.Cache.{
  Entry, size, CacheItem, ResponseCache, new_cache, look_up, remove, drop_item, drop_key, touch,
  get, get_stale, insert, put,
}
use status_dashboard_backend.Static.Cache.Budget.{
  has_key, IsSound, total-snoc, Distinct-snoc, total-remove, removed, key-look_up, not_found,
  evict-IsEvicted,
}

drop_item-IsSound :
    (item : CacheItem) (c : ResponseCache)
    → IsSound c
    → look_up item.key c.order ≡ some item
    → IsSound (drop_item item c)
unfolding drop_item
drop_item-IsSound item c h n = record {
  counted = omega (arith, h.counted, total-remove item.key c.order item n);
  within = omega (arith, h.within);
  distinct = (removed item.key c.order h.distinct).1;
}

-- Before an insertion: a sound cache without an item of that key, with the same budget.
pub record IsReady (key : Text) (c : ResponseCache) (r : ResponseCache) : Type 0 where
  sound : IsSound r
  pub absent : has_key key r.order ≡ false
  pub same_budget : r.max_bytes ≡ c.max_bytes

dropped-IsReady :
    (item : CacheItem) (c : ResponseCache)
    → IsSound c
    → look_up item.key c.order ≡ some item
    → IsReady item.key c (drop_item item c)
unfolding drop_item
dropped-IsReady item c h n = record {
  sound = drop_item-IsSound item c h n;
  absent = (removed item.key c.order h.distinct).0;
  same_budget = refl;
}

pub drop_key-IsReady : (key : Text) (c : ResponseCache) → IsSound c → IsReady key c (drop_key key c)
unfolding drop_key
drop_key-IsReady key c h = elim (Option-cases (look_up key c.order)) [
  | inl n ↦
      rw (drop_key, n) (record { sound = h; absent = not_found key c.order n; same_budget = refl })
  | inr (item, n) ↦
      let e = key-look_up key c.order item n in
      rw (drop_key, n)
        (subst (λ k. IsReady k c (drop_item item c)) e
          (dropped-IsReady item c h (subst (λ k. look_up k c.order ≡ some item) (sym e) n)))
]

-- what an insertion that fits leaves
record IsStored (key : Text) (e : Entry) (r : ResponseCache) : Type 0 where
  sound : IsSound r
  found : look_up key r.order ≡ some (record { key = key; entry = e })

insert-IsStored :
    (key : Text) (e : Entry) (c : ResponseCache)
    → IsSound c
    → has_key key c.order ≡ false
    → size e ≤ c.max_bytes
    → IsStored key e (insert key e c)
unfolding insert
insert-IsStored key e c h n s =
    let item : CacheItem = record { key = key; entry = e } in
    let r =
      evict-IsEvicted c.max_bytes (c.bytes + size e) c.order item
        (omega (arith, h.counted, total-snoc c.order item)) s
        (Distinct-snoc c.order item h.distinct n) n in
    record {
      sound = record { counted = r.counted; within = r.within; distinct = r.distinct };
      found = r.kept;
    }

stored-get_stale :
    (key : Text) (e : Entry) (c : ResponseCache) → IsStored key e c → (get_stale key c).0 ≡ some e
unfolding get_stale
stored-get_stale key e c h = rw (get_stale, touch, h.found) refl

pub put-IsSound : (key : Text) (e : Entry) (c : ResponseCache) → IsSound c → IsSound (put key e c)
unfolding put
put-IsSound key e c h =
    let r = drop_key-IsReady key c h in
    if_elim IsSound (ltb c.max_bytes (size e)) c (insert key e (drop_key key c)) (λ _. h)
      (λ f.
        (insert-IsStored key e (drop_key key c) r.sound r.absent
          (ground (arith, f, r.same_budget))).sound)

-- A response that fits the budget is served right after it was stored, whatever the eviction removed for it.
pub put-get_stale :
    (key : Text) (e : Entry) (c : ResponseCache)
    → IsSound c
    → size e ≤ c.max_bytes
    → (get_stale key (put key e c)).0 ≡ some e
unfolding put
put-get_stale key e c h s =
    let r = drop_key-IsReady key c h in
    let fits : ltb c.max_bytes (size e) ≡ false = ground (arith, s) in
    rw (put, fits)
      (stored-get_stale key e (insert key e (drop_key key c)) (
        insert-IsStored key e (drop_key key c) r.sound r.absent (ground (arith, s, r.same_budget))))

moved-IsSound :
    (item : CacheItem) (c : ResponseCache)
    → IsSound c
    → look_up item.key c.order ≡ some item
    → IsSound (record c { order = remove item.key c.order ++ item ∷ [] })
moved-IsSound item c h n =
    let r = removed item.key c.order h.distinct in
    record {
      counted = omega (
        arith,
        h.counted,
        total-remove item.key c.order item n,
        total-snoc (remove item.key c.order) item,
      );
      within = h.within;
      distinct = Distinct-snoc (remove item.key c.order) item r.1 r.0;
    }

pub touch-IsSound : (key : Text) (c : ResponseCache) → IsSound c → IsSound (touch key c).1
unfolding touch
touch-IsSound key c h = elim (Option-cases (look_up key c.order)) [
  | inl n ↦ rw (touch, n) h
  | inr (item, n) ↦
      let e = key-look_up key c.order item n in
      rw (touch, n)
        (subst (λ k. IsSound (record c { order = remove k c.order ++ item ∷ [] })) e
          (moved-IsSound item c h (subst (λ k. look_up k c.order ≡ some item) (sym e) n)))
]

-- The operations on the cache, and the cache after a history of them.
pub data CacheOperation : Type 0 where
  puts : Text → Entry → CacheOperation
  gets : Time → Text → CacheOperation
  gets_stale : Text → CacheOperation

unfoldable pub replay : List CacheOperation → ResponseCache → ResponseCache
unfolding put get get_stale
replay [] c = c
replay (puts key e ∷ ops) c = replay ops (put key e c)
replay (gets now key ∷ ops) c = replay ops (get now key c).1
replay (gets_stale key ∷ ops) c = replay ops (get_stale key c).1

replay-keeps-IsSound :
    (ops : List CacheOperation) (c : ResponseCache) → IsSound c → IsSound (replay ops c)
unfolding replay get get_stale
replay-keeps-IsSound [] c h = h
replay-keeps-IsSound (puts key e ∷ ops) c h =
    replay-keeps-IsSound ops (put key e c) (put-IsSound key e c h)
replay-keeps-IsSound (gets now key ∷ ops) c h =
    replay-keeps-IsSound ops (get now key c).1 (touch-IsSound key c h)
replay-keeps-IsSound (gets_stale key ∷ ops) c h =
    replay-keeps-IsSound ops (get_stale key c).1 (touch-IsSound key c h)

-- After every history of operations on a new cache: the counted bytes are those of the items, they stay within the
-- budget, and every key has one item.
pub replay-IsSound :
    (max_bytes : ℕ) (ops : List CacheOperation) → IsSound (replay ops (new_cache max_bytes))
unfolding new_cache
replay-IsSound max_bytes ops =
    replay-keeps-IsSound ops (new_cache max_bytes)
      (record { counted = refl; within = omega arith; distinct = tt })
