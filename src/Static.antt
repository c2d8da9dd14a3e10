-- ===== src/Static.antt =====
-- internal/static: the proxy in front of the static site; its cache.
pub mod Cache
