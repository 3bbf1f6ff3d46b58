-- ===== src/Cache/File/Young.antt =====
-- An entry of the response cache (src/cache.rs) that is loaded on a machine that has not been up for as
-- long as the entry is old.
use pathdns.Cache.Lookup.{Lookup}
