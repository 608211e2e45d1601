-- ===== src/Engine/Caches.antt =====
-- storage/engine.rs: what an engine tells of its caches, and how they are cleared.
use nesso.Base.{ℕ}
use nesso.Cache
use nesso.Wal.Reader
use nesso.Engine.{Engine}

unfoldable pub payload_cache_stats : Engine → ℕ × ℕ × ℕ
payload_cache_stats e = Cache.stats e.inner.payload_cache

unfoldable pub clear_payload_cache : Engine → Engine
clear_payload_cache e = record e {
  inner = record e.inner { payload_cache = Cache.clear e.inner.payload_cache };
}

unfoldable pub clear_reader_cache : Engine → Engine
clear_reader_cache e = record e { reader = Reader.clear_cache e.reader }
