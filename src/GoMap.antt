-- ===== src/GoMap.antt =====
-- Go's `map` and `sync.Map`, as association lists. The order of the entries stands for the
-- iteration order, which Go leaves open.
mod Defs
mod Laws
unfoldable pub use Defs.{lookup, insert, delete}
pub use Defs.{Map, IsMap}
pub use Laws.*
