-- ===== src/Base/Map.antt =====
-- Rust's `HashMap` and `HashSet` as association lists. The order of a list stands for the
-- unspecified order of iteration; `insert` keeps the place of a key that is there.
mod Defs
mod Laws
mod Counts
mod Removal
unfoldable pub use Defs.{
  Map, Set, get, contains, insert, add, remove, keys, retain, extend, elem, Distinct, count_if,
}
pub use Laws.*
pub use Counts.*
unfoldable pub use Removal.{remove_all}
pub use Removal.*
