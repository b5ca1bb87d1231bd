-- ===== src/Dict.antt =====
-- Go's maps with string keys: an association list, one pair for each key. The order of the pairs is
-- not observable in Go: a `range` visits them in an order of its own (Range.antt).
mod Defs
mod Laws
mod Range
unfoldable pub use Defs.{find, put, delete}
pub use Defs.{Dict, keys, HasDistinctKeys, IsKnown}
pub use Laws.*
unfoldable pub use Range.{drop_loop, hit}
pub use Range.{
  MapOrder, drop_loop-map, drop_loop-gone, drop_loop-hit, hit_none, find-select_key,
  HasDistinctKeys-select, find-select, All-find,
}
