-- ===== src/Base.antt =====
-- The names that the other modules share: the libraries', passed on, and those of the children.
mod Tests
mod Lists
mod Sort
mod Counts
mod Searches
mod Indices
mod Texts
mod Pairs
mod Filters
mod Distinct
mod Results
pub use Tests.*
pub use Lists.*
pub use Searches.*
pub use Indices.*
pub use Counts.*
unfoldable pub use Sort.{sort_by}
pub use Sort.{length-sort_by, All-sort_by, any-sort_by}
pub use Texts.*
pub use Pairs.*
pub use Filters.*
pub use Distinct.*
pub use Results.*
unfoldable pub use Texts.{
  text, text_eq, option_eq, is_space, trim, collapse_spaces, optional_text, text_or, strip_prefix,
  decimal, join_lines,
}
pub use Prim.Native.Nat.{ℕ, zero, suc, ◌+◌, ◌-◌, ◌*◌, ◌/◌, ◌%◌, ◌^◌, ◌≤◌, ◌<◌, min, max}
pub use mathlib.Core.Path.{◌≡◌, refl, sym, ap, ◌∙◌, subst}
pub use mathlib.Core.Logic.{◌≢◌, ◌↔◌, ◌⊎◌, inl, inr}
pub use mathlib.Core.Bool.{Bool, true, false, not, ◌&&◌, ◌||◌}
pub use mathlib.Core.Option.{Option, none, some}
pub use mathlib.Core.List.{List, [], ◌∷◌, ◌++◌, map, reverse, Memᴰ}
pub use native.Mathlib.Omega.{arith}
