-- ===== src/Base.antt =====
-- The names that the components share: the libraries', passed on, and those of the children.
mod Logic
mod Lists
mod Strings
mod Int
mod Decimal
mod Sorting
mod Positions
pub use Logic.*
pub use Lists.*
unfoldable pub use Strings.{
  Text, codes, text_eq, includes, IsDistinct, starts_with, ends_with, is_empty, or_text, is_space,
  drop_while, drop_end_while, trim, split, split_at,
}
unfoldable pub use Int.{
  pos_part, neg_part, sub_ℕ, ◌+ℤ◌, ◌-ℤ◌, ◌≤ℤ◌, ◌<ℤ◌, leb_ℤ, eqb_ℤ, min_ℤ, max_ℤ, round_half,
  round_quarter,
}
pub use Int.{
  ℤ, pos, negsuc, +ℤ_parts, -ℤ_parts, eq_of_parts, eqb_ℤ-eq, min_ℤ_lem, max_ℤ_lem, round_half_lem,
  int_laws,
}
pub use Strings.{
  text_eq_iff, text_eq_refl, includes-append, IsDistinct-concat, includes-filter, IsDistinct-filter,
  and_of_text_eq, text_eq_comm,
}
unfoldable pub use Decimal.{print}
pub use Decimal.{print-injective, IsDigit, print-IsDigit}
pub use Prim.Native.Nat.{ℕ, zero, suc, ◌+◌, ◌-◌, ◌*◌, ◌/◌, ◌%◌, ◌≤◌, ◌<◌, min, max}
pub use mathlib.Core.Path.{◌≡◌, refl, sym, ap, ap₂, subst, ◌∙◌}
pub use mathlib.Core.Logic.{◌≢◌, ◌↔◌, ◌⊎◌, inl, inr}
pub use mathlib.Core.Bool.{Bool, true, false, ◌&&◌, ◌||◌, not}
pub use mathlib.Core.Option.{Option, none, some}
pub use mathlib.Core.List.{List, [], ◌∷◌, ◌++◌, map, reverse}
pub use native.Mathlib.Omega.{arith}
unfoldable pub use Sorting.{sort}
pub use Sorting.{insert, any-sort, length-sort}
unfoldable pub use Positions.{between}
pub use Positions.{
  next_index, index_of, includes-take-drop, index_of-get_elem?, includes-between,
  includes-filter_text, add_text, add_texts, includes-add_texts, All-of_includes, IsDistinct-append,
  IsDistinct-filter_text,
}
