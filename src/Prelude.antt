-- ===== src/Prelude.antt =====
-- The names that the other modules share: those of the libraries, passed on, and those of the
-- children. Python's tests, lists, dictionaries, text, sorting and floating-point numbers.
mod Tests
mod Lists
mod Dict
mod Text
mod Sort
mod Int
mod Strings
mod FloatOps
mod Names
mod Keys
pub use Tests.*
pub use Lists.*
pub use Text.{str_eq, str_eq_iff, str_append, str_is_empty, str_or, append_named}
pub use FloatOps.*
pub use Int.*
pub use Keys.{str_eq_apart, str_eq_refl, str_eq_comm, get_str-nil, get_str-put_str}
pub use Names.{
  str_eq-append, after_prefix_complete, read_digits-two_digits, after_prefix-append,
  after_prefix-differs,
}
unfoldable pub use Names.{two_digits, read_digits, heads_differ}
unfoldable pub use Strings.{
  lstrip, rstrip, strip, strip_edges, split, first_word, after_prefix, after_marker, splitlines,
  split_once, parse_int, get_str, put_str,
}
unfoldable pub use Text.{str_take, show, join}
unfoldable pub use Dict.{get_key, put_key, modify, set_default, has_key, keys, values}
pub use Dict.{
  get_key-put_key, get_key-modify, get_key-set_default, keys-modify, get_key_missing, modified,
  dict_laws,
}
unfoldable pub use Sort.{insert_by, sort_by}
pub use Sort.{sort_by-perm, IsSorted, IsWeakOrder, sort_by-IsSorted}
pub use Prim.Native.Nat.{ℕ, zero, suc, ◌+◌, ◌-◌, ◌*◌, ◌/◌, ◌%◌, ◌≤◌, ◌<◌, min, max}
pub use Prim.Native.String.{String}
pub use mathlib.Core.Path.{◌≡◌, refl, sym, ap, ap₂, ◌∙◌, subst, fun_ext}
pub use mathlib.Core.Logic.{◌≢◌, ◌↔◌, ◌⊎◌, inl, inr}
pub use mathlib.Core.Bool.{Bool, true, false, not, ◌&&◌, ◌||◌}
pub use mathlib.Core.Option.{Option, none, some}
pub use mathlib.Core.List.{List, [], ◌∷◌, ◌++◌, map, foldl, append-nil, append_assoc}
pub use native.Mathlib.Omega.{arith}
