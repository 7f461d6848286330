-- ===== src/Sandbox/Pool.antt =====
-- backend/judge/app/sandbox/pool.py, and the session of isolate.py that leases a box, starts it
-- and cleans it. `asyncio.Queue` is a list, with `get` at the front and `put_nowait` at the back.
pub mod Leases
use yandex_codeforces_analyz.Prelude.{
  ℕ, zero, suc, ◌+◌, ◌-◌, ◌*◌, ◌/◌, ◌%◌, ◌≤◌, ◌<◌, min, max, String, ◌≡◌, refl, sym, ap, ap₂, ◌∙◌,
  subst, fun_ext, ◌≢◌, ◌↔◌, ◌⊎◌, inl, inr, Bool, true, false, not, ◌&&◌, ◌||◌, Option, none, some,
  List, [], ◌∷◌, ◌++◌, map, foldl, append-nil, append_assoc, arith, ltb, leb, ◌==◌, if◌then◌else◌,
  ltb→lt, leb→le, ==_iff, Bool-cases, Option-cases, or_else, is_some, length, get_elem?, take, drop,
  all_of, any_of, select, count_of, first_where, Every, length-append, take-append-drop,
  count_of-le, sum_by, str_eq, str_eq_iff, str_append, str_take, str_is_empty, str_or, show, join,
  Floats, IsLawful, get_key, put_key, modify, set_default, has_key, keys, values, get_key-put_key,
  get_key-modify, get_key-set_default, keys-modify, get_key_missing, dict_laws, insert_by, sort_by,
  sort_by-perm, IsSorted, IsWeakOrder, sort_by-IsSorted, ℤ, pos, negsuc, leb_ℤ, eq_ℤ, max_ℤ, or_ℤ,
  lstrip, rstrip, strip, first_word, after_prefix, after_marker, splitlines, split_once, parse_int,
  get_str, put_str, no_float, nan, number, Reading,
}
use yandex_codeforces_analyz.Sandbox.{Result, ok, err, value_error}

abbrev pub max_box_id : ℕ
max_box_id = 999

pub record BoxPool : Type 0 where
  pub ids : List ℕ
  pub free : List ℕ
  pub broken : List ℕ

-- `range(first, first + size)`
range_from : ℕ → ℕ → List ℕ
range_from first zero = []
range_from first (suc size) = first ∷ range_from (first + 1) size

-- `BoxPool.__init__`; a negative first id is no ℕ
unfoldable pub make_pool : ℕ → ℕ → Result BoxPool
unfolding range_from
make_pool size first_id =
    if ltb size 1
    then err (value_error "pool size must be at least 1")
    else if ltb max_box_id (first_id + size - 1)
    then err (value_error "box ids must stay within 0..999")
    else ok
        (record { ids = range_from first_id size; free = range_from first_id size; broken = [] })

-- `set.add`
add_broken : ℕ → List ℕ → List ℕ
add_broken b bs = if any_of (λ c. c == b) bs then bs else b ∷ bs

-- `retire`
unfoldable pub retire : ℕ → BoxPool → BoxPool
unfolding add_broken
retire b p = record p { broken = add_broken b p.broken }

-- `lease` up to the `yield`: `none` while every box is busy
unfoldable pub lease_begin : BoxPool → Option (ℕ × BoxPool)
lease_begin p = elim p.free [ [] ↦ none | b ∷ rest ↦ some (b, record p { free = rest }) ]

-- `lease` after the `yield`: `keep` is false if the body raised BoxCorrupted
unfoldable pub lease_end : Bool → ℕ → BoxPool → BoxPool
unfolding add_broken
lease_end keep b p =
    if keep
    then record p { free = p.free ++ (b ∷ []) }
    else record p { broken = add_broken b p.broken }

-- `IsolateSandbox._cleanup_box`: `cleaned` says that isolate was found and exited with 0
unfoldable pub cleanup_box : Bool → ℕ → BoxPool → BoxPool
unfolding retire
cleanup_box cleaned b p = if cleaned then p else retire b p

-- the end of `IsolateSandbox.session`: first the clean-up, then the end of the lease; a session
-- whose `_init_box` raised only ends its lease
unfoldable pub session_end : Bool → Bool → ℕ → BoxPool → BoxPool
unfolding cleanup_box lease_end
session_end cleaned keep b p = lease_end keep b (cleanup_box cleaned b p)

unfoldable pub init_failed : ℕ → BoxPool → BoxPool
unfolding lease_end
init_failed b p = lease_end true b p
