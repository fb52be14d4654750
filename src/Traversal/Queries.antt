-- ===== src/Traversal/Queries.antt =====
-- The memoized queries of src/transform.c beside the queries of src/cstrider_api.c.
use c_strider.Prelude.{ℕ, ◌≡◌, refl, ap, Bool, true, false, not, ◌&&◌, ◌||◌, some, ◌==◌}
use c_strider.Table.{find}
use c_strider.Types.{TypeEntry, TypeTable, no_type, type_funptr, is_fptr, is_array, is_ptr}
use c_strider.Traversal.{memoized_is_ptr, memoized_is_array}

-- A type that is a function pointer by its function alone.
abbrev pub by_function_only : TypeEntry → Bool
by_function_only te =
    te.target_type == no_type
    && not (te.type == type_funptr)
    && is_fptr te.corresp_func_ptr
    && te.arrlen == 0

pointer_tests :
    (nothing funptr by_function single : Bool)
    → (not nothing || funptr) && single
      ≡ ((not nothing || funptr || by_function) && single)
        && not (nothing && not funptr && by_function && single)
pointer_tests false funptr by_function true = refl
pointer_tests false funptr by_function false = refl
pointer_tests true true by_function true = refl
pointer_tests true true by_function false = refl
pointer_tests true false true true = refl
pointer_tests true false true false = refl
pointer_tests true false false single = refl

-- For a type that the table has, the memoized test for an array agrees with `cstrider_is_array`, and
-- `cstrider_is_ptr` holds where the memoized test for a pointer does, except of the types that are
-- function pointers by their function alone.
pub memoized_lem :
    (t : ℕ) (tbl : TypeTable) {te : TypeEntry}
    → find t tbl ≡ some te
    → (is_array tbl t ≡ some (memoized_is_array te))
      × (is_ptr tbl t ≡ some (memoized_is_ptr te && not (by_function_only te)))
unfolding is_array is_ptr
memoized_lem t tbl {te} known = (
  rw known,
  rw known (
      ap some (
        pointer_tests (te.target_type == no_type) (te.type == type_funptr)
          (is_fptr te.corresp_func_ptr) (te.arrlen == 0))),
)
