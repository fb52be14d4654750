-- ===== src/Types.antt =====
-- The type table of src/cstrider_api.c. A `typ` is the bit pattern of a `long` below 2^64, `no_type`
-- that of -1. A function pointer is told apart as far as the code compares it. Generated code is the
-- record `Generated`. A query that exits, and a read through NULL, is `none`.
-- The bytes that the compiler puts between the fields of a hashed struct are never written: they are
-- the argument `pad`.
pub mod Init
pub mod Construct
pub mod Generic
use mathlib.Core.Option
use c_strider.Prelude.Options.{◌>>=◌}
use c_strider.Prelude.{
  ℕ, zero, suc, ◌+◌, ◌-◌, ◌*◌, ◌/◌, ◌%◌, ◌^◌, ◌≡◌, Bool, true, false, not, ◌&&◌, ◌||◌, Option, none,
  some, List, [], ◌∷◌, ◌++◌, ◌==◌, if◌then◌else◌, update,
}
use c_strider.Table.{Table, find, add, modify}
use c_strider.Hash.{super_fast_hash}

abbrev pub no_type : ℕ
no_type = 2 ^ 64 - 1

-- TYPE_FUNPTR
abbrev pub type_funptr : ℕ
type_funptr = 16

-- A traversal function: `transform_prim`, `transform_fptr` or a generated one.
pub data Xformer : Type 0 where
  prim : Xformer
  fptr : Xformer
  generated : ℕ → Xformer

abbrev pub is_fptr : Xformer → Bool
is_fptr fptr = true
is_fptr _ = false

-- `type_hash_entry`
pub record TypeEntry : Type 0 where
  pub type : ℕ
  pub arrlen : ℕ
  pub arrbase : ℕ
  pub size : ℕ
  pub corresp_func_ptr : Xformer
  pub target_type : ℕ
  pub pointer_to : ℕ
  pub num_gen_args : ℕ
  pub args : ℕ
  pub maintype : ℕ
  pub out_type : ℕ

abbrev pub TypeTable : Type 0
TypeTable = Table TypeEntry

-- What the generated code of a program provides.
pub record Generated : Type 0 where
  pub sizes_array_len : ℕ
  pub sizes_array : ℕ → ℕ
  pub target_type_array : ℕ → ℕ
  pub main_types_array : ℕ → ℕ
  pub corresp_func_array : ℕ → Xformer
  pub get_num_gen_args_arr : ℕ → ℕ
  pub get_args_arr : ℕ → ℕ
  pub out_type_internal : ℕ → ℕ
  pub is_prim : ℕ → Bool
  pub funptr_type : ℕ  -- TYPE_FUNPTR_i

abbrev pub get_typeinfo_from_table : ℕ → TypeTable → Option TypeEntry
get_typeinfo_from_table t tbl = find t tbl

-- The queries.
module _ (tbl : TypeTable) (t : ℕ) where
  unfoldable pub is_array : Option Bool
  is_array = Option.map (λ e. not (e.arrlen == 0)) (find t tbl)

  unfoldable pub is_ptr : Option Bool
  is_ptr =
      Option.map (λ e. (not (e.target_type == no_type) || e.type == type_funptr) && e.arrlen == 0)
        (find t tbl)

  pub get_tvers_funptr : Option Xformer
  get_tvers_funptr = Option.map (λ e. e.corresp_func_ptr) (find t tbl)

  pub is_funptr : Generated → Option Bool
  is_funptr g = if t == g.funptr_type then some true else Option.map is_fptr get_tvers_funptr

  pub get_typ_ptstothis : Option ℕ
  get_typ_ptstothis = Option.map (λ e. e.pointer_to) (find t tbl)

  pub get_array_len : Option ℕ
  get_array_len = Option.map (λ e. e.arrlen * e.size % 2 ^ 32) (find t tbl)

  unfoldable pub get_num_array_elems : Option ℕ
  get_num_array_elems = Option.map (λ e. e.arrlen) (find t tbl)

  unfoldable pub get_maintype : Option ℕ
  get_maintype = Option.map (λ e. e.maintype) (find t tbl)

  unfoldable pub get_ptrtype : Option ℕ
  get_ptrtype = Option.map (λ e. e.target_type) (find t tbl)

  unfoldable pub get_array_base_type : Option ℕ
  get_array_base_type = Option.map (λ e. e.arrbase) (find t tbl)

  unfoldable pub get_size : Option ℕ
  get_size = Option.map (λ e. e.size) (find t tbl)

  pub get_generic_args : Option ℕ
  get_generic_args = Option.map (λ e. e.args) (find t tbl)

  pub get_num_gen_args : Option ℕ
  get_num_gen_args = Option.map (λ e. e.num_gen_args) (find t tbl)

  unfoldable pub get_out_size : Option ℕ
  get_out_size = do
    te ← find t tbl
    if te.out_type == no_type then some te.size else Option.map (λ e. e.size) (find te.out_type tbl)

  -- What the queries that the traversal makes return for a known type.
  pub get_ptrtype-known : {e : TypeEntry} → find t tbl ≡ some e → get_ptrtype ≡ some e.target_type
  unfolding get_ptrtype
  get_ptrtype-known h = rw h

  pub get_size-known : {e : TypeEntry} → find t tbl ≡ some e → get_size ≡ some e.size
  unfolding get_size
  get_size-known h = rw h

  pub is_array-known : {e : TypeEntry} → find t tbl ≡ some e → is_array ≡ some (not (e.arrlen == 0))
  unfolding is_array
  is_array-known h = rw h

  pub get_num_array_elems-known :
      {e : TypeEntry} → find t tbl ≡ some e → get_num_array_elems ≡ some e.arrlen
  unfolding get_num_array_elems
  get_num_array_elems-known h = rw h

  pub get_array_base_type-known :
      {e : TypeEntry} → find t tbl ≡ some e → get_array_base_type ≡ some e.arrbase
  unfolding get_array_base_type
  get_array_base_type-known h = rw h
