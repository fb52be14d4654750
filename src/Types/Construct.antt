-- ===== src/Types/Construct.antt =====
-- The type constructors `mktypptr` and `mktyparr` of src/cstrider_api.c.
pub mod Pointers
pub mod Arrays
use mathlib.Core.Option
use c_strider.Prelude.Options.{◌>>=◌}
use c_strider.Prelude.{
  ℕ, zero, suc, ◌/◌, ◌%◌, Bool, ◌&&◌, Option, none, some, List, [], ◌∷◌, ◌++◌, ◌==◌, if◌then◌else◌,
}
use c_strider.Hash.{super_fast_hash}
use c_strider.Table.{find, add, modify}
use c_strider.Types.{TypeEntry, TypeTable, prim}

-- The `count` low bytes of a value, the lowest first.
abbrev pub bytes : ℕ → ℕ → List ℕ
bytes zero x = []
bytes (suc count) x = x % 256 ∷ bytes count (x / 256)

-- The keys that are hashed: a `typ` and a `hasharrcs`.
abbrev pub ptr_key : ℕ → List ℕ
ptr_key type = bytes 8 type

abbrev pub arr_key : ℕ → ℕ → ℕ → List ℕ
arr_key pad arrlen type = bytes 4 arrlen ++ (bytes 4 pad ++ bytes 8 type)

pub new_ptr_entry : ℕ → ℕ → TypeEntry
new_ptr_entry ptrto type = record {
  type = ptrto;
  arrlen = 0;
  arrbase = 0;
  size = 8;
  corresp_func_ptr = prim;
  target_type = type;
  pointer_to = 0;
  num_gen_args = 0;
  args = 0;
  maintype = ptrto;
  out_type = ptrto;
}

-- An entry of the hashed key serves if it is the type that is asked for; otherwise `make` is taken.
unfoldable pub reuse :
    ℕ → (TypeEntry → Bool) → TypeTable → Option (ℕ × TypeTable) → Option (ℕ × TypeTable)
reuse key fits tbl make = elim (find key tbl) [
  | none ↦ make
  | some te ↦ if fits te then some (te.type, tbl) else make
]

pub mktypptr : ℕ → TypeTable → Option (ℕ × TypeTable)
mktypptr type tbl = do
  ptrto ← super_fast_hash (some (ptr_key type)) 8
  let added = add ptrto (new_ptr_entry ptrto type) tbl
  let make =
      Option.map (λ _. (ptrto, modify type (λ e. record e { pointer_to = ptrto }) added))
        (find type added)
  reuse ptrto (λ te. te.target_type == type) tbl make

unfoldable pub mktyparr : ℕ → ℕ → ℕ → TypeTable → Option (ℕ × TypeTable)
mktyparr pad arrlen type tbl = do
  combo ← super_fast_hash (some (arr_key pad arrlen type)) 16
  let make =
      Option.map
        (λ te. (combo, add combo (record te { type = combo; arrlen = arrlen; arrbase = type }) tbl))
        (find type tbl)
  reuse combo (λ te. te.arrlen == arrlen && te.arrbase == type) tbl make
