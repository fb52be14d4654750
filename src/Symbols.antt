-- ===== src/Symbols.antt =====
-- The symbol tables of src/cstrider_api.c: the registered variables, by name and by address. A name
-- is the list of its characters, and an address is a number.
pub mod Matched
use mathlib.Core.Option
use c_strider.Prelude.{
  ℕ, Bool, true, false, ◌&&◌, Option, none, some, List, [], ◌∷◌, ◌==◌, if◌then◌else◌,
}
use c_strider.Table.{Table, find, add}

-- `hash_entry`. Nothing sets or reads `xf_fn`.
pub record HashEntry : Type 0 where
  pub name : List ℕ
  pub addr : ℕ
  pub size : ℕ
  pub auto_migrate : Bool
  pub var_name : List ℕ

-- `name_to_addr_hash` and `addr_to_name_hash`
pub record Symbols : Type 0 where
  pub by_name : List HashEntry
  pub by_addr : Table HashEntry

unfoldable pub same_name : List ℕ → List ℕ → Bool
same_name [] [] = true
same_name (c ∷ s) (d ∷ t) = c == d && same_name s t
same_name [] (d ∷ t) = false
same_name (c ∷ s) [] = false

-- HASH_FIND by `name`: what was added last under it.
unfoldable pub find_name : List ℕ → List HashEntry → Option HashEntry
find_name key [] = none
find_name key (e ∷ rest) = if same_name e.name key then some e else find_name key rest

abbrev pub new_symbol : HashEntry → Symbols → Symbols
new_symbol e s = record { by_name = e ∷ s.by_name; by_addr = add e.addr e s.by_addr }

-- `cstrider_register_key`, where `none` is a failed assertion.
pub register_key : List ℕ → ℕ → ℕ → Bool → List ℕ → Symbols → Option Symbols
register_key key var_addr size auto_migrate var_name s =
    let e : HashEntry = record {
      name = key;
      addr = var_addr;
      size = size;
      auto_migrate = auto_migrate;
      var_name = var_name;
    } in
    elim (find var_addr s.by_addr) [
      | none ↦ elim (find_name key s.by_name) [ none ↦ some (new_symbol e s) | some _ ↦ none ]
      | some _ ↦ elim (find_name key s.by_name) [ none ↦ none | some _ ↦ some s ]
    ]

-- `kitsune_register_var`
pub register_var : List ℕ → ℕ → ℕ → Bool → Symbols → Option Symbols
register_var key var_addr size auto_migrate s = register_key key var_addr size auto_migrate key s

-- `cstrider_get_symbol_addr_old`, which `cstrider_get_symbol_addr_new` and `lookup_key` call; `none`
-- is NULL.
unfoldable pub lookup_key : List ℕ → Symbols → Option ℕ
lookup_key key s = Option.map (λ e. e.addr) (find_name key s.by_name)

unfoldable pub lookup_addr : ℕ → Symbols → Option (List ℕ)
lookup_addr addr s = Option.map (λ e. e.name) (find addr s.by_addr)
