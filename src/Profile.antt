-- ===== src/Profile.antt =====
-- The service of examples/redis-2.0.2/profile.c, which counts the types that a traversal meets and
-- writes the counts to a file. Its hash table, one of contrib/uthash, is a Table by the type; an
-- `int` is its bit pattern below 2^32. The row lock of the table is held through `prof_add_typ`.
pub mod Counts
pub mod Written
pub mod Printer
pub mod Printed
pub mod Callbacks
pub mod ToLog
use mathlib.Core.Option
use c_strider.Prelude.{
  ℕ, zero, suc, ◌+◌, ◌-◌, ◌%◌, ◌^◌, Bool, true, false, not, Option, none, some, List, [], ◌∷◌, ◌++◌,
  ◌==◌, if◌then◌else◌,
}
use c_strider.Outcome.{Outcome, done, fault, or_fault, ◌>>=◌}
use c_strider.Table.{Table, find, add, modify, iter}
use c_strider.Types.{
  TypeTable, no_type, is_array, get_ptrtype, get_array_base_type, get_maintype, get_size,
}
use c_strider.Types.Construct.{bytes}
use c_strider.Traversal.State.{World, Env, Visit}
use c_strider.Lifecycle.{drop_oldest}

-- `type_count_entry`
pub record CountEntry : Type 0 where
  pub count : ℕ
  pub isptr : Bool
  pub size : ℕ

-- `type_counts_head`, and what has been written to `prof`.
pub record Prof : Type 0 where
  pub type_counts : Table CountEntry
  pub prof : List ℕ

abbrev pub counted_again : CountEntry → CountEntry
counted_again e = record e { count = (e.count + 1) % 2 ^ 32 }

unfoldable pub prof_add_typ : ℕ → Bool → ℕ → Prof → Prof
prof_add_typ t isptr sz p = elim (find t p.type_counts) [
  | none ↦ record p {
    type_counts = add t (record { count = 1; isptr = isptr; size = sz }) p.type_counts;
  }
  | some e ↦ record p { type_counts = modify t counted_again p.type_counts }
]

abbrev pub profwrite : ℕ → ℕ → ℕ → ℕ → Prof → Prof
profwrite c t tm sz p = record p {
  prof = p.prof ++ (bytes 4 c ++ (bytes 8 t ++ (bytes 8 tm ++ bytes 4 sz)));
}

abbrev pub profile_init : Prof → Prof
profile_init p = record p {
  type_counts = add no_type (record { count = 2 ^ 32 - 1; isptr = false; size = 0 }) p.type_counts;
}

module _ (tbl : TypeTable) where
  -- The `basetype` of an entry.
  unfoldable pub base_type : ℕ → Bool → Outcome ℕ
  base_type t isptr = do
    arr ← or_fault (is_array tbl t)
    ptrtype ← or_fault (get_ptrtype tbl t)
    or_fault (
        if isptr
        then (if arr
            then get_array_base_type tbl ptrtype
            else if not (ptrtype == no_type)
            then get_maintype tbl ptrtype
            else get_maintype tbl t)
        else if arr
        then get_array_base_type tbl t
        else get_maintype tbl t)

  -- What `profile_free` does with an entry.
  pub free_count : ℕ × CountEntry → Prof → Outcome Prof
  free_count (t, e) p =
      let rest = record p { type_counts = drop_oldest p.type_counts } in
      if t == no_type
      then done rest
      else base_type t e.isptr >>= λ basetype. done (profwrite e.count t basetype e.size rest)

  pub free_counts : List (ℕ × CountEntry) → Prof → Outcome Prof
  free_counts [] p = done p
  free_counts (e ∷ rest) p = free_count e p >>= λ p'. free_counts rest p'

  pub profile_free : Prof → Outcome Prof
  profile_free p = free_counts (iter p.type_counts) (record p { prof = [] })

abbrev pub with_prof : Prof → World Prof → World Prof
with_prof p w = record w { user = p }

pub profile_ptr : Visit Prof → ℕ → ℕ → ℕ → World Prof → Outcome (Bool × World Prof)
profile_ptr rec input type output w = done (true, with_prof (prof_add_typ type true 0 w.user) w)

pub profile_ptr_mapped : Visit Prof → ℕ → ℕ → ℕ → World Prof → Outcome (ℕ × World Prof)
profile_ptr_mapped rec input type lookup w = done (lookup, w)

pub profile_prim : Visit Prof → Visit Prof
profile_prim rec input type output w = done (with_prof (prof_add_typ type false 0 w.user) w)

pub profile_struct : Visit Prof → ℕ → ℕ → ℕ → World Prof → Outcome (Bool × World Prof)
profile_struct rec input type output w = do
  sz ← or_fault (get_size w.types type)
  done (true, with_prof (prof_add_typ type false sz w.user) w)

-- The four callbacks as a service.
abbrev pub profiler : Env Prof → Env Prof
profiler env = record env {
  perfaction_prim = profile_prim;
  perfaction_struct = profile_struct;
  perfaction_ptr = profile_ptr;
  perfaction_ptr_mapped = profile_ptr_mapped;
}
