-- ===== src/Profile/ToLog.antt =====
-- The service of examples/redis-2.0.2/profile_tolog.c, which writes a record for each call. The file is
-- the list of its bytes.
use c_strider.Prelude.{ℕ, ◌≡◌, Bool, true, false, List, [], ◌++◌, ◌==◌, some, if◌then◌else◌, arith}
use c_strider.Outcome.{Outcome, done, or_fault, ◌>>=◌}
use c_strider.Table.{find}
use c_strider.Types.{TypeEntry, no_type, get_ptrtype, get_maintype, get_ptrtype-known}
use c_strider.Types.Construct.{bytes}
use c_strider.Traversal.{memoized_is_ptr, memoized_is_array, visit_entry, visit_struct}
use c_strider.Traversal.State.{World, Env, Visit, addtoqueue}

-- ptr_wmain, ptr, prim, struct_wmain and structtype
abbrev pub ptr_wmain : ℕ
ptr_wmain = 1

abbrev pub ptr : ℕ
ptr = 2

abbrev pub prim_kind : ℕ
prim_kind = 3

abbrev pub struct_wmain : ℕ
struct_wmain = 4

abbrev pub structtype : ℕ
structtype = 5

abbrev pub Log : Type 0
Log = List ℕ

abbrev pub profwrite : ℕ → ℕ → ℕ → World Log → World Log
profwrite c t tm w = record w { user = w.user ++ (bytes 4 c ++ (bytes 8 t ++ bytes 8 tm)) }

-- `fopen` of a file to write
abbrev pub profile_init : World Log → World Log
profile_init w = record w { user = [] }

pub profile_ptr : Visit Log → ℕ → ℕ → ℕ → World Log → Outcome (Bool × World Log)
profile_ptr rec input type output w = do
  target ← or_fault (get_ptrtype w.types type)
  if target == no_type then done (true, profwrite ptr type type w) else do
    ptrtype ← or_fault (get_maintype w.types target)
    done (true, profwrite ptr_wmain type ptrtype w)

pub profile_ptr_mapped : Visit Log → ℕ → ℕ → ℕ → World Log → Outcome (ℕ × World Log)
profile_ptr_mapped rec input type lookup w = done (lookup, w)

pub profile_prim : Visit Log → Visit Log
profile_prim rec input type output w = done (profwrite prim_kind type type w)

pub profile_struct : Visit Log → ℕ → ℕ → ℕ → World Log → Outcome (Bool × World Log)
profile_struct rec input type output w = do
  target ← or_fault (get_ptrtype w.types type)
  if target == no_type then done (true, profwrite structtype type type w) else do
    ptrtype ← or_fault (get_maintype w.types type)
    done (true, profwrite struct_wmain type ptrtype w)

-- The four callbacks as a service.
abbrev pub logger : Env Log → Env Log
logger env = record env {
  perfaction_prim = profile_prim;
  perfaction_struct = profile_struct;
  perfaction_ptr = profile_ptr;
  perfaction_ptr_mapped = profile_ptr_mapped;
}

-- The traversal calls profile_struct only for a type that has no target, so that the record always
-- is one of the kind `structtype`: the main type of a generic struct is never written.
pub visit_entry-logged :
    (env : Env Log) (rec : Visit Log) (te : TypeEntry) (input type output : ℕ) (w : World Log)
    → find type w.types ≡ some te
    → memoized_is_ptr te ≡ false
    → memoized_is_array te ≡ false
    → visit_entry (logger env) rec te input type output w
      ≡ addtoqueue (logger env) input type output false (profwrite structtype type type w)
unfolding visit_entry visit_struct profile_struct
visit_entry-logged env rec te input type output w found no_ptr no_array =
    let last : (te.target_type == no_type) ≡ true = ground (arith, no_ptr, no_array) in
    rw (no_ptr, no_array, get_ptrtype-known w.types type found, last)
