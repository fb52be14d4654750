-- ===== src/Roots.antt =====
-- The roots of a traversal in src/cstrider_api.c: the generated visits of the globals, and the
-- addresses that a program registers. HASH_ITER goes through a table in the order of insertion.
-- HASH_FIND_PTR takes the address of a key and looks for the pointer that is stored there: `mem` is
-- what the program's memory holds at an address.
pub mod Registered
use mathlib.Core.List.{reverse}
use c_strider.Prelude.{ℕ, zero, suc, ◌+◌, Option, none, some, List, [], ◌∷◌}
use c_strider.Outcome.{Outcome, done, ◌>>=◌}
use c_strider.Table.{Table, find, add, delete, iter}
use c_strider.Traversal.State.{World, Visit}

-- `visit_all_registered_hash`: the type of each registered address.
abbrev pub Registered : Type 0
Registered = Table ℕ

-- `visit_all_hash`, by the number of each generated root function.
abbrev pub Globals : Type 0
Globals = Table ℕ

-- `populate_visit_all`, with the first `n` entries of the generated array.
unfoldable pub populate_upto : (ℕ → ℕ) → ℕ → Globals → Globals
populate_upto visitalls zero t = t
populate_upto visitalls (suc n) t = add (visitalls n) n (populate_upto visitalls n t)

-- `register_root(in, t)`: the lookup passes `in` itself where the macro wants `&in`.
pub register_root : (ℕ → ℕ) → ℕ → ℕ → Registered → Registered
register_root mem input t roots = elim (find (mem input) roots) [
  | some _ ↦ roots
  | none ↦ add input t roots
]

-- `deregister_root(in)`: the lookup passes `&in`.
pub deregister_root : ℕ → Registered → Registered
deregister_root input roots = elim (find input roots) [ some _ ↦ delete input roots | none ↦ roots ]

module _ {U : Type 0} where
  -- The visits of the registered roots, each with its own address as input and output.
  unfoldable pub visit_roots : Visit U → List (ℕ × ℕ) → World U → Outcome (World U)
  visit_roots rec [] w = done w
  visit_roots rec ((key, t) ∷ rest) w = rec key t key w >>= λ w'. visit_roots rec rest w'

  -- The calls of the generated root functions.
  unfoldable pub visit_globals :
      (ℕ → World U → Outcome (World U)) → List (ℕ × ℕ) → World U → Outcome (World U)
  visit_globals run [] w = done w
  visit_globals run ((key, n) ∷ rest) w = run key w >>= λ w'. visit_globals run rest w'

  unfoldable pub visit_all :
      Visit U
      → (ℕ → World U → Outcome (World U))
      → Globals
      → Registered
      → World U
      → Outcome (World U)
  visit_all rec run globals roots w =
      visit_globals run (iter globals) w >>= λ w'. visit_roots rec (iter roots) w'
