-- ===== src/Update.antt =====
-- The service of examples/redis-2.0.2/update.c, which moves a program's heap to the types of its new
-- version. What Kitsune knows of the symbols of the two versions, and `malloc`, are in the record
-- Versions. A value that is no pointer is what `block` has from its address on.
pub mod Grown
use c_strider.Prelude.{
  ℕ, Bool, true, false, not, Option, none, some, List, ◌==◌, if◌then◌else◌, update,
}
use c_strider.Outcome.{Outcome, done, fault, or_fault, ◌>>=◌}
use c_strider.Types.{get_size, get_out_size}
use c_strider.Traversal.State.{World, Env, Visit, store}
use c_strider.Lifecycle.{delayedfree}

-- `copy sz from to` is what `to` holds after memcpy of `sz` bytes. A lookup of the new version that
-- returns NULL is `none`.
pub record Versions : Type 0 where
  pub lookup_addr_old : ℕ → Option (List ℕ)
  pub lookup_key_new : List ℕ → Option ℕ
  pub malloc : World (ℕ → List ℕ) → ℕ → ℕ
  pub copy : ℕ → List ℕ → List ℕ → List ℕ

abbrev pub Blocks : Type 0
Blocks = ℕ → List ℕ

module _ (host : Versions) where
  unfoldable pub update_prim : Visit Blocks → Visit Blocks
  update_prim rec input type output w = if input == output then done w else do
    sz ← or_fault (get_size w.types type)
    done (record w { user = update w.user output (host.copy sz (w.user input) (w.user output)) })

  -- Memory for the target of a pointer to what is no symbol.
  unfoldable pub update_target : ℕ → ℕ → ℕ → World Blocks → Outcome (World Blocks)
  update_target input type output w = do
    size ← or_fault (get_size w.types type)
    out_size ← or_fault (get_out_size w.types type)
    done (
        if not (size == out_size)
        then (let w1 = delayedfree (w.mem input) 0 w in store output (host.malloc w1 out_size) w1)
        else store output (w.mem input) w)

  unfoldable pub update_ptr :
      Visit Blocks → ℕ → ℕ → ℕ → World Blocks → Outcome (Bool × World Blocks)
  update_ptr rec input type output w =
      if w.mem input == 0
      then done (false, store output 0 w)
      else elim (host.lookup_addr_old (w.mem input)) [
        | some symbol ↦ elim (host.lookup_key_new symbol) [
          | none ↦ fault
          | some lookup ↦ done (false, store output lookup w)
        ]
        | none ↦ update_target input type output w >>= λ w'. done (true, w')
      ]

  abbrev pub updater : Env Blocks → Env Blocks
  updater env = record env {
    perfaction_prim = update_prim;
    perfaction_struct = λ rec input type output w. done (true, w);
    perfaction_ptr = update_ptr;
    perfaction_ptr_mapped = λ rec input type lookup w. done (lookup, w);
  }
