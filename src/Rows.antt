-- ===== src/Rows.antt =====
-- The part of `visit` of src/transform.c that handles a pointer that is not NULL, run by many threads
-- under the row locks of the mapping table (`transform_map_wrlock` and `transform_map_unlock` of
-- src/cstrider_api.c). `row` is the bucket that an address hashes to; a thread waits for the lock of
-- the row by taking no step. perfaction_ptr may call `visit` again, so a thread has a stack of
-- pointers that it handles. pthread_rwlock_wrlock may return EDEADLK to the thread that has the lock
-- already, which NXHASH_WRLOCK_BUCKET ignores; to unlock a row that the thread does not have is
-- undefined, and no step. The pointers are in cells that the callbacks do not overwrite, and
-- `perfaction_ptr` leaves an address in `*out`.
mod Inv
pub mod Once
pub mod Twice
use c_strider.Prelude.{
  ℕ, zero, suc, ◌+◌, ◌≡◌, ◌≢◌, Bool, true, false, List, [], ◌∷◌, ◌==◌, if◌then◌else◌, update,
}
use c_strider.Traversal.State.{World, find_mapping, add_mapping}

-- Where a thread stands with a pointer of the value `p`.
pub data Section : Type 0 where
  locked : (p : ℕ) → Section  -- after transform_map_wrlock
  calling : (p : ℕ) → Section  -- find_mapping returned NULL: in perfaction_ptr

-- A thread starts with a pointer when it handles none, or from within perfaction_ptr.
abbrev pub may_visit : List Section → Bool
may_visit [] = true
may_visit (calling p ∷ st) = true
may_visit (locked p ∷ st) = false

-- `holder` of a row is 0, or one more than the thread that has its lock. `called` has the pointers
-- that perfaction_ptr was called for; it is no part of the program.
pub record Threads (U : Type 0) : Type 0 where
  pub world : World U
  pub holder : ℕ → ℕ
  pub at : ℕ → List Section
  pub called : List ℕ

module _ {U : Type 0} where
  abbrev pub unlocked : (ℕ → ℕ) → ℕ → ℕ → List Section → World U → Threads U → Threads U
  unlocked row i p st w s = record s {
    world = w;
    holder = update s.holder (row p) 0;
    at = update s.at i st;
  }

  abbrev pub nobody_in : World U → Threads U
  nobody_in w = record { world = w; holder = λ r. 0; at = λ i. []; called = [] }

-- A step of thread `i`.
pub data Step {U : Type 0} (row : ℕ → ℕ) (s : Threads U) : Threads U → Type 0 where
  lock :
      (i p : ℕ)
      → p ≢ 0
      → may_visit (s.at i) ≡ true
      → s.holder (row p) ≡ 0
      → Step row s (record s {
        holder = update s.holder (row p) (suc i);
        at = update s.at i (locked p ∷ s.at i);
      })
  -- The lock returns EDEADLK, and the thread goes on.
  relock :
      (i p : ℕ)
      → p ≢ 0
      → may_visit (s.at i) ≡ true
      → s.holder (row p) ≡ suc i
      → Step row s (record s { at = update s.at i (locked p ∷ s.at i) })
  -- perfaction_ptr_mapped, and transform_map_unlock
  found :
      (i p : ℕ) (st : List Section)
      → s.at i ≡ locked p ∷ st
      → find_mapping p s.world ≢ 0
      → s.holder (row p) ≡ suc i
      → Step row s (unlocked row i p st s.world s)
  call :
      (i p : ℕ) (st : List Section)
      → s.at i ≡ locked p ∷ st
      → find_mapping p s.world ≡ 0
      → Step row s (record s { at = update s.at i (calling p ∷ st); called = p ∷ s.called })
  -- add_mapping, and transform_map_unlock
  map_it :
      (i p c : ℕ) (st : List Section)
      → s.at i ≡ calling p ∷ st
      → c ≢ 0
      → s.holder (row p) ≡ suc i
      → Step row s (unlocked row i p st (add_mapping p c s.world) s)
  -- Whatever does not change the mapping table.
  work : (w : World U) → w.mappings ≡ s.world.mappings → Step row s (record s { world = w })

pub data Reach {U : Type 0} (row : ℕ → ℕ) (s : Threads U) : Threads U → Type 0 where
  here : Reach row s s
  next : {t u : Threads U} → Reach row s t → Step row t u → Reach row s u

-- No thread visits, from within perfaction_ptr, a pointer of a row that it has locked.
unfoldable pub NoRelock : {U : Type 0} {row : ℕ → ℕ} {s t : Threads U} → Reach row s t → Type 0
NoRelock here = Unit
NoRelock (next r (relock i p live out mine)) = ⊥
NoRelock (next r (lock i p live out free)) = NoRelock r
NoRelock (next r (found i p st at_i mapped mine)) = NoRelock r
NoRelock (next r (call i p st at_i new)) = NoRelock r
NoRelock (next r (map_it i p c st at_i got mine)) = NoRelock r
NoRelock (next r (work w same)) = NoRelock r

unfoldable pub times : ℕ → List ℕ → ℕ
times p [] = 0
times p (q ∷ qs) = (if q == p then 1 else 0) + times p qs

-- How often a thread is in perfaction_ptr for `p`.
unfoldable pub calls : ℕ → List Section → ℕ
calls p [] = 0
calls p (locked q ∷ st) = calls p st
calls p (calling q ∷ st) = (if q == p then 1 else 0) + calls p st
