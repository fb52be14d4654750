-- ===== src/Shares.antt =====
-- FREE_ALL_MALLOCED_ENTRIES of contrib/uthash/uthash_nxform.h, which `processqueue` of src/transform.c
-- ends with: each of `share` threads frees the entries of its part of the buckets. A bucket is the
-- list of the entries that are chained in it. What is modelled is the sequence of what is freed and
-- of the reads through `head`, the first entry of the table, which has the address of the buckets.
pub mod Tiling
pub mod Dangling
use c_strider.Prelude.{
  ℕ, zero, suc, ◌+◌, ◌-◌, ◌*◌, ◌/◌, Bool, List, [], ◌∷◌, ◌++◌, ◌==◌, if◌then◌else◌,
}
use c_strider.Outcome.{Outcome, done, fault}
use c_strider.Traversal.State.{num_threads}

-- A read of `head->hh.tbl`, and what is given to `free`.
pub data Event : Type 0 where
  read_head : Event
  entry : (addr : ℕ) → Event
  mutex : (bucket : ℕ) → Event

-- NXHASH_INITIAL_NUM_BUCKETS. A table of this kind does not grow.
abbrev pub initial_num_buckets : ℕ
initial_num_buckets = 32768

-- The inner loop.
unfoldable pub free_chain : List ℕ → List Event
free_chain [] = []
free_chain (out ∷ []) = entry out ∷ []
free_chain (out ∷ next ∷ rest) = read_head ∷ entry out ∷ free_chain (next ∷ rest)

-- The `if` before the inner loop: whether there is a first entry, and which.
abbrev pub first_entry : List ℕ → List Event
first_entry [] = read_head ∷ []
first_entry (out ∷ rest) = read_head ∷ read_head ∷ read_head ∷ []

-- The outer loop, with `count` buckets left, from `i` on.
unfoldable pub free_buckets : (ℕ → List ℕ) → ℕ → ℕ → List Event
free_buckets buckets i zero = read_head ∷ []
free_buckets buckets i (suc count) =
    read_head
    ∷ (first_entry (buckets i)
        ++ (free_chain (buckets i) ++ (mutex i ∷ free_buckets buckets (suc i) count)))

unfoldable pub free_all : (ℕ → List ℕ) → ℕ → ℕ → ℕ → List Event
free_all buckets num_buckets thd_num share =
    let first = thd_num * (num_buckets / share) in
    read_head ∷ free_buckets buckets first (num_buckets / share * (thd_num + 1) - first)

-- The end of `processqueue`. A read through a `head` that is NULL is a fault.
pub free_share : Bool → ℕ → (ℕ → List ℕ) → ℕ → Outcome (List Event)
free_share is_parallel head buckets home_queue =
    if is_parallel
    then (if head == 0
        then fault
        else done (free_all buckets initial_num_buckets home_queue num_threads))
    else if head == 0
    then done []
    else done (free_all buckets initial_num_buckets 0 1)

-- The threads below `n`, one after the other.
unfoldable pub by_threads : (ℕ → List ℕ) → ℕ → ℕ → ℕ → List Event
by_threads buckets num_buckets share zero = []
by_threads buckets num_buckets share (suc n) =
    by_threads buckets num_buckets share n ++ free_all buckets num_buckets n share

-- What is freed.
abbrev pub frees : List Event → List Event
frees [] = []
frees (read_head ∷ es) = frees es
frees (entry addr ∷ es) = entry addr ∷ frees es
frees (mutex bucket ∷ es) = mutex bucket ∷ frees es
