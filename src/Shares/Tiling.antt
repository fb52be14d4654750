-- ===== src/Shares/Tiling.antt =====
-- The parts that FREE_ALL_MALLOCED_ENTRIES of contrib/uthash/uthash_nxform.h gives the threads.
use c_strider.Prelude.{ℕ, zero, suc, List, [], ◌∷◌, ◌++◌}
use c_strider.Shares.{Event, entry, mutex}

-- All of some entries.
abbrev pub entries : List ℕ → List Event
entries [] = []
entries (a ∷ chain) = entry a ∷ entries chain

-- The entries and the lock of each bucket from `i` on.
abbrev pub emptied : (ℕ → List ℕ) → ℕ → ℕ → List Event
emptied buckets i zero = []
emptied buckets i (suc count) = entries (buckets i) ++ (mutex i ∷ emptied buckets (suc i) count)
