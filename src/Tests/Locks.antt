-- ===== src/Tests/Locks.antt =====
-- Two threads at one pointer, and the shares of a small table.
use c_strider.Prelude.{
  ℕ, ◌≤◌, ◌≡◌, ◌≢◌, refl, inl, inr, arith, List, [], ◌∷◌, ◌==◌, if◌then◌else◌, update,
}
use c_strider.Table.{find}
use c_strider.Traversal.State.{find_mapping, add_mapping}
use c_strider.Rows.{
  Threads, locked, calling, nobody_in, unlocked, calls, Reach, here, next, NoRelock, lock, call,
  map_it, times,
}
use c_strider.Rows.Once.{handled_once}
use c_strider.Rows.Twice.{handled_twice}
use c_strider.Shares.{free_all}
use c_strider.Shares.Dangling.{ReadsFreed, head_read_freed}
use c_strider.Tests.Visits.{at_start}

-- All addresses are in one row.
abbrev one_row : ℕ → ℕ
one_row p = 0

-- Thread 0 locks the row for the pointer 3000, calls perfaction_ptr and maps the pointer; then thread
-- 1 locks the row.
abbrev first_in : Threads ℕ
first_in = record (nobody_in at_start) {
  holder = update (λ r. 0) 0 1;
  at = update (λ i. []) 0 (locked 3000 ∷ []);
}

abbrev first_calls : Threads ℕ
first_calls = record first_in { at = update first_in.at 0 (calling 3000 ∷ []); called = 3000 ∷ [] }

abbrev first_out : Threads ℕ
first_out = unlocked one_row 0 3000 [] (add_mapping 3000 9000 at_start) first_calls

abbrev second_in : Threads ℕ
second_in = record first_out {
  holder = update first_out.holder 0 2;
  at = update first_out.at 1 (locked 3000 ∷ []);
}

first_calls-reached : Reach one_row (nobody_in at_start) first_calls
unfolding find_mapping find
first_calls-reached =
    next (next here (lock 0 3000 (omega arith) refl refl)) (call 0 3000 [] refl refl)

second_in-reached : Reach one_row (nobody_in at_start) second_in
second_in-reached =
    next (next first_calls-reached (map_it 0 3000 9000 [] refl (omega arith) refl))
      (lock 1 3000 (omega arith) refl refl)

second_in-plain : NoRelock second_in-reached
unfolding NoRelock second_in-reached first_calls-reached
second_in-plain = tt

handled_once_example :
    (times 3000 second_in.called ≤ 1)
    × (times 3000 second_in.called ≢ 0
        → find_mapping 3000 second_in.world ≡ 0
        → (i : ℕ) × (calls 3000 (second_in.at i) ≢ 0))
    × ((q i j : ℕ)
        → one_row q ≡ one_row 3000
        → calls 3000 (second_in.at i) ≢ 0
        → calls q (second_in.at j) ≢ 0
        → j ≡ i)
handled_once_example =
    handled_once at_start second_in second_in-reached second_in-plain 3000 (omega arith)

handled_twice_example :
    (s : Threads ℕ) × Reach one_row (nobody_in at_start) s
    × (times 3000 s.called ≡ 2)
    × (calls 3000 (s.at 0) ≡ 1)
    × (calls 3000 (s.at 1) ≡ 1)
unfolding find_mapping find
handled_twice_example =
    handled_twice one_row at_start 0 1 3000 5000 9000 (omega arith) (omega arith) (omega arith)
      (omega arith) (omega arith) refl refl refl

-- Eight buckets, of which the third has two entries and the last has one.
abbrev small : ℕ → List ℕ
small i = if i == 2 then 100 ∷ 200 ∷ [] else if i == 7 then 300 ∷ [] else []

-- 200 is the first entry of the table: the thread with the buckets 2 and 3 frees it.
head_read_freed_example : ReadsFreed 200 (free_all small 8 1 4)
head_read_freed_example =
    head_read_freed small 200 2 8 1 4 (inr (inl refl)) (omega arith) (omega arith)
