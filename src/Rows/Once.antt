-- ===== src/Rows/Once.antt =====
-- Under the row locks `perfaction_ptr` handles a pointer once, in `visit` of src/transform.c, where no
-- thread locks a row that it has already.
use c_strider.Prelude.{ℕ, suc, ◌≤◌, ◌≡◌, ◌≢◌, arith}
use c_strider.Traversal.State.{World, find_mapping}
use c_strider.Rows.{Threads, nobody_in, Reach, NoRelock, times, calls}
use c_strider.Rows.Inv.{Inv, calls-le-in_row, Reach-Inv}

-- However the threads of a parallel traversal take turns, if no thread visits, from within
-- `perfaction_ptr`, a pointer of a row that it has locked already, `perfaction_ptr` is called at most
-- once for the pointers of one value, NULL apart; a pointer that it has been called for is mapped, or
-- a thread is still in the call; and no two threads are in `perfaction_ptr` for pointers of one row.
-- The cells are not overwritten by callbacks, and `perfaction_ptr` leaves an address.
pub handled_once :
    {U : Type 0} {row : ℕ → ℕ} (w : World U) (s : Threads U) (r : Reach row (nobody_in w) s)
    → NoRelock r
    → (p : ℕ) → p ≢ 0
    → (times p s.called ≤ 1)
      × (times p s.called ≢ 0 → find_mapping p s.world ≡ 0 → (i : ℕ) × (calls p (s.at i) ≢ 0))
      × ((q i j : ℕ) → row q ≡ row p → calls p (s.at i) ≢ 0 → calls q (s.at j) ≢ 0 → j ≡ i)
handled_once {row = row} w s r plain p live =
    let inv : Inv row s = Reach-Inv w r plain in
    (
      inv.once p,
      inv.met p live,
      λ q i j same here there.
          let mine : s.holder (row p) ≡ suc i =
            inv.owned i (row p) (ground (arith, calls-le-in_row row p (s.at i))) in
          let other : s.holder (row q) ≡ suc j =
            inv.owned j (row q) (ground (arith, calls-le-in_row row q (s.at j))) in
          ground (arith, mine, other, same),
    )
