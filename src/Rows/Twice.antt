-- ===== src/Rows/Twice.antt =====
-- What the row locks do not prevent in `visit` of src/transform.c, when `perfaction_ptr` visits a
-- pointer itself.
use c_strider.Prelude.{ℕ, suc, ◌≡◌, ◌≢◌, refl, ◌∙◌, [], ◌∷◌, update, arith}
use c_strider.Traversal.State.{World, find_mapping, add_mapping}
use c_strider.Traversal.Mappings.{find_mapping-add_mapping_other}
use c_strider.Rows.{
  Threads, locked, calling, nobody_in, unlocked, Reach, here, next, lock, relock, call, map_it,
  times, calls,
}

module _ {U : Type 0} (row : ℕ → ℕ) (w : World U) (i j p q c : ℕ) where
  abbrev first_in : Threads U
  first_in = record (nobody_in w) {
    holder = update (λ r. 0) (row p) (suc i);
    at = update (λ k. []) i (locked p ∷ []);
  }

  abbrev first_calls : Threads U
  first_calls = record first_in { at = update first_in.at i (calling p ∷ []); called = p ∷ [] }

  abbrev nested_in : Threads U
  nested_in = record first_calls { at = update first_calls.at i (locked q ∷ first_calls.at i) }

  abbrev nested_calls : Threads U
  nested_calls = record nested_in {
    at = update nested_in.at i (calling q ∷ calling p ∷ []);
    called = q ∷ p ∷ [];
  }

  abbrev nested_out : Threads U
  nested_out = unlocked row i q (calling p ∷ []) (add_mapping q c w) nested_calls

  abbrev second_in : Threads U
  second_in = record nested_out {
    holder = update nested_out.holder (row p) (suc j);
    at = update nested_out.at j (locked p ∷ nested_out.at j);
  }

  abbrev second_calls : Threads U
  second_calls = record second_in {
    at = update second_in.at j (calling p ∷ []);
    called = p ∷ q ∷ p ∷ [];
  }

  -- Two pointers of one row, neither of them mapped. While a thread `i` is in `perfaction_ptr` for
  -- `p`, that visits a pointer `q`; where the lock of the row returns EDEADLK, the visit goes on,
  -- and its unlock gives the row free. Then another thread `j` can lock the row, finds `p` not
  -- mapped, and `perfaction_ptr` is called for `p` a second time while the first call still runs.
  pub handled_twice :
      i ≢ j
      → p ≢ 0
      → q ≢ 0
      → q ≢ p
      → c ≢ 0
      → row q ≡ row p
      → find_mapping p w ≡ 0
      → find_mapping q w ≡ 0
      → (s : Threads U) × Reach row (nobody_in w) s
        × (times p s.called ≡ 2)
        × (calls p (s.at i) ≡ 1)
        × (calls p (s.at j) ≡ 1)
  unfolding times calls
  handled_twice apart live live' other got same new new' = (
    second_calls,
    next
        (next
          (next
            (next
              (next (next (next here (lock i p live refl refl)) (call i p [] (ground arith) new))
                (relock i q live' (ground arith) (ground arith)))
              (call i q (calling p ∷ []) (ground arith) new'))
            (map_it i q c (calling p ∷ []) (ground arith) got (ground arith)))
          (lock j p live (ground arith) (ground arith)))
        (call j p [] (ground arith)
          (find_mapping-add_mapping_other p q c w (λ e. ground arith) ∙ new)),
    ground arith,
    ground arith,
    ground arith,
  )
