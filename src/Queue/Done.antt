-- ===== src/Queue/Done.antt =====
-- When `allqempty` of src/queue.c reports that the traversal is done.
use c_strider.Prelude.{ℕ, zero, suc, ◌<◌, ◌≡◌, ◌↔◌, refl, ap, sym, ◌∙◌, Bool, true, false, arith}
use c_strider.Queue.{Queue, QueueArray, any_queue, unready, unfinished, allqempty}

-- A queue that has been started, with no element and no task in flight.
pub record IsIdle {A : Type 0} (q : Queue A) : Type 0 where
  pub started : q.thread_started ≡ 1
  pub empty : q.count ≡ 0
  pub settled : q.inflight ≡ 0

abbrev pub AllIdle : {A : Type 0} → ℕ → QueueArray A → Type 0
AllIdle n qs = (j : ℕ) → j < n → IsIdle (qs j)

module _ {A : Type 0} where
  any_queue-false :
      (p : Queue A → Bool) (n : ℕ) (qs : QueueArray A) (j : ℕ)
      → any_queue p n qs ≡ false
      → j < n
      → p (qs j) ≡ false
  unfolding any_queue
  any_queue-false p zero qs j h b = absurd (omega arith)
  any_queue-false p (suc n) qs j h b = ground (arith, any_queue-false p n qs j)

  any_queue_none :
      (p : Queue A → Bool) (n : ℕ) (qs : QueueArray A)
      → ((j : ℕ) → j < n → p (qs j) ≡ false)
      → any_queue p n qs ≡ false
  unfolding any_queue
  any_queue_none p zero qs h = refl
  any_queue_none p (suc n) qs h =
      ground (arith, any_queue_none p n qs (λ j b. h j (omega arith)), h n (omega arith))

  finished-IsIdle : (q : Queue A) → unfinished q ≡ false → IsIdle q
  finished-IsIdle q h = ground arith

  IsIdle-finished : {q : Queue A} → IsIdle q → (unfinished q ≡ false) × (unready q ≡ false)
  IsIdle-finished i = ground arith

  -- Unless the global `allqdone` is already set, `allqempty` returns 1 exactly when each of the
  -- `num_queues` queues has been started, is empty and has no task in flight; and it sets
  -- `allqdone` exactly when it returns 1.
  pub allqempty_lem :
      (qs : QueueArray A) (n : ℕ)
      → (((allqempty false qs n).0 ≡ true) ↔ AllIdle n qs)
        × ((allqempty false qs n).1 ≡ (allqempty false qs n).0)
  unfolding allqempty
  allqempty_lem qs n = (
    (
      (λ h j b. finished-IsIdle (qs j) (any_queue-false unfinished n qs j (ground arith) b)),
      (λ idle. ground (
        arith,
        any_queue_none unfinished n qs (λ j b. (IsIdle-finished (idle j b)).0),
        any_queue_none unready n qs (λ j b. (IsIdle-finished (idle j b)).1),
      )),
    ),
    ground arith,
  )

  -- Once `allqempty` has returned 1, every later call returns 1, whatever the queues hold.
  pub allqempty_latches :
      (allqdone : Bool) (qs qs' : QueueArray A) (n m : ℕ)
      → (allqempty allqdone qs n).0 ≡ true
      → allqempty (allqempty allqdone qs n).1 qs' m ≡ (true, true)
  unfolding allqempty
  allqempty_latches allqdone qs qs' n m h = ground arith

  -- If `allqdone` is set only in idle queues, a call keeps that so, and never clears it.
  pub allqempty-AllIdle :
      (allqdone : Bool) (qs : QueueArray A) (n : ℕ) {r d : Bool}
      → (allqdone ≡ true → AllIdle n qs)
      → allqempty allqdone qs n ≡ (r, d)
      → (d ≡ true → AllIdle n qs) × (allqdone ≡ true → d ≡ true) × (r ≡ true → d ≡ true)
  unfolding allqempty
  allqempty-AllIdle true qs n idle e = ((λ _. idle refl), (λ _. cc), (λ _. cc))
  allqempty-AllIdle false qs n {r} {d} idle e =
      let returned : (allqempty false qs n).0 ≡ r = ap (λ (p : Bool × Bool). p.0) e in
      let stored : (allqempty false qs n).1 ≡ d = ap (λ (p : Bool × Bool). p.1) e in
      let agree : (allqempty false qs n).1 ≡ (allqempty false qs n).0 = (allqempty_lem qs n).1 in
      (
        (λ set. ((allqempty_lem qs n).0).0 (sym agree ∙ stored ∙ set)),
        (λ set. cc),
        (λ one. sym stored ∙ agree ∙ returned ∙ one),
      )

  pub allqempty_set :
      (allqdone : Bool) (qs : QueueArray A) (n : ℕ)
      → allqdone ≡ true
      → allqempty allqdone qs n ≡ (true, true)
  unfolding allqempty
  allqempty_set allqdone qs n h = ground arith
