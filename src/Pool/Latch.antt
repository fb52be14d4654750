-- ===== src/Pool/Latch.antt =====
-- The global `allqdone` of src/queue.c is never cleared: what that does to a second traversal.
use c_strider.Prelude.{
  ℕ, zero, suc, ◌-◌, ◌≤◌, ◌<◌, ◌≡◌, refl, ap, ◌∙◌, true, [], ◌∷◌, ◌++◌, arith, update, update_self,
}
use c_strider.Queue.{Queue, QueueArray, queue_size, init_queue, start_dequeue, push}
use c_strider.Queue.Fifo.{contents, contents-init_queue, contents-push, contents-start_dequeue}
use c_strider.Queue.IsValid.{IsValid, init_queue-IsValid, start_dequeue-IsValid}
use c_strider.Queue.Effect.{enqueue_first}
use c_strider.Queue.Array.{dequeue-empty_home}
use c_strider.Queue.Done.{allqempty_set}
use c_strider.Pool.{
  waiting, fetching, polling, left, System, launch_helpers, root, start, miss, poll_done, Reach,
  here, next, Reach-trans, after_enqueue,
}

module _ {A : Type 0} (n : ℕ) where
  -- Thread `i` has started, found its own queue empty, and left.
  abbrev gone : System A → ℕ → System A
  gone s i = record s {
    queues = update s.queues i (start_dequeue (s.queues i));
    allqdone = true;
    pc = update (update (update s.pc i fetching) i polling) i left;
  }

  gone-Reach :
      (s : System A) (i : ℕ)
      → i < n
      → s.allqdone ≡ true
      → s.pc i ≡ waiting
      → (s.queues i).count ≡ 0
      → Reach n s (gone s i)
  unfolding start_dequeue
  gone-Reach s i h set w empty =
      let qs = update s.queues i (start_dequeue (s.queues i)) in
      let none_here : (qs i).count ≡ 0 = ground arith in
      next
        (next (next here (start i h w))
          (miss i 0 h (update_self s.pc i fetching) (dequeue-empty_home n qs i none_here)))
        (poll_done i h (update_self (update s.pc i fetching) i polling)
          (allqempty_set s.allqdone qs n set))

  count-gone : (s : System A) (i j : ℕ) → ((gone s i).queues j).count ≡ (s.queues j).count
  unfolding start_dequeue
  count-gone s i j = ground arith

  contents-gone : (s : System A) (i j : ℕ) → contents ((gone s i).queues j) ≡ contents (s.queues j)
  contents-gone s i j = ground (arith, contents-start_dequeue (s.queues j))

  -- Threads 1 to `k` have left.
  record Deserted (s t : System A) (k : ℕ) : Type 0 where
    reach : Reach n s t
    set : t.allqdone ≡ true
    out : (j : ℕ) → 0 < j → j ≤ k → t.pc j ≡ left
    first : t.pc 0 ≡ s.pc 0
    rest : (j : ℕ) → k < j → t.pc j ≡ s.pc j
    counts : (j : ℕ) → (t.queues j).count ≡ (s.queues j).count
    kept : contents (t.queues 0) ≡ contents (s.queues 0)

  Deserted-all :
      (s : System A) (k : ℕ)
      → k < n
      → s.allqdone ≡ true
      → ((j : ℕ) → 0 < j → j < n → (s.pc j ≡ waiting) × ((s.queues j).count ≡ 0))
      → (t : System A) × Deserted s t k
  Deserted-all s zero h set idle = (
    s,
    record {
      reach = here;
      set = set;
      out = λ j p b. absurd (omega arith);
      first = refl;
      rest = λ j b. refl;
      counts = λ j. refl;
      kept = refl;
    },
  )
  Deserted-all s (suc k) h set idle =
      let (t, d) = Deserted-all s k (omega arith) set idle in
      let (w, e) = idle (suc k) (omega arith) h in
      (
        gone t (suc k),
        record {
          reach = Reach-trans d.reach (
              gone-Reach t (suc k) h d.set (d.rest (suc k) (omega arith) ∙ w)
                (d.counts (suc k) ∙ e));
          set = refl;
          out = λ j p b. ground (arith, d.out j p);
          first = ground (arith, d.first);
          rest = λ j b. ground (arith, d.rest j (omega arith));
          counts = λ j. count-gone t (suc k) j ∙ d.counts j;
          kept = contents-gone t (suc k) 0 ∙ d.kept;
        },
      )

  Deserted-out :
      {s t : System A} {k : ℕ} → Deserted s t k → s.pc 0 ≡ left → (j : ℕ) → j ≤ k → t.pc j ≡ left
  Deserted-out d e zero b = d.first ∙ e
  Deserted-out d e (suc j) b = d.out (suc j) (omega arith) b

  -- Helper 0 has left before a root's task `x` goes to its queue.
  abbrev one_left : QueueArray A → System A
  one_left qs = gone (launch_helpers true qs) 0

  abbrev seeded : QueueArray A → A → System A
  seeded qs x = let s = one_left qs in after_enqueue s (update s.queues 0 (push (s.queues 0) x))

  seeded-Reach :
      (qs : QueueArray A) (x : A) → 2 ≤ n → Reach n (launch_helpers true qs) (seeded qs x)
  unfolding launch_helpers init_queue start_dequeue
  seeded-Reach qs x h = next (gone-Reach (launch_helpers true qs) 0 (omega arith) refl refl refl) (
      root (n - 1) x 0 (omega arith) (ground arith)
        (enqueue_first n (one_left qs).queues x (omega arith) refl))

  seeded_rest :
      (qs : QueueArray A) (x : A) (j : ℕ)
      → 0 < j
      → ((seeded qs x).pc j ≡ waiting) × (((seeded qs x).queues j).count ≡ 0)
  unfolding launch_helpers init_queue start_dequeue
  seeded_rest qs x j h = (ground arith, ground arith)

  contents-seeded : (qs : QueueArray A) (x : A) → contents ((seeded qs x).queues 0) ≡ x ∷ []
  unfolding launch_helpers
  contents-seeded qs x =
      let q = start_dequeue (init_queue (qs 0)) in
      let v : IsValid q = start_dequeue-IsValid (init_queue-IsValid (qs 0)) in
      let none_here : contents q ≡ [] =
        contents-start_dequeue (init_queue (qs 0)) ∙ contents-init_queue (qs 0) in
      contents-push x v (room (qs 0)) ∙ ap (λ l. l ++ x ∷ []) none_here
    where
      room : (q : Queue A) → (start_dequeue (init_queue q)).count < queue_size
      room q = unfold start_dequeue init_queue in omega arith

  -- In a traversal that begins with `allqdone` set, as every parallel traversal after the first one
  -- does, all of two or more threads can leave while a root's task is still in a queue.
  pub root_can_be_lost :
      (qs : QueueArray A) (x : A)
      → 2 ≤ n
      → (s : System A) × Reach n (launch_helpers true qs) s
        × ((j : ℕ) → j < n → s.pc j ≡ left)
        × (contents (s.queues 0) ≡ x ∷ [])
  root_can_be_lost qs x h =
      let (t, d) =
        Deserted-all (seeded qs x) (n - 1) (omega arith) refl (λ j p b. seeded_rest qs x j p) in
      (
        t,
        Reach-trans (seeded-Reach qs x h) d.reach,
        (λ j b. Deserted-out d refl j (omega arith)),
        d.kept ∙ contents-seeded qs x,
      )
