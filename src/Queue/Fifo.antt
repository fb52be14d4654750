-- ===== src/Queue/Fifo.antt =====
-- A valid queue of src/queue.c as the list of its elements, oldest first.
use c_strider.Prelude.{
  ℕ, zero, suc, ◌+◌, ◌-◌, ◌%◌, ◌<◌, ◌≡◌, ◌≢◌, sym, refl, ap, List, [], ◌∷◌, ◌++◌, update, arith,
}
use c_strider.Queue.{Queue, queue_size, init_queue, start_dequeue, push, pop, take_off}
use c_strider.Queue.IsValid.{IsValid}

module _ {A : Type 0} where
  -- The `n` elements from index `h` on, going round at QUEUESIZE.
  pub window : (ℕ → A) → ℕ → ℕ → List A
  window c h zero = []
  window c h (suc n) = c h ∷ window c ((h + 1) % queue_size) n

  pub contents : Queue A → List A
  contents q = window q.content q.front q.count

  window-update :
      (c : ℕ → A) (x : A) (n h i : ℕ)
      → h < queue_size
      → n < queue_size
      → i ≡ (h + n) % queue_size
      → window (update c i x) h (suc n) ≡ window c h n ++ (x ∷ [])
  unfolding window
  window-update c x zero h i hh hn e = ground arith
  window-update c x (suc n) h i hh hn e = ground (
    arith,
    window-update c x n ((h + 1) % queue_size) i (omega arith) (omega arith) (omega arith),
  )

  window_of_ne_zero :
      (c : ℕ → A) (h n : ℕ) → n ≢ 0 → window c h n ≡ c h ∷ window c ((h + 1) % queue_size) (n - 1)
  unfolding window
  window_of_ne_zero c h zero ne = absurd (ne refl)
  window_of_ne_zero c h (suc n) ne = ap (λ k. c h ∷ window c ((h + 1) % queue_size) k) (omega arith)

  pub contents-init_queue : (q : Queue A) → contents (init_queue q) ≡ []
  unfolding contents init_queue window
  contents-init_queue q = refl

  -- `push` puts the element at the end of a valid queue that has room.
  pub contents-push :
      {q : Queue A} (x : A)
      → IsValid q
      → q.count < queue_size
      → contents (push q x) ≡ contents q ++ (x ∷ [])
  unfolding contents push
  contents-push {q} x v h =
      let longer : q.count + 1 ≡ suc q.count = omega arith in
      rw longer (window-update q.content x q.count q.front _ v.front_in h (sym v.closed))

  -- `pop` takes away the element at `front`, the first of a queue that is not empty, and the others
  -- stay in their order.
  pub contents-pop : (q : Queue A) → q.count ≢ 0 → contents q ≡ q.content q.front ∷ contents (pop q)
  unfolding contents pop
  contents-pop q h = window_of_ne_zero q.content q.front q.count h

  -- The count of tasks in flight is no part of it.
  pub contents-take_off : (q : Queue A) → contents (take_off q) ≡ contents q
  unfolding contents
  contents-take_off q = refl

  pub contents-start_dequeue : (q : Queue A) → contents (start_dequeue q) ≡ contents q
  unfolding contents start_dequeue
  contents-start_dequeue q = refl

  pub contents-nil : (q : Queue A) → q.count ≡ 0 → contents q ≡ []
  unfolding contents window
  contents-nil q e = rw e
