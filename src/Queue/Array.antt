-- ===== src/Queue/Array.antt =====
-- The queue array of src/queue.c under `enqueue` and `dequeue`.
use c_strider.Prelude.{
  ℕ, zero, suc, ◌+◌, ◌%◌, ◌<◌, ◌≡◌, ◌≢◌, inl, inr, refl, ap, ◌∙◌, none, some, [], ◌∷◌, ◌++◌, arith,
  if◌then◌else◌, ◌==◌, update, total, update_self, Bool-cases, ==_iff, ==_refl, subst, sym,
}
use c_strider.Queue.{
  Queue, QueueArray, queue_size, int_mod, lowest, next_free, push, pop, enqueue, dequeue_from,
  dequeue, take_off,
}
use c_strider.Queue.IsValid.{IsValid, push-IsValid, pop-IsValid, take_off-IsValid}
use c_strider.Queue.Fifo.{contents, contents-push, contents-pop, contents-take_off, contents-nil}
use c_strider.Queue.Choice.{lowest_lem, highest_lem, next_free_in}

abbrev pub AllValid : {A : Type 0} → ℕ → QueueArray A → Type 0
AllValid n qs = (j : ℕ) → j < n → IsValid (qs j)

-- How many elements the first `n` queues hold.
abbrev pub held : {A : Type 0} → ℕ → QueueArray A → ℕ
held n qs = total (λ q. q.count) n qs

module _ {A : Type 0} where
  -- One more task in flight, counted at the home queue.
  abbrev pub charge : ℕ → QueueArray A → QueueArray A
  charge homeq qs = update qs homeq (take_off (qs homeq))

  contents-charge :
      (homeq : ℕ) (qs : QueueArray A) (j : ℕ) → contents (charge homeq qs j) ≡ contents (qs j)
  contents-charge homeq qs j = ground (arith, contents-take_off (qs j))

  inflight-charge :
      (homeq : ℕ) (qs : QueueArray A) (j : ℕ)
      → (charge homeq qs j).inflight
        ≡ (if j == homeq then ((qs j).inflight + 1) % int_mod else (qs j).inflight)
  inflight-charge homeq qs j = ground arith

  inflight-pop : (q : Queue A) → (pop q).inflight ≡ q.inflight
  unfolding pop
  inflight-pop q = refl

  inflight-update-pop :
      (qs : QueueArray A) (k j : ℕ) → (update qs k (pop (qs k)) j).inflight ≡ (qs j).inflight
  inflight-update-pop qs k j = ground (arith, inflight-pop (qs k))

  pub charge-AllValid :
      {n : ℕ} (homeq : ℕ) (qs : QueueArray A) → AllValid n qs → AllValid n (charge homeq qs)
  charge-AllValid homeq qs v j h = elim (Bool-cases (homeq == j)) [
    | inl here ↦
        subst (λ i. IsValid (charge i qs j)) (sym ((==_iff homeq j).0 here))
          (rw (==_refl j) (take_off-IsValid (v j h)))
    | inr other ↦ rw other (v j h)
  ]

module _ {A : Type 0} (n : ℕ) (qs : QueueArray A) (valid : AllValid n qs) (some_queue : 0 < n) where
  pub lowest_in : lowest qs n < n
  lowest_in = (lowest_lem qs n some_queue (λ j h. (valid j h).fits)).0

  pub dequeue_from_in : (homeq busy : ℕ) → homeq < n → dequeue_from qs n homeq busy < n
  unfolding dequeue_from
  dequeue_from_in homeq zero h = h
  dequeue_from_in homeq (suc busy) h = next_free_in n busy _ (highest_lem qs n some_queue).0

  -- The index that `enqueue` locks.
  abbrev pub target : ℕ → ℕ
  target busy = next_free n busy (lowest qs n)

  pub target_in : (busy : ℕ) → target busy < n
  target_in busy = next_free_in n busy _ lowest_in

  pub update-AllValid : (k : ℕ) {q : Queue A} → IsValid q → AllValid n (update qs k q)
  update-AllValid k {q} v j h = elim (Bool-cases (k == j)) [
    | inl here ↦ rw here v
    | inr other ↦ rw other (valid j h)
  ]

  -- While all of `n` valid queues have room, `enqueue` returns, however often a lock is busy: one
  -- queue gets the element at its end, the others are unchanged, and all stay valid.
  pub enqueue_lem :
      (x : A) (busy : ℕ)
      → ((j : ℕ) → j < n → (qs j).count < queue_size)
      → (qs' : QueueArray A) × (k : ℕ) × (enqueue qs n x busy ≡ some qs')
        × (k < n)
        × (contents (qs' k) ≡ contents (qs k) ++ (x ∷ []))
        × ((j : ℕ) → j ≢ k → qs' j ≡ qs j)
        × AllValid n qs'
  unfolding enqueue
  enqueue_lem x busy room =
      let k = target busy in
      let free : (qs k).count < queue_size = room k (target_in busy) in
      let v : IsValid (qs k) = valid k (target_in busy) in
      (
        update qs k (push (qs k) x),
        k,
        ground arith,
        target_in busy,
        rw update_self (contents-push x v free),
        (λ j h. ground arith),
        update-AllValid k (push-IsValid x free v),
      )

  -- If some of `n` valid queues has room and no lock is taken, `enqueue` does not fail.
  pub enqueue_room : (x : A) (j : ℕ) → j < n → (qs j).count < queue_size → enqueue qs n x 0 ≢ none
  unfolding enqueue next_free
  enqueue_room x j h room =
      ground (arith, (lowest_lem qs n some_queue (λ i b. (valid i b).fits)).1 j h)

  -- While the queue that it locks is not empty, `dequeue` returns the oldest task of one of the
  -- queues; the other queues keep their contents, the calling thread's home queue, and no other, has
  -- one more task in flight, and all `n` valid queues stay valid.
  pub dequeue_lem :
      (homeq busy : ℕ)
      → homeq < n
      → (qs (dequeue_from qs n homeq busy)).count ≢ 0
      → (x : A) × (qs' : QueueArray A) × (k : ℕ) × (dequeue qs n homeq busy ≡ (some x, qs'))
        × (k < n)
        × (contents (qs k) ≡ x ∷ contents (qs' k))
        × ((j : ℕ) → j ≢ k → contents (qs' j) ≡ contents (qs j))
        × ((j : ℕ)
            → (qs' j).inflight
              ≡ (if j == homeq then (((qs j).inflight + 1) % int_mod) else (qs j).inflight))
        × AllValid n qs'
  unfolding dequeue
  dequeue_lem homeq busy h ne =
      let k = dequeue_from qs n homeq busy in
      let qs1 = update qs k (pop (qs k)) in
      let kn : k < n = dequeue_from_in homeq busy h in
      (
        (qs k).content (qs k).front,
        charge homeq qs1,
        k,
        ground arith,
        kn,
        rw (contents-charge homeq qs1 k, update_self) (contents-pop (qs k) ne),
        (λ j other. rw (contents-charge homeq qs1 j) (ground arith)),
        (λ j.
            inflight-charge homeq qs1 j
            ∙ ap (λ v. if j == homeq then (v + 1) % int_mod else v) (inflight-update-pop qs k j)),
        charge-AllValid homeq qs1 (update-AllValid k (pop-IsValid ne (valid k kn))),
      )

module _ {A : Type 0} (n : ℕ) (qs : QueueArray A) where
  -- From an empty queue nothing is taken, and nothing changes.
  pub dequeue-empty :
      (homeq busy : ℕ)
      → (qs (dequeue_from qs n homeq busy)).count ≡ 0
      → dequeue qs n homeq busy ≡ (none, qs)
  unfolding dequeue
  dequeue-empty homeq busy e = ground arith

  pub dequeue-empty_home : (homeq : ℕ) → (qs homeq).count ≡ 0 → dequeue qs n homeq 0 ≡ (none, qs)
  unfolding dequeue_from
  dequeue-empty_home homeq e = dequeue-empty homeq 0 e

  pub dequeue-none :
      (homeq : ℕ) {qs' : QueueArray A}
      → dequeue qs n homeq 0 ≡ (none, qs')
      → contents (qs homeq) ≡ []
  unfolding dequeue dequeue_from
  dequeue-none homeq e = contents-nil (qs homeq) (ground arith)
