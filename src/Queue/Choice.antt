-- ===== src/Queue/Choice.antt =====
-- Which queue src/queue.c works on: the emptiest, the fullest, and the search for a free one.
use c_strider.Prelude.{ℕ, zero, suc, ◌+◌, ◌-◌, ◌%◌, ◌≤◌, ◌<◌, ◌≡◌, refl, arith, if◌then◌else◌, leb}
use native.Mathlib.Nat.{mod-eq_of_lt, mod-add-mod, mod-eq-sub-mod}
use c_strider.Queue.{QueueArray, queue_size, lowest_from, lowest, highest_from, highest, next_free}

module _ {A : Type 0} (qs : QueueArray A) where
  -- The result of a loop is its start value or one of the indices that it looked at.
  lowest_from_in : (k i lq lc n : ℕ) → lq < n → i + k ≤ n → lowest_from qs k i lq lc < n
  unfolding lowest_from
  lowest_from_in zero i lq lc n h b = h
  lowest_from_in (suc k) i lq lc n h b = lowest_from_in k (i + 1) _ _ n (ground arith) (omega arith)

  lowest_from_le : (k i lq lc : ℕ) → (qs lq).count ≤ lc → (qs (lowest_from qs k i lq lc)).count ≤ lc
  unfolding lowest_from
  lowest_from_le zero i lq lc h = h
  lowest_from_le (suc k) i lq lc h =
      ground (arith, lowest_from_le k (i + 1) i (qs i).count, lowest_from_le k (i + 1) lq lc)

  lowest_from_least :
      (k i lq lc : ℕ)
      → (qs lq).count ≤ lc
      → (j : ℕ) → i ≤ j
      → j < i + k
      → (qs (lowest_from qs k i lq lc)).count ≤ (qs j).count
  unfolding lowest_from
  lowest_from_least zero i lq lc h j b e = absurd (omega arith)
  lowest_from_least (suc k) i lq lc h j b e = ground (
    arith,
    lowest_from_le k (i + 1) i (qs i).count,
    lowest_from_le k (i + 1) lq lc,
    lowest_from_least k (i + 1) i (qs i).count (omega arith) j,
    lowest_from_least k (i + 1) lq lc h j,
  )

  -- Of `n` queues, at least one and none over QUEUESIZE, `lowest` returns the index of one that
  -- holds at most as many elements as every other.
  pub lowest_lem :
      (n : ℕ)
      → 0 < n
      → ((j : ℕ) → j < n → (qs j).count ≤ queue_size)
      → (lowest qs n < n) × ((j : ℕ) → j < n → (qs (lowest qs n)).count ≤ (qs j).count)
  unfolding lowest
  lowest_lem n h b = (
    lowest_from_in n 0 0 queue_size n h (omega arith),
    λ j e. lowest_from_least n 0 0 queue_size (b 0 h) j (omega arith) (omega arith),
  )

  lowest_from_stays : (k i lq : ℕ) → lowest_from qs k i lq 0 ≡ lq
  unfolding lowest_from
  lowest_from_stays zero i lq = refl
  lowest_from_stays (suc k) i lq = ground (arith, lowest_from_stays k (i + 1) lq)

  -- An empty queue 0 is taken first.
  pub lowest_first : (n : ℕ) → 0 < n → (qs 0).count ≡ 0 → lowest qs n ≡ 0
  unfolding lowest lowest_from
  lowest_first zero h e = absurd (omega arith)
  lowest_first (suc n) h e = ground (arith, lowest_from_stays n 1 0)

  highest_from_in : (k i hq hc n : ℕ) → hq < n → i + k ≤ n → highest_from qs k i hq hc < n
  unfolding highest_from
  highest_from_in zero i hq hc n h b = h
  highest_from_in (suc k) i hq hc n h b =
      highest_from_in k (i + 1) _ _ n (ground arith) (omega arith)

  highest_from_ge :
      (k i hq hc : ℕ) → hc ≤ (qs hq).count → hc ≤ (qs (highest_from qs k i hq hc)).count
  unfolding highest_from
  highest_from_ge zero i hq hc h = h
  highest_from_ge (suc k) i hq hc h =
      ground (arith, highest_from_ge k (i + 1) i (qs i).count, highest_from_ge k (i + 1) hq hc)

  highest_from_greatest :
      (k i hq hc : ℕ)
      → hc ≤ (qs hq).count
      → (j : ℕ) → i ≤ j
      → j < i + k
      → (qs j).count ≤ (qs (highest_from qs k i hq hc)).count
  unfolding highest_from
  highest_from_greatest zero i hq hc h j b e = absurd (omega arith)
  highest_from_greatest (suc k) i hq hc h j b e = ground (
    arith,
    highest_from_ge k (i + 1) i (qs i).count,
    highest_from_ge k (i + 1) hq hc,
    highest_from_greatest k (i + 1) i (qs i).count (omega arith) j,
    highest_from_greatest k (i + 1) hq hc h j,
  )

  -- Of `n` queues, at least one, `highest` returns the index of one that holds at least as many
  -- elements as every other.
  pub highest_lem :
      (n : ℕ)
      → 0 < n
      → (highest qs n < n) × ((j : ℕ) → j < n → (qs j).count ≤ (qs (highest qs n)).count)
  unfolding highest
  highest_lem n h = (
    highest_from_in n 0 0 0 n h (omega arith),
    λ j e. highest_from_greatest n 0 0 0 (omega arith) j (omega arith) (omega arith),
  )

next_free-eq : (n busy q : ℕ) → q < n → next_free n busy q ≡ (q + busy) % n
unfolding next_free
next_free-eq n zero q h = grind (arith, mod-eq_of_lt)
next_free-eq n (suc busy) q h =
    ground (arith, next_free-eq n busy ((q + 1) % n), mod-add-mod (q + 1) n busy)

pub next_free_in : (n busy q : ℕ) → q < n → next_free n busy q < n
next_free_in n busy q h = omega (arith, next_free-eq n busy q h)

-- How many failures after `q` the search is at `j`.
abbrev pub distance : ℕ → ℕ → ℕ → ℕ
distance n q j = if leb q j then j - q else n - q + j

-- From any of `n` queues the search tries every queue within its first `n` attempts: so it ends if
-- one queue stays free.
pub next_free_reaches :
    (n q j : ℕ) → q < n → j < n → (distance n q j < n) × (next_free n (distance n q j) q ≡ j)
next_free_reaches n q j h e = ground (
  arith,
  next_free-eq n (distance n q j) q h,
  mod-eq_of_lt {n = j} {m = n} e,
  mod-eq-sub-mod {n = q + distance n q j} {m = n},
)
