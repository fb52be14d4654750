-- ===== src/Shares/Dangling.antt =====
-- The reads that FREE_ALL_MALLOCED_ENTRIES of contrib/uthash/uthash_nxform.h makes through `head` when
-- that has been freed.
use c_strider.Prelude.{
  ℕ, zero, suc, ◌+◌, ◌-◌, ◌*◌, ◌/◌, ◌≤◌, ◌<◌, ◌≡◌, ◌⊎◌, inl, inr, refl, ap, List, [], ◌∷◌, ◌++◌,
  arith, subst,
}
use c_strider.Shares.{Event, read_head, entry, first_entry, free_chain, free_buckets, free_all}

abbrev pub Among : ℕ → List ℕ → Type 0
Among a [] = ⊥
Among a (b ∷ bs) = (b ≡ a) ⊎ Among a bs

-- Something is read through `head`.
abbrev pub Reads : List Event → Type 0
Reads [] = ⊥
Reads (e ∷ es) = (e ≡ read_head) ⊎ Reads es

-- `head` is freed, and something is read through it after.
abbrev pub ReadsFreed : ℕ → List Event → Type 0
ReadsFreed head [] = ⊥
ReadsFreed head (e ∷ es) = ((e ≡ entry head) × Reads es) ⊎ ReadsFreed head es

Reads-append : (xs ys : List Event) → Reads ys → Reads (xs ++ ys)
Reads-append [] ys h = h
Reads-append (x ∷ xs) ys h = inr (Reads-append xs ys h)

ReadsFreed-append :
    (head : ℕ) (xs ys : List Event) → ReadsFreed head ys → ReadsFreed head (xs ++ ys)
ReadsFreed-append head [] ys h = h
ReadsFreed-append head (x ∷ xs) ys h = inr (ReadsFreed-append head xs ys h)

free_chain-ReadsFreed :
    (head : ℕ) (chain : List ℕ) (later : List Event)
    → Among head chain
    → Reads later
    → ReadsFreed head (free_chain chain ++ later)
unfolding free_chain
free_chain-ReadsFreed head [] later h r = absurd h
free_chain-ReadsFreed head (out ∷ []) later (inl e) r = inl (ap entry e, r)
free_chain-ReadsFreed head (out ∷ []) later (inr h) r = absurd h
free_chain-ReadsFreed head (out ∷ next ∷ rest) later (inl e) r =
    inr (inl (ap entry e, Reads-append (free_chain (next ∷ rest)) later r))
free_chain-ReadsFreed head (out ∷ next ∷ rest) later (inr h) r =
    inr (inr (free_chain-ReadsFreed head (next ∷ rest) later h r))

module _ (buckets : ℕ → List ℕ) where
  free_buckets-Reads : (i count : ℕ) → Reads (free_buckets buckets i count)
  unfolding free_buckets
  free_buckets-Reads i zero = inl refl
  free_buckets-Reads i (suc count) = inl refl

  free_buckets-ReadsFreed :
      (head i count k : ℕ)
      → k < count
      → Among head (buckets (i + k))
      → ReadsFreed head (free_buckets buckets i count)
  unfolding free_buckets
  free_buckets-ReadsFreed head i zero k h among = elim h [ ]
  free_buckets-ReadsFreed head i (suc count) zero h among =
      let here : Among head (buckets i) = subst (λ j. Among head (buckets j)) (omega arith) among in
      inr (
        ReadsFreed-append head (first_entry (buckets i)) _
          (free_chain-ReadsFreed head (buckets i) _ here (inr (free_buckets-Reads (suc i) count))))
  free_buckets-ReadsFreed head i (suc count) (suc k) h among =
      let later =
        free_buckets-ReadsFreed head (suc i) count k (omega arith)
          (subst (λ j. Among head (buckets j)) (omega arith) among) in
      inr (
        ReadsFreed-append head (first_entry (buckets i)) _
          (ReadsFreed-append head (free_chain (buckets i)) _ (inr later)))

  -- The thread whose part of the buckets has the bucket of `head` frees `head` and reads through it
  -- afterwards, if it is the only thread as well.
  pub head_read_freed :
      (head bucket num_buckets thd_num share : ℕ)
      → Among head (buckets bucket)
      → thd_num * (num_buckets / share) ≤ bucket
      → bucket < num_buckets / share * (thd_num + 1)
      → ReadsFreed head (free_all buckets num_buckets thd_num share)
  unfolding free_all
  head_read_freed head bucket nb thd share among from to =
      let first : ℕ = thd * (nb / share) in
      let there : first + (bucket - first) ≡ bucket = omega arith in
      inr (
        free_buckets-ReadsFreed head first (nb / share * (thd + 1) - first) (bucket - first)
          (omega arith) (subst (λ j. Among head (buckets j)) (omega arith) among))
