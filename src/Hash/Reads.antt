-- ===== src/Hash/Reads.antt =====
-- What `SuperFastHash` of src/cstrider_api.c reads and returns.
use c_strider.Prelude.{
  ℕ, zero, suc, ◌+◌, ◌*◌, ◌/◌, ◌%◌, ◌^◌, ◌≤◌, ◌<◌, ◌≡◌, refl, some, List, [], ◌∷◌, ◌++◌, length,
  arith, lt→ltb, ◌∙◌,
}
use c_strider.Hash.{main_loop, mix_word, tail, avalanche, hash_bytes, super_fast_hash}

-- A loop over `xs` leaves the same when more bytes follow, and they stay unread.
record Runs (rounds : ℕ) (xs ys : List ℕ) (hash : ℕ) : Type 0 where
  end : ℕ
  rest : List ℕ
  alone : main_loop rounds xs hash ≡ some (end, rest)
  within : main_loop rounds (xs ++ ys) hash ≡ some (end, rest ++ ys)
  unread : length rest + rounds * 4 ≡ length xs

main_loop-Runs :
    (rounds : ℕ) (xs ys : List ℕ) (hash : ℕ) → rounds * 4 ≤ length xs → Runs rounds xs ys hash
unfolding main_loop
main_loop-Runs zero xs ys hash h = record {
  end = hash;
  rest = xs;
  alone = refl;
  within = refl;
  unread = omega arith;
}
main_loop-Runs (suc k) (b0 ∷ b1 ∷ b2 ∷ b3 ∷ xs) ys hash h =
    let r = main_loop-Runs k xs ys (mix_word hash b0 b1 b2 b3) (omega arith) in
    record {
      end = r.end;
      rest = r.rest;
      alone = r.alone;
      within = r.within;
      unread = omega (arith, r.unread);
    }
main_loop-Runs (suc k) [] ys hash h = absurd (omega arith)
main_loop-Runs (suc k) (a ∷ []) ys hash h = absurd (omega arith)
main_loop-Runs (suc k) (a ∷ b ∷ []) ys hash h = absurd (omega arith)
main_loop-Runs (suc k) (a ∷ b ∷ c ∷ []) ys hash h = absurd (omega arith)

tail_within :
    (rem : ℕ) (xs ys : List ℕ) (hash : ℕ)
    → rem < 4
    → rem ≤ length xs
    → (h : ℕ) × (tail rem xs hash ≡ some h) × (tail rem (xs ++ ys) hash ≡ some h)
unfolding tail
tail_within zero xs ys hash b h = (hash, refl, refl)
tail_within (suc zero) (a ∷ xs) ys hash b h = (_, refl, refl)
tail_within (suc (suc zero)) (a ∷ c ∷ xs) ys hash b h = (_, refl, refl)
tail_within (suc (suc (suc zero))) (a ∷ c ∷ d ∷ xs) ys hash b h = (_, refl, refl)
tail_within (suc (suc (suc (suc k)))) xs ys hash b h = absurd (omega arith)
tail_within (suc zero) [] ys hash b h = absurd (omega arith)
tail_within (suc (suc zero)) [] ys hash b h = absurd (omega arith)
tail_within (suc (suc zero)) (a ∷ []) ys hash b h = absurd (omega arith)
tail_within (suc (suc (suc zero))) [] ys hash b h = absurd (omega arith)
tail_within (suc (suc (suc zero))) (a ∷ []) ys hash b h = absurd (omega arith)
tail_within (suc (suc (suc zero))) (a ∷ c ∷ []) ys hash b h = absurd (omega arith)

avalanche_lt : (h : ℕ) → avalanche h < 2 ^ 32
unfolding avalanche
avalanche_lt h = omega arith

hash_bytes_lem :
    (xs : List ℕ) (len hash end : ℕ) {left : List ℕ}
    → main_loop (len / 4) xs len ≡ some (hash, left)
    → tail (len % 4) left hash ≡ some end
    → hash_bytes xs len ≡ some (avalanche end)
unfolding hash_bytes
hash_bytes_lem xs len hash end e f = rw (e, f)

in_range :
    (bytes : List ℕ) (len : ℕ)
    → 0 < len
    → len < 2 ^ 31
    → super_fast_hash (some bytes) len ≡ hash_bytes bytes len
unfolding super_fast_hash
in_range bytes len pos small = rw (lt→ltb 0 len pos, lt→ltb len (2 ^ 31) small)

-- On a key of `len` bytes, `len` a positive `int`, `SuperFastHash` reads no byte behind the key,
-- whatever follows it there, and returns a value below 2^32.
pub super_fast_hash_lem :
    (key rest : List ℕ)
    → 0 < length key
    → length key < 2 ^ 31
    → (h : ℕ) × (super_fast_hash (some key) (length key) ≡ some h)
      × (super_fast_hash (some (key ++ rest)) (length key) ≡ some h)
      × (h < 2 ^ 32)
super_fast_hash_lem key rest pos small =
    let len = length key in
    let r = main_loop-Runs (len / 4) key rest len (omega arith) in
    let (h, alone, within) =
      tail_within (len % 4) r.rest rest r.end (omega arith) (omega (arith, r.unread)) in
    (
      avalanche h,
      in_range key len pos small ∙ hash_bytes_lem key len r.end h r.alone alone,
      in_range (key ++ rest) len pos small
          ∙ hash_bytes_lem (key ++ rest) len r.end h r.within within,
      avalanche_lt h,
    )
