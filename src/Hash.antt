-- ===== src/Hash.antt =====
-- `SuperFastHash` of src/cstrider_api.c. The key is the list of bytes from `data` on; a read past
-- the end of the list is `none`. An `int` length is its bit pattern below 2^32, and the result is a
-- `typ`: the 32-bit hash widened.
pub mod Reads
use Prim.Native.Nat.{bit_xor}
use c_strider.Prelude.Options.{◌>>=◌}
use c_strider.Prelude.{
  ℕ, zero, suc, ◌+◌, ◌-◌, ◌*◌, ◌/◌, ◌%◌, ◌^◌, Option, none, some, List, [], ◌∷◌, ltb, ◌==◌,
  if◌then◌else◌, ◌&&◌, not,
}

abbrev u32 : ℕ → ℕ
u32 x = x % 2 ^ 32

abbrev shl : ℕ → ℕ → ℕ
shl x k = u32 (x * 2 ^ k)

abbrev shr : ℕ → ℕ → ℕ
shr x k = x / 2 ^ k

abbrev get16bits : ℕ → ℕ → ℕ
get16bits b0 b1 = b1 * 256 + b0

-- `(signed char)b` as a 32-bit pattern
abbrev sign_extend : ℕ → ℕ
sign_extend b = if ltb b 128 then b else u32 (b + 2 ^ 32 - 256)

-- One round of the main loop, on four bytes.
unfoldable pub mix_word : ℕ → ℕ → ℕ → ℕ → ℕ → ℕ
mix_word hash b0 b1 b2 b3 =
    let h1 = u32 (hash + get16bits b0 b1) in
    let tmp = bit_xor (shl (get16bits b2 b3) 11) h1 in
    let h2 = bit_xor (shl h1 16) tmp in u32 (h2 + shr h2 11)

-- The main loop, with `rounds` words left: the hash and the bytes that are left.
unfoldable pub main_loop : ℕ → List ℕ → ℕ → Option (ℕ × List ℕ)
main_loop zero bytes hash = some (hash, bytes)
main_loop (suc rounds) (b0 ∷ b1 ∷ b2 ∷ b3 ∷ rest) hash =
    main_loop rounds rest (mix_word hash b0 b1 b2 b3)
main_loop (suc rounds) _ hash = none

unfoldable pub mix_three : ℕ → ℕ → ℕ → ℕ → ℕ
mix_three hash b0 b1 b2 =
    let h1 = u32 (hash + get16bits b0 b1) in
    let h2 = bit_xor h1 (shl h1 16) in
    let h3 = bit_xor h2 (shl (sign_extend b2) 18) in u32 (h3 + shr h3 11)

unfoldable pub mix_two : ℕ → ℕ → ℕ → ℕ
mix_two hash b0 b1 =
    let h1 = u32 (hash + get16bits b0 b1) in let h2 = bit_xor h1 (shl h1 11) in u32 (h2 + shr h2 17)

unfoldable pub mix_one : ℕ → ℕ → ℕ
mix_one hash b0 =
    let h1 = u32 (hash + sign_extend b0) in let h2 = bit_xor h1 (shl h1 10) in u32 (h2 + shr h2 1)

-- The `switch` on the number of bytes that are left.
unfoldable pub tail : ℕ → List ℕ → ℕ → Option ℕ
tail zero bytes hash = some hash
tail (suc zero) (b0 ∷ _) hash = some (mix_one hash b0)
tail (suc (suc zero)) (b0 ∷ b1 ∷ _) hash = some (mix_two hash b0 b1)
tail (suc (suc (suc zero))) (b0 ∷ b1 ∷ b2 ∷ _) hash = some (mix_three hash b0 b1 b2)
tail _ _ hash = none

unfoldable pub avalanche : ℕ → ℕ
avalanche h0 =
    let h1 = bit_xor h0 (shl h0 3) in
    let h2 = u32 (h1 + shr h1 5) in
    let h3 = bit_xor h2 (shl h2 4) in
    let h4 = u32 (h3 + shr h3 17) in let h5 = bit_xor h4 (shl h4 25) in u32 (h5 + shr h5 6)

unfoldable pub hash_bytes : List ℕ → ℕ → Option ℕ
unfolding main_loop mix_word mix_three mix_two mix_one tail avalanche
hash_bytes bytes len = do
  r ← main_loop (len / 4) bytes len
  h ← tail (len % 4) (r.1) (r.0)
  some (avalanche h)

-- `data` is `none` for NULL.
unfoldable pub super_fast_hash : Option (List ℕ) → ℕ → Option ℕ
unfolding hash_bytes
super_fast_hash none len = some 0
super_fast_hash (some bytes) len =
    if ltb 0 len && ltb len (2 ^ 31) then hash_bytes bytes len else some 0
