-- ===== src/Serial/Bytes.antt =====
-- The bytes of a file, as `fwrite` and `fread` of examples/heap_serialize/serial.c see them. A read
-- past the end is `none`.
use mathlib.Core.Option
use c_strider.Prelude.{
  ℕ, zero, suc, ◌+◌, ◌*◌, ◌^◌, ◌<◌, ◌≡◌, ◌≢◌, refl, Option, none, some, List, [], ◌∷◌, ◌++◌, ◌==◌,
  if◌then◌else◌, length, arith,
}
use c_strider.Types.Construct.{bytes}

-- The number that bytes, the lowest first, stand for.
unfoldable pub from_bytes : List ℕ → ℕ
from_bytes [] = 0
from_bytes (b ∷ rest) = b + 256 * from_bytes rest

-- The first `n` bytes, and the rest.
unfoldable pub take_bytes : ℕ → List ℕ → Option (List ℕ × List ℕ)
take_bytes zero bs = some ([], bs)
take_bytes (suc n) [] = none
take_bytes (suc n) (b ∷ bs) = Option.map (λ r. (b ∷ r.0, r.1)) (take_bytes n bs)

-- The characters of a string, without the NUL that ends it; `none` if there is none in the block.
unfoldable pub c_string : List ℕ → Option (List ℕ)
c_string [] = none
c_string (c ∷ rest) = if c == 0 then some [] else Option.map (λ s. c ∷ s) (c_string rest)

abbrev pub NoNul : List ℕ → Type 0
NoNul [] = Unit
NoNul (c ∷ s) = (c ≢ 0) × NoNul s

pub from_bytes_4 : (x : ℕ) → x < 2 ^ 32 → from_bytes (bytes 4 x) ≡ x
unfolding from_bytes
from_bytes_4 x h = omega arith

pub from_bytes_8 : (x : ℕ) → x < 2 ^ 64 → from_bytes (bytes 8 x) ≡ x
unfolding from_bytes
from_bytes_8 x h = omega arith

pub take_bytes-append : (bs rest : List ℕ) → take_bytes (length bs) (bs ++ rest) ≡ some (bs, rest)
unfolding take_bytes
take_bytes-append [] rest = refl
take_bytes-append (b ∷ bs) rest = rw (take_bytes-append bs rest)

pub take_bytes_4 :
    (x : ℕ) (rest : List ℕ) → take_bytes 4 (bytes 4 x ++ rest) ≡ some (bytes 4 x, rest)
take_bytes_4 x rest = take_bytes-append (bytes 4 x) rest

pub take_bytes_8 :
    (x : ℕ) (rest : List ℕ) → take_bytes 8 (bytes 8 x ++ rest) ≡ some (bytes 8 x, rest)
take_bytes_8 x rest = take_bytes-append (bytes 8 x) rest

pub c_string-append : (s rest : List ℕ) → NoNul s → c_string (s ++ 0 ∷ rest) ≡ some s
unfolding c_string
c_string-append [] rest h = refl
c_string-append (c ∷ s) rest h = rw (c_string-append s rest h.1) (ground arith)

pub length-take_bytes :
    (n : ℕ) (bs : List ℕ) {taken left : List ℕ}
    → take_bytes n bs ≡ some (taken, left)
    → length taken ≡ n
unfolding take_bytes
length-take_bytes zero bs h = ground arith
length-take_bytes (suc n) [] h = cc
length-take_bytes (suc n) (b ∷ bs) h =
    from_tail (take_bytes n bs) (λ x y e. length-take_bytes n bs e) h
  where
    from_tail :
        (o : Option (List ℕ × List ℕ)) {taken left : List ℕ}
        → ((x y : List ℕ) → o ≡ some (x, y) → length x ≡ n)
        → Option.map {B = List ℕ × List ℕ} (λ r. (b ∷ r.0, r.1)) o ≡ some (taken, left)
        → length taken ≡ suc n
    from_tail none ih h = cc
    from_tail (some (x, y)) ih h = ground (arith, ih x y refl)

pub take_bytes_all : (bs : List ℕ) → take_bytes (length bs) bs ≡ some (bs, [])
unfolding take_bytes
take_bytes_all [] = refl
take_bytes_all (b ∷ bs) = rw (take_bytes_all bs)
