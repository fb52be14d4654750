-- ===== src/Prelude/Lists.antt =====
-- Lists measured and indexed by native numbers, and functions updated at one index.
use Prim.Native.Nat.{ℕ, zero, suc, ◌+◌, ◌<◌}
use mathlib.Core.Logic.{◌≢◌, inl, inr}
use mathlib.Core.Path.{◌≡◌, refl}
use mathlib.Core.List.{List, [], ◌∷◌, ◌++◌}
use mathlib.Core.Option.{Option, none, some}
use native.Mathlib.Omega.{arith}
use c_strider.Prelude.Tests.{◌==◌, if◌then◌else◌, Bool-cases}

module _ {ℓ} {A : Type ℓ} where
  abbrev pub length : List A → ℕ
  length [] = 0
  length (x ∷ xs) = suc (length xs)

  abbrev pub get_elem? : List A → ℕ → Option A
  get_elem? [] i = none
  get_elem? (x ∷ xs) zero = some x
  get_elem? (x ∷ xs) (suc i) = get_elem? xs i

  pub length-append : (xs ys : List A) → length (xs ++ ys) ≡ length xs + length ys
  length-append [] ys = omega arith
  length-append (x ∷ xs) ys = omega (arith, length-append xs ys)

  -- An array written at one index.
  abbrev pub update : (ℕ → A) → ℕ → A → ℕ → A
  update f i a j = if i == j then a else f j

  pub update_self : (f : ℕ → A) (i : ℕ) (a : A) → update f i a i ≡ a
  update_self f i a = ground arith

  pub update_other : (f : ℕ → A) (i j : ℕ) (a : A) → j ≢ i → update f i a j ≡ f j
  update_other f i j a h = ground arith

-- What the elements of an array below an index add up to, each measured by `size`.
module _ {ℓ} {A : Type ℓ} (size : A → ℕ) where
  abbrev pub total : ℕ → (ℕ → A) → ℕ
  total zero arr = 0
  total (suc k) arr = size (arr k) + total k arr

  pub total-zero : (k : ℕ) (arr : ℕ → A) → ((j : ℕ) → j < k → size (arr j) ≡ 0) → total k arr ≡ 0
  total-zero zero arr nothing = refl
  total-zero (suc k) arr nothing =
      let last : size (arr k) ≡ 0 = nothing k (omega arith) in
      rw (last, total-zero k arr (λ j below. nothing j (omega arith)))

  -- Only the elements below the index count.
  total_cong :
      (k : ℕ) (arr arr' : ℕ → A)
      → ((j : ℕ) → j < k → size (arr j) ≡ size (arr' j))
      → total k arr ≡ total k arr'
  total_cong zero arr arr' same = refl
  total_cong (suc k) arr arr' same =
      let below : total k arr ≡ total k arr' =
        total_cong k arr arr' (λ j b. same j (omega arith)) in
      omega (arith, same k (omega arith))

  -- A write takes the old element out of the sum and puts the new one in.
  pub total-update :
      (k : ℕ) (arr : ℕ → A) (at : ℕ) (new : A)
      → at < k
      → size new + total k arr ≡ size (arr at) + total k (update arr at new)
  total-update zero arr at new inside = absurd (omega arith)
  total-update (suc k) arr at new inside = elim (Bool-cases (at == k)) [
    | inr e ↦ ground (arith, total-update k arr at new (ground arith))
    | inl e ↦
        let rest : total k (update arr at new) ≡ total k arr =
          total_cong k (update arr at new) arr (λ j b. ground arith) in
        ground (arith, rest)
  ]
