-- ===== src/Table.antt =====
-- A hash table by its keys, as the clients of contrib/uthash see it: `add` puts an entry in front of
-- those of the same key, and `find` returns the first. The application order, in which HASH_ITER
-- goes, is the order of insertion.
use c_strider.Prelude.{ℕ, ◌≡◌, refl, Option, none, some, List, [], ◌∷◌, ◌==◌, if◌then◌else◌, arith}
use mathlib.Core.List.{reverse}
use mathlib.Core.Option

abbrev pub Table : Type 0 → Type 0
Table V = List (ℕ × V)

module _ {V : Type 0} where
  unfoldable pub find : ℕ → Table V → Option V
  find k [] = none
  find k ((j, v) ∷ t) = if j == k then some v else find k t

  abbrev pub add : ℕ → V → Table V → Table V
  add k v t = (k, v) ∷ t

  -- A write through the pointer that `find` returns.
  unfoldable pub modify : ℕ → (V → V) → Table V → Table V
  modify k f [] = []
  modify k f ((j, v) ∷ t) = if j == k then (j, f v) ∷ t else (j, v) ∷ modify k f t

  -- The entry that `find` returns, taken out.
  unfoldable pub delete : ℕ → Table V → Table V
  delete k [] = []
  delete k ((j, v) ∷ t) = if j == k then t else (j, v) ∷ delete k t

  abbrev pub iter : Table V → List (ℕ × V)
  iter = reverse

  pub find-add :
      (k j : ℕ) (v : V) (t : Table V) → find j (add k v t) ≡ (if k == j then some v else find j t)
  unfolding find
  find-add k j v t = refl

  pub find-modify :
      (k j : ℕ) (f : V → V) (t : Table V)
      → find j (modify k f t) ≡ (if k == j then Option.map f (find j t) else find j t)
  unfolding find modify
  find-modify k j f [] = ground arith
  find-modify k j f ((i, v) ∷ t) = ground (arith, find-modify k j f t)

  -- Each key stands once.
  abbrev pub Distinct : Table V → Type 0
  Distinct [] = Unit
  Distinct ((k, v) ∷ t) = (find k t ≡ none) × Distinct t

  pub find-delete :
      (k j : ℕ) (t : Table V)
      → Distinct t
      → find j (delete k t) ≡ (if k == j then none else find j t)
  unfolding find delete
  find-delete k j [] d = ground arith
  find-delete k j ((i, v) ∷ t) d = ground (arith, find-delete k j t d.1, d.0)

  pub delete-Distinct : (k : ℕ) (t : Table V) → Distinct t → Distinct (delete k t)
  unfolding delete
  delete-Distinct k [] d = tt
  delete-Distinct k ((i, v) ∷ t) d =
      ground (arith, find-delete k i t d.1, delete-Distinct k t d.1, d.0)
