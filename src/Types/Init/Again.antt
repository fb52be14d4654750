-- ===== src/Types/Init/Again.antt =====
-- `cstrider_type_init` of src/cstrider_api.c in a second traversal: it begins with the array
-- `ptsto_type_array` that the first one has written.
use native.Mathlib.Decide.{dec_lt}
use c_strider.Prelude.{
  ℕ, zero, suc, ◌≤◌, ◌<◌, ◌≡◌, ◌≢◌, refl, ap, sym, ◌∙◌, inl, inr, some, [], ◌==◌, Bool-cases,
  Option-cases, arith,
}
use c_strider.Table.{find}
use c_strider.Types.{TypeTable, Generated, no_type}
use c_strider.Types.Init.{
  initial_entry, note_pointer, init_one, init_upto, type_init, last_pointer, type_init_lem,
}

module _ (g : Generated) where
  note_pointer_elsewhere :
      (target i k : ℕ) (s : TypeTable × (ℕ → ℕ))
      → target ≢ k
      → (note_pointer g target i s).1 k ≡ s.1 k
  unfolding note_pointer
  note_pointer_elsewhere target i k (tbl, notes) ne = elim (Option-cases (find target tbl)) [
    | inl e ↦ rw (note_pointer, e) (ground arith)
    | inr (to, e) ↦ rw (note_pointer, e)
  ]

  init_one_elsewhere :
      (n k : ℕ) (s : TypeTable × (ℕ → ℕ)) → g.target_type_array n ≢ k → (init_one g n s).1 k ≡ s.1 k
  unfolding init_one
  init_one_elsewhere n k (tbl, notes) ne = elim (Bool-cases (g.target_type_array n == no_type)) [
    | inl e ↦ rw e
    | inr e ↦ rw e (note_pointer_elsewhere (g.target_type_array n) n k _ ne)
  ]

  -- What no type points to keeps its note.
  init_upto_elsewhere :
      (n k : ℕ) (s : TypeTable × (ℕ → ℕ))
      → ((j : ℕ) → j < n → g.target_type_array j ≢ k)
      → (init_upto g n s).1 k ≡ s.1 k
  unfolding init_upto
  init_upto_elsewhere zero k s none_points = refl
  init_upto_elsewhere (suc n) k s none_points =
      init_one_elsewhere n k (init_upto g n s) (none_points n (omega arith))
      ∙ init_upto_elsewhere n k s (λ j h. none_points j (omega arith))

  last_pointer_cong :
      (p p' : ℕ → ℕ) (n k : ℕ)
      → (((j : ℕ) → j < n → g.target_type_array j ≢ k) → p k ≡ p' k)
      → last_pointer g p n k ≡ last_pointer g p' n k
  unfolding last_pointer
  last_pointer_cong p p' zero k same = same (λ j h. absurd (omega arith))
  last_pointer_cong p p' (suc n) k same = elim (Bool-cases (g.target_type_array n == k)) [
    | inl e ↦ rw e
    | inr e ↦ rw e (
        last_pointer_cong p p' n k (λ below.
          same
            (λ j h. elim (dec_lt j n) [ yes lower ↦ below j lower | no last ↦ ground (arith, e) ])))
  ]

  note_kept :
      (ptsto : ℕ → ℕ) (k : ℕ)
      → ((j : ℕ) → j < g.sizes_array_len → g.target_type_array j ≢ k)
      → (type_init g ([], ptsto)).1 k ≡ ptsto k
  unfolding type_init
  note_kept ptsto k nobody = init_upto_elsewhere g.sizes_array_len k ([], ptsto) nobody

  -- A second `cstrider_type_init`, from an empty table and with the array `ptsto_type_array` as the
  -- first one left it, makes a table with the same entries.
  pub type_init_again :
      (ptsto : ℕ → ℕ)
      → g.sizes_array_len ≤ no_type
      → (k : ℕ)
      → find k (type_init g ([], (type_init g ([], ptsto)).1)).0
        ≡ find k (type_init g ([], ptsto)).0
  type_init_again ptsto h k =
      let left : ℕ → ℕ = (type_init g ([], ptsto)).1 in
      let n = g.sizes_array_len in
      elim (dec_lt k n) [
        | yes below ↦
            (type_init_lem g left h).0 k below
            ∙ ap (λ p. some (initial_entry g k p))
                (last_pointer_cong left ptsto n k (λ nobody. note_kept ptsto k nobody))
            ∙ sym ((type_init_lem g ptsto h).0 k below)
        | no above ↦
            (type_init_lem g left h).1 k (omega arith)
            ∙ sym ((type_init_lem g ptsto h).1 k (omega arith))
      ]
