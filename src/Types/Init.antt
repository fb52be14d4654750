-- ===== src/Types/Init.antt =====
-- `cstrider_type_init` of src/cstrider_api.c.
pub mod Again
use c_strider.Prelude.{
  ℕ, zero, suc, ◌≤◌, ◌<◌, ◌≡◌, ◌≢◌, refl, inl, inr, none, some, [], ◌==◌, if◌then◌else◌, update,
  Bool-cases, Option-cases, arith,
}
use c_strider.Table.{find, add, modify, find-add, find-modify}
use c_strider.Types.{TypeEntry, TypeTable, Generated, no_type}

-- `cstrider_type_init`: type `i` of the generated arrays.
module _ (g : Generated) where
  unfoldable pub initial_entry : ℕ → ℕ → TypeEntry
  initial_entry i ptsto = record {
    type = i;
    arrlen = 0;
    arrbase = 0;
    size = g.sizes_array i;
    corresp_func_ptr = g.corresp_func_array i;
    target_type = g.target_type_array i;
    pointer_to = ptsto;
    num_gen_args = g.get_num_gen_args_arr i;
    args = g.get_args_arr i;
    maintype = g.main_types_array i;
    out_type = g.out_type_internal i;
  }

  -- The record of what points to a type: in its entry, or in `ptsto_type_array` if it has none yet.
  unfoldable pub note_pointer : ℕ → ℕ → TypeTable × (ℕ → ℕ) → TypeTable × (ℕ → ℕ)
  note_pointer target i (tbl, ptsto) = elim (find target tbl) [
    | some to ↦ (modify target (λ e. record e { pointer_to = i }) tbl, ptsto)
    | none ↦ (tbl, update ptsto target i)
  ]

  unfoldable pub init_one : ℕ → TypeTable × (ℕ → ℕ) → TypeTable × (ℕ → ℕ)
  init_one i (tbl, ptsto) =
      let added : TypeTable × (ℕ → ℕ) = (add i (initial_entry i (ptsto i)) tbl, ptsto) in
      if g.target_type_array i == no_type
      then added
      else note_pointer (g.target_type_array i) i added

  -- The first `n` rounds of the loop.
  unfoldable pub init_upto : ℕ → TypeTable × (ℕ → ℕ) → TypeTable × (ℕ → ℕ)
  init_upto zero s = s
  init_upto (suc n) s = init_one n (init_upto n s)

  unfoldable pub type_init : TypeTable × (ℕ → ℕ) → TypeTable × (ℕ → ℕ)
  type_init = init_upto g.sizes_array_len

  -- The last of the first `n` types that points to `k`, or what the generated array says of `k`.
  pub last_pointer : (ℕ → ℕ) → ℕ → ℕ → ℕ
  last_pointer ptsto zero k = ptsto k
  last_pointer ptsto (suc n) k = if g.target_type_array n == k then n else last_pointer ptsto n k

  -- What the first `n` rounds have done.
  record Built (ptsto : ℕ → ℕ) (n : ℕ) (s : TypeTable × (ℕ → ℕ)) : Type 0 where
    known : (i : ℕ) → i < n → find i s.0 ≡ some (initial_entry i (last_pointer ptsto n i))
    unknown : (i : ℕ) → n ≤ i → find i s.0 ≡ none
    noted : (i : ℕ) → n ≤ i → i ≢ no_type → s.1 i ≡ last_pointer ptsto n i

  -- One round, by what its type points to: nothing, a type that is in the table, or a later one.
  module _ (ptsto : ℕ → ℕ) (n : ℕ) (tbl : TypeTable) (notes : ℕ → ℕ) (h : n < no_type) where
    abbrev target : ℕ
    target = g.target_type_array n

    abbrev added : TypeTable
    added = add n (initial_entry n (notes n)) tbl

    abbrev pointed : TypeTable
    pointed = modify target (λ e. record e { pointer_to = n }) added

    Built-added : Built ptsto n (tbl, notes) → target ≡ no_type → Built ptsto (suc n) (added, notes)
    unfolding last_pointer
    Built-added b none_at = record {
      known = λ i le.
          ground (arith, find-add n i (initial_entry n (notes n)) tbl, b.known i, b.noted n);
      unknown = λ i le. ground (arith, find-add n i (initial_entry n (notes n)) tbl, b.unknown i);
      noted = λ i le ne. ground (arith, b.noted i);
    }

    Built-pointed :
        Built ptsto n (tbl, notes)
        → target ≢ no_type
        → (to : TypeEntry) → find target added ≡ some to
        → Built ptsto (suc n) (pointed, notes)
    unfolding last_pointer initial_entry
    Built-pointed b ne to at = record {
      known = λ i le. ground (
        arith,
        find-modify target i (λ e. record e { pointer_to = n }) added,
        find-add n i (initial_entry n (notes n)) tbl,
        b.known i,
        b.noted n,
      );
      unknown = λ i le. ground (
        arith,
        find-modify target i (λ e. record e { pointer_to = n }) added,
        find-add n i (initial_entry n (notes n)) tbl,
        b.unknown i,
      );
      noted = λ i le ne'.
          ground (arith, find-add n i (initial_entry n (notes n)) tbl, b.noted i, b.unknown i);
    }

    Built-noted :
        Built ptsto n (tbl, notes)
        → target ≢ no_type
        → find target added ≡ none
        → Built ptsto (suc n) (added, update notes target n)
    unfolding last_pointer
    Built-noted b ne at = record {
      known = λ i le. ground (
        arith,
        find-add n i (initial_entry n (notes n)) tbl,
        find-add n target (initial_entry n (notes n)) tbl,
        b.known i,
        b.known target,
        b.noted n,
      );
      unknown = λ i le. ground (arith, find-add n i (initial_entry n (notes n)) tbl, b.unknown i);
      noted = λ i le ne'. ground (arith, b.noted i);
    }

  init_one-Built :
      (ptsto : ℕ → ℕ) (n : ℕ) (s : TypeTable × (ℕ → ℕ))
      → n < no_type
      → Built ptsto n s
      → Built ptsto (suc n) (init_one n s)
  unfolding init_one note_pointer
  init_one-Built ptsto n (tbl, notes) h b =
      elim (Bool-cases (target ptsto n tbl notes h == no_type)) [
        | inl e ↦ rw e (Built-added ptsto n tbl notes h b (ground arith))
        | inr e ↦ rw e (other (ground arith))
      ]
    where
      other :
          g.target_type_array n ≢ no_type
          → Built ptsto (suc n) (
              note_pointer (g.target_type_array n) n (add n (initial_entry n (notes n)) tbl, notes))
      other ne = elim (Option-cases (find (g.target_type_array n) (added ptsto n tbl notes h))) [
        | inl at ↦ rw (at, note_pointer) (Built-noted ptsto n tbl notes h b ne at)
        | inr (to, at) ↦ rw (at, note_pointer) (Built-pointed ptsto n tbl notes h b ne to at)
      ]

  init_upto-Built : (ptsto : ℕ → ℕ) (n : ℕ) → n ≤ no_type → Built ptsto n (init_upto n ([], ptsto))
  unfolding init_upto last_pointer find
  init_upto-Built ptsto zero h = record {
    known = λ i b. absurd (omega arith);
    unknown = λ i b. refl;
    noted = λ i b ne. refl;
  }
  init_upto-Built ptsto (suc n) h =
      init_one-Built ptsto n _ h (init_upto-Built ptsto n (omega arith))

  -- From an empty table, `cstrider_type_init` enters exactly the types of the generated arrays, each
  -- with what they say of it, and with the last type that points to it, if one of them does, as
  -- `pointer_to`.
  pub type_init_lem :
      (ptsto : ℕ → ℕ)
      → g.sizes_array_len ≤ no_type
      → ((i : ℕ)
          → i < g.sizes_array_len
          → find i (type_init ([], ptsto)).0
            ≡ some (initial_entry i (last_pointer ptsto g.sizes_array_len i)))
        × ((i : ℕ) → g.sizes_array_len ≤ i → find i (type_init ([], ptsto)).0 ≡ none)
  unfolding type_init
  type_init_lem ptsto h =
      let b : Built ptsto g.sizes_array_len (init_upto g.sizes_array_len ([], ptsto)) =
        init_upto-Built ptsto g.sizes_array_len h in
      (b.known, b.unknown)
