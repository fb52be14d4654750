-- ===== src/Lifecycle/Clean.antt =====
-- What `finish` of src/cstrider_api.c leaves behind.
use mathlib.Core.List.{reverse, reverse-append}
use c_strider.Prelude.{
  ℕ, suc, ◌<◌, ◌≡◌, refl, sym, ap, ◌∙◌, false, [], ◌∷◌, arith, length, length-append,
}
use c_strider.Table.{Table, iter}
use c_strider.Queue.Fifo.{contents}
use c_strider.Traversal.{process_loop}
use c_strider.Traversal.State.{World, Env}
use c_strider.Traversal.Total.{Ends, Ends-bind}
use c_strider.Traversal.Queued.{Falling, process_loop-Ends}
use c_strider.Lifecycle.{
  Runtime, drop_oldest, drain, free_table, perform_delayedfree, enter_loop, helpers_wait,
  transform_free, finish,
}

module _ {V : Type 0} where
  pub empty_of_length : (t : Table V) → length t ≡ 0 → t ≡ []
  empty_of_length [] h = refl
  empty_of_length (e ∷ t) h = absurd (omega (arith, h))

  length-drop_oldest_cons : (e : ℕ × V) (t : Table V) → length (drop_oldest (e ∷ t)) ≡ length t
  unfolding drop_oldest
  length-drop_oldest_cons e [] = refl
  length-drop_oldest_cons e (e' ∷ t) = ap suc (length-drop_oldest_cons e' t)

  pub length-drop_oldest : (n : ℕ) (t : Table V) → length t ≡ suc n → length (drop_oldest t) ≡ n
  length-drop_oldest n [] h = absurd (omega (arith, h))
  length-drop_oldest n (e ∷ t) h = omega (arith, length-drop_oldest_cons e t, h)

  drain-nil : (es t : Table V) → length t ≡ length es → drain es t ≡ []
  unfolding drain
  drain-nil [] t h = empty_of_length t h
  drain-nil (e ∷ es) t h = drain-nil es (drop_oldest t) (length-drop_oldest (length es) t h)

  pub length-reverse : (t : Table V) → length (reverse t) ≡ length t
  length-reverse [] = refl
  length-reverse (e ∷ t) =
      ap length (reverse-append (e ∷ []) t)
      ∙ omega (arith, length-append {0} (reverse t) (e ∷ []), length-reverse t)

  -- HASH_ITER with HASH_DEL of each entry empties the table.
  pub free_table-nil : (t : Table V) → free_table t ≡ []
  unfolding free_table
  free_table-nil t = drain-nil (iter t) t (sym (length-reverse t))

module _ {U : Type 0} (env : Env U) where
  -- What `finish` leaves: nothing of the traversal, all that was to be freed later given to `free`,
  -- and the registered roots, the symbols and the notes of pointer types as they are.
  pub record Clean (r r' : Runtime U) : Type 0 where
    types_freed : r'.world.types ≡ []
    mappings_cleared : r'.world.mappings ≡ []
    roots_freed : r'.visit_all_hash ≡ []
    nothing_to_free : r'.world.freelater ≡ []
    nothing_queued : contents (r'.world.queues 0) ≡ []
    visitcalls_reset : r'.world.visitcalls ≡ 0
    can_launch : r'.launched_helpers ≡ false
    same_registered : r'.registered ≡ r.registered
    same_symbols : r'.symbols ≡ r.symbols
    same_ptsto : r'.ptsto_type_array ≡ r.ptsto_type_array

  transform_free-Clean :
      env.is_parallel ≡ false
      → (r : Runtime U) (w : World U) → contents (w.queues 0) ≡ []
      → Clean r (
          transform_free env (record r { world = perform_delayedfree w; launched_helpers = false }))
  unfolding transform_free perform_delayedfree
  transform_free-Clean serial r w e = rw serial (record {
    types_freed = free_table-nil w.types;
    mappings_cleared = refl;
    roots_freed = free_table-nil r.visit_all_hash;
    nothing_to_free = free_table-nil _;
    nothing_queued = e;
    visitcalls_reset = refl;
    can_launch = refl;
    same_registered = refl;
    same_symbols = refl;
    same_ptsto = refl;
  })

  -- Without helper threads, and if each task ends and leaves less to do, as for the loop of
  -- `processqueue`, `finish` ends with any fuel above what is left to do: in a fault, or with the
  -- type table, the mapping table, the table of roots, that of delayed frees and the queue empty, no
  -- visit counted, and helpers that can be launched again. The registered roots, the symbols and the
  -- array of pointer types that type_init has filled are as they were before `finish`.
  pub finish_lem :
      (depth : ℕ) (I : World U → Type 0) (left : World U → ℕ)
      → env.is_parallel ≡ false
      → Falling env depth I left
      → (fuel : ℕ) (r : Runtime U) → I (enter_loop r.world)
      → left (enter_loop r.world) < fuel
      → Ends (Clean r) (finish env fuel depth r)
  unfolding finish helpers_wait
  finish_lem depth I left serial falling fuel r i h =
      Ends-bind _ (Clean r) (helpers_wait env fuel depth r) _
        (Ends-bind _
          (λ r'.
            (w : World U) × (contents (w.queues 0) ≡ [])
            × (r' ≡ record r { world = perform_delayedfree w; launched_helpers = false }))
          (process_loop env fuel depth (enter_loop r.world)) _
          (process_loop-Ends env depth I left falling fuel (enter_loop r.world) i h)
          (λ w k. (w, k.1, refl)))
        (λ r' k. rw (k.2) (transform_free-Clean serial r k.0 k.1))
