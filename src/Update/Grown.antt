-- ===== src/Update/Grown.antt =====
-- What becomes of an object whose type is larger in the new version, in `update_ptr` of
-- examples/redis-2.0.2/update.c: `visit` passes the type of the pointer, whose size never changes.
use c_strider.Prelude.{
  ℕ, ◌≡◌, ◌≢◌, refl, sym, ap, ◌∙◌, true, false, none, some, ◌==◌, update_self, arith,
}
use c_strider.Outcome.{done}
use c_strider.Types.{TypeEntry, get_size, get_out_size}
use c_strider.Traversal.{visit_new, visit_ptr, visit_mapped, memoized_is_funptr}
use c_strider.Traversal.State.{World, Env, Visit, store, find_mapping, add_mapping}
use c_strider.Traversal.Grows.{Grows, add_mapping_lem}
use c_strider.Traversal.Mappings.{
  find_mapping_cong, add_mapping-mem, add_mapping-freelater, add_mapping-user,
}
use c_strider.Update.{Versions, Blocks, update_target, update_ptr, update_prim, updater}

module _ (host : Versions) (env : Env Blocks) (rec : Visit Blocks) (te : TypeEntry) where
  update_ptr-same_size :
      (input type output size : ℕ) (w : World Blocks)
      → w.mem input ≢ 0
      → host.lookup_addr_old (w.mem input) ≡ none
      → get_size w.types type ≡ some size
      → get_out_size w.types type ≡ some size
      → update_ptr host rec input type output w ≡ done (true, store output (w.mem input) w)
  unfolding update_ptr update_target
  update_ptr-same_size input type output size w live heap s o =
      let not_null : (w.mem input == 0) ≡ false = ground arith in
      let same : (size == size) ≡ true = ground arith in rw (not_null, heap, s, o, same)

  -- Any time after a pointer has been mapped to `c`, a pointer with the same value gets `c`.
  visit_ptr-mapped :
      (p c input type output : ℕ) (w1 w : World Blocks)
      → find_mapping p w1 ≡ c
      → c ≢ 0
      → Grows w1 w
      → input ≢ 0
      → w.mem input ≡ p
      → visit_ptr (updater host env) rec te input type output w ≡ done (store output c w)
  unfolding visit_ptr visit_mapped
  visit_ptr-mapped p c input type output w1 w mapped got later cell at_input =
      let known : find_mapping (w.mem input) w ≡ c =
        ap (λ k. find_mapping k w) at_input ∙ later.kept p (λ z. got (sym mapped ∙ z)) ∙ mapped in
      let proper : (input == 0) ≡ false = ground arith in
      let found : (c == 0) ≡ false = ground arith in rw (known, proper, found)

  -- A pointer, no function pointer, whose own type has the same size in both versions, to an object
  -- of the heap that is met for the first time. Whatever the sizes of the object's type are in the
  -- two versions, the object stays where it is: nothing is allocated for it or put among what is to be
  -- freed later, the pointer is copied, and the target is visited with the old address both as `in`
  -- and as `out`, where update_prim copies nothing. At any later time a visit of a pointer to the
  -- object copies the pointer and does nothing else.
  pub grown_stays :
      (input type output size : ℕ) (w : World Blocks)
      → w.mem input ≢ 0
      → host.lookup_addr_old (w.mem input) ≡ none
      → get_size w.types type ≡ some size
      → get_out_size w.types type ≡ some size
      → memoized_is_funptr te ≡ false
      → find_mapping (w.mem input) w ≡ 0
      → (w1 : World Blocks) × (visit_new (updater host env) rec te input type output w
          ≡ rec (w.mem input) te.target_type (w.mem input) w1)
        × (w1.freelater ≡ w.freelater)
        × (w1.user ≡ w.user)
        × (w1.mem output ≡ w.mem input)
        × (update_prim host rec (w.mem input) te.target_type (w.mem input) w1 ≡ done w1)
        × ((input' type' output' : ℕ) (w2 : World Blocks)
            → Grows w1 w2
            → input' ≢ 0
            → w2.mem input' ≡ w.mem input
            → visit_ptr (updater host env) rec te input' type' output' w2
              ≡ done (store output' (w.mem input) w2))
  unfolding visit_new update_prim
  grown_stays input type output size w live heap s o object new =
      let p : ℕ = w.mem input in
      let m : World Blocks = store output p w in
      let w1 : World Blocks = add_mapping p p m in
      let runs : update_ptr host rec input type output w ≡ done (true, m) =
        update_ptr-same_size input type output size w live heap s o in
      let at_output : m.mem output ≡ p = update_self w.mem output p in
      let at_input : m.mem input ≡ p = ground arith in
      let known : find_mapping p w1 ≡ p =
        add_mapping_lem p p m live (find_mapping_cong p w m refl ∙ new) in
      let in_place : (p == p) ≡ true = ground arith in
      (
        w1,
        rw (runs, at_input, at_output, object, add_mapping-mem p p m, at_input, at_output),
        add_mapping-freelater p p m,
        add_mapping-user p p m,
        ap (λ f. f output) (add_mapping-mem p p m) ∙ at_output,
        rw in_place,
        λ input' type' output' w2 later cell at_input'.
            visit_ptr-mapped p p input' type' output' w1 w2 known live later cell at_input',
      )
