-- ===== src/Serial/Chain/Write.antt =====
-- What a traversal with `ser_funs` of examples/heap_serialize/serial.c writes of a chain.
use c_strider.Prelude.{
  ℕ, zero, suc, ◌<◌, ◌≡◌, ◌≢◌, refl, sym, ap, ◌∙◌, subst, true, false, some, none, List, ◌++◌, ◌==◌,
  append_assoc, arith,
}
use c_strider.Outcome.{done}
use c_strider.Types.{get_size, get_size-known}
use c_strider.Types.Construct.{bytes}
use c_strider.Symbols.{lookup_addr}
use c_strider.Traversal.{visit, visit_new}
use c_strider.Traversal.State.{World, Env, find_mapping, add_mapping}
use c_strider.Traversal.Steps.{counted_visit, visit-pointer}
use c_strider.Traversal.Mappings.{add_mapping-mem, add_mapping-user, add_mapping-types}
use c_strider.Serial.Bytes.{take_bytes}
use c_strider.Serial.{Ser, Host, SerialVisit, fwrite, serial_ptr, serializer}
use c_strider.Serial.RoundTrip.{serial_value_8}
use c_strider.Serial.Values.{visit-serial_prim}
use c_strider.Serial.Chain.{
  Known, PointsTo, Tower, trail, follow, chain_file, Plain, Apart, Unmapped, Unmapped-cong,
  add_mapping-Unmapped,
}

-- The state in which the target of a pointer `p` is visited.
abbrev pointed : ℕ → World Ser → World Ser
pointed p w = add_mapping p p (fwrite (bytes 8 p) (counted_visit w))

module _ (host : Host) (env : Env Ser) where
  serial_ptr-object :
      (rec : SerialVisit) (a t : ℕ) (w : World Ser)
      → w.mem a ≢ 0
      → lookup_addr (w.mem a) w.user.symbols ≡ none
      → get_size w.types t ≡ some 8
      → t ≢ host.type_char_nt_ptr
      → serial_ptr host rec a t a w ≡ done (true, fwrite (bytes 8 (w.mem a)) w)
  unfolding serial_ptr
  serial_ptr-object rec a t w live heap size no_string =
      let not_null : (w.mem a == 0) ≡ false = ground arith in
      let other : (t == host.type_char_nt_ptr) ≡ false = ground arith in
      rw (not_null, heap, serial_value_8 (w.mem a) t w size, other)

  write_pointer :
      (f a t u : ℕ) (w : World Ser)
      → PointsTo env.program host w.types t u
      → a ≢ 0
      → w.mem a ≢ 0
      → lookup_addr (w.mem a) w.user.symbols ≡ none
      → find_mapping (w.mem a) w ≡ 0
      → visit (serializer host env) (suc f) a t a w
        ≡ visit (serializer host env) f (w.mem a) u (w.mem a) (pointed (w.mem a) w)
  unfolding visit_new
  write_pointer f a t u w ty live proper heap new =
      let k : Known w.types t 8 = ty.known in
      let size : get_size w.types t ≡ some 8 = get_size-known w.types t k.found ∙ ap some k.sized in
      let p : ℕ = w.mem a in
      let step : visit (serializer host env) (suc f) a t a w
          ≡ visit_new (serializer host env) (visit (serializer host env) f) k.entry a t a
              (counted_visit w) =
        visit-pointer (serializer host env) f a t a w k.is_type k.entry ty.compound k.found
          ty.pointer live new in
      let writes : serial_ptr host (visit (serializer host env) f) a t a (counted_visit w)
          ≡ done (true, fwrite (bytes 8 p) (counted_visit w)) =
        serial_ptr-object (visit (serializer host env) f) a t (counted_visit w) proper heap size
          ty.no_string_ptr in
      step
      ∙ rw
          (writes, ty.object, ty.target, add_mapping-mem p p (fwrite (bytes 8 p) (counted_visit w)))

  -- The traversal writes the pointers of the chain one after another and then the value.
  pub write_chain :
      (n f a t size : ℕ) (value rest : List ℕ) (w : World Ser)
      → Tower env.program host w.types size n t
      → n < f
      → a ≢ 0
      → Plain w.user.symbols (trail n w.mem a)
      → Apart (trail n w.mem a)
      → Unmapped w (trail n w.mem a)
      → take_bytes size (w.user.block (follow n w.mem a)) ≡ some (value, rest)
      → (w' : World Ser) × (visit (serializer host env) f a t a w ≡ done w')
        × (w'.user.file ≡ w.user.file ++ chain_file (trail n w.mem a) value)
  write_chain n zero a t size value rest w ty h live plain apart new at_end = elim h [ ]
  write_chain zero (suc f) a t size value rest w ty h live plain apart new at_end = (
    fwrite value (counted_visit w),
    visit-serial_prim (serializer host env) f a t a size w ty.1.is_type ty.0
        (get_size-known w.types t ty.1.found ∙ ap some ty.1.sized) value rest refl at_end,
    refl,
  )
  write_chain (suc n) (suc f) a t size value rest w (u, ptr, ty) h live plain apart new at_end =
      let p : ℕ = w.mem a in
      let w2 : World Ser = pointed p w in
      let w1 : World Ser = fwrite (bytes 8 p) (counted_visit w) in
      let mem2 : w2.mem ≡ w.mem = add_mapping-mem p p w1 in
      let user2 : w2.user ≡ w1.user = add_mapping-user p p w1 in
      let ih =
        write_chain n f p u size value rest w2
          (subst (λ k. Tower env.program host k size n u) (sym (add_mapping-types p p w1)) ty)
          (omega arith) (plain.0) (rw (mem2, user2) (plain.4)) (rw mem2 (apart.1))
          (subst (λ m. Unmapped w2 (trail n m p)) (sym mem2)
            (add_mapping-Unmapped p p (trail n w.mem p) w1 (apart.0)
              (Unmapped-cong (trail n w.mem p) w w1 refl (new.1))))
          (rw (mem2, user2) at_end) in
      (
        ih.0,
        write_pointer f a t u w ptr live (plain.0) (plain.3) (new.0) ∙ ih.1,
        ih.2
            ∙ ap (λ u. u.file ++ chain_file (trail n w2.mem p) value) user2
            ∙ append_assoc w.user.file (bytes 8 p) (chain_file (trail n w2.mem p) value)
            ∙ ap (λ m. w.user.file ++ (bytes 8 p ++ chain_file (trail n m p) value)) mem2,
      )
