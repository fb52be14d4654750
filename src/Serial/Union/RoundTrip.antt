-- ===== src/Serial/Union/RoundTrip.antt =====
-- A tagged union that examples/figure10 writes and reads.
use c_strider.Prelude.{
  subst, ℕ, suc, ◌+◌, ◌≡◌, ◌≢◌, refl, ap, ◌∙◌, true, false, some, List, [], ◌++◌, ◌==◌,
  if◌then◌else◌, length, arith, append_assoc, Bool-cases, inl, inr, update_self, update_other,
  ==_refl,
}
use c_strider.Outcome.{Outcome, done}
use c_strider.Types.{TypeTable, Generated, no_type, get_size}
use c_strider.Traversal.{visit}
use c_strider.Traversal.State.{World, Env}
use c_strider.Traversal.Steps.{counted_visit}
use c_strider.Serial.{
  Ser, Host, fwrite, set_block, take_bytes_all, length-take_bytes, take_bytes, from_bytes,
}
use c_strider.Serial.Strings.{left_to_read}
use c_strider.Serial.Values.{visit-serial_prim, visit-deserial_prim}
use c_strider.Serial.Union.{
  UnionTypes, serialize, deserialize, visit_union, s_d_prog_struct, prog_serializer,
  prog_deserializer,
}

-- The member's type, and how many bytes it has.
abbrev pub member_type : UnionTypes → List ℕ → ℕ
member_type g tag = if from_bytes tag == 0 then g.type_char else g.type_int

abbrev pub member_size : List ℕ → ℕ
member_size tag = if from_bytes tag == 0 then 1 else 4

-- An `int` and a `char` are primitive in the program and have their sizes in the table.
pub record Prims (g : UnionTypes) (p : Generated) (tbl : TypeTable) : Type 0 where
  pub int_is_type : g.type_int ≢ no_type
  pub char_is_type : g.type_char ≢ no_type
  pub int_prim : p.is_prim g.type_int ≡ true
  pub char_prim : p.is_prim g.type_char ≡ true
  pub int_size : get_size tbl g.type_int ≡ some 4
  pub char_size : get_size tbl g.type_char ≡ some 1

member-Prims :
    (g : UnionTypes) (p : Generated) (tbl : TypeTable) (tag : List ℕ)
    → Prims g p tbl
    → (member_type g tag ≢ no_type)
      × (p.is_prim (member_type g tag) ≡ true)
      × (get_size tbl (member_type g tag) ≡ some (member_size tag))
member-Prims g p tbl tag c = elim (Bool-cases (from_bytes tag == 0)) [
  | inl e ↦ rw e (c.char_is_type, c.char_prim, c.char_size)
  | inr e ↦ rw e (c.int_is_type, c.int_prim, c.int_size)
]

-- Which member is visited.
visit_union_lem :
    (g : UnionTypes) (rec : ℕ → ℕ → ℕ → World Ser → Outcome (World Ser)) (a b : ℕ) (tag : List ℕ)
    (w w1 : World Ser)
    → rec a g.type_int b w ≡ done w1
    → w1.user.block a ≡ tag
    → visit_union g rec a b w ≡ rec (a + 4) (member_type g tag) (b + 4) w1
unfolding visit_union
visit_union_lem g rec a b tag w w1 first held = elim (Bool-cases (from_bytes tag == 0)) [
  | inl e ↦ rw (first, held, e)
  | inr e ↦ rw (first, held, e)
]

module _ (g : UnionTypes) (host : Host) (env : Env Ser) where
  write_union :
      (f a : ℕ) (tag payload more' : List ℕ) (w : World Ser)
      → Prims g env.program w.types
      → w.user.block a ≡ tag
      → length tag ≡ 4
      → take_bytes (member_size tag) (w.user.block (a + 4)) ≡ some (payload, more')
      → visit_union g (visit (prog_serializer g serialize host env) (suc f)) a a w
        ≡ done (fwrite payload (counted_visit (fwrite tag (counted_visit w))))
  write_union f a tag payload more' w c held whole member =
      let e : Env Ser = prog_serializer g serialize host env in
      let w1 : World Ser = fwrite tag (counted_visit w) in
      let m = member-Prims g env.program w.types tag c in
      visit_union_lem g (visit e (suc f)) a a tag w w1
        (visit-serial_prim e f a g.type_int a 4 w c.int_is_type c.int_prim c.int_size tag [] refl (
          ap (take_bytes 4) held
          ∙ subst (λ n. take_bytes n tag ≡ some (tag, [])) whole (take_bytes_all tag)))
        held
      ∙ visit-serial_prim e f (a + 4) (member_type g tag) (a + 4) (member_size tag) w1 (m.0) (m.1)
          (m.2) payload more' refl member

  read_union :
      (f b : ℕ) (tag payload rest : List ℕ) (v : World Ser)
      → Prims g env.program v.types
      → length tag ≡ 4
      → length payload ≡ member_size tag
      → v.user.file ≡ tag ++ (payload ++ rest)
      → visit_union g (visit (prog_deserializer g deserialize host env) (suc f)) b b v
        ≡ done (
            set_block (b + 4) payload (
              left_to_read rest (
                counted_visit
                  (set_block b tag (left_to_read (payload ++ rest) (counted_visit v))))))
  read_union f b tag payload rest v c whole whole' file =
      let e : Env Ser = prog_deserializer g deserialize host env in
      let v1 : World Ser = set_block b tag (left_to_read (payload ++ rest) (counted_visit v)) in
      let m = member-Prims g env.program v.types tag c in
      visit_union_lem g (visit e (suc f)) b b tag v v1
        (visit-deserial_prim e f b g.type_int b 4 v c.int_is_type c.int_prim c.int_size host tag
          (payload ++ rest) refl whole file)
        (update_self v.user.block b tag)
      ∙ visit-deserial_prim e f (b + 4) (member_type g tag) (b + 4) (member_size tag) v1 (m.0) (m.1)
          (m.2) host payload rest refl whole' refl

-- In programs where an `int` and a `char` are primitive types of 4 bytes and 1 byte: a
-- `struct tagged_union` at `a`, with a tag of 4 bytes and, behind it, the bytes of the member that
-- the tag selects: an `int` where the tag is not 0, a `char` where it is. Its visit with
-- ser_prog_funs writes the tag and the member, and visiting another with deser_prog_funs in place,
-- where the file begins with what was written, gives it the same tag and the same member, and leaves
-- what follows in the file. The fields of the struct are not visited again.
pub union_roundtrip :
    (g : UnionTypes) (host host' : Host) (env env' : Env Ser) (f f' a b : ℕ)
    (tag payload more rest : List ℕ) (w v : World Ser)
    → Prims g env.program w.types
    → Prims g env'.program v.types
    → w.user.block a ≡ tag
    → length tag ≡ 4
    → take_bytes (member_size tag) (w.user.block (a + 4)) ≡ some (payload, more)
    → v.user.file ≡ tag ++ (payload ++ rest)
    → (w' v' : World Ser) × (s_d_prog_struct g serialize
          (visit (prog_serializer g serialize host env) (suc f))
          a
          g.type_struct_tagged_union
          a
          w
        ≡ done (false, w'))
      × (w'.user.file ≡ w.user.file ++ (tag ++ payload))
      × (s_d_prog_struct g deserialize
            (visit (prog_deserializer g deserialize host' env') (suc f'))
            b
            g.type_struct_tagged_union
            b
            v
          ≡ done (false, v'))
      × (v'.user.block b ≡ tag)
      × (v'.user.block (b + 4) ≡ payload)
      × (v'.user.file ≡ rest)
unfolding s_d_prog_struct
union_roundtrip g host host' env env' f f' a b tag payload more rest w v c c' held whole member
      file =
    let w1 : World Ser = fwrite tag (counted_visit w) in
    let v1 : World Ser = set_block b tag (left_to_read (payload ++ rest) (counted_visit v)) in
    (
      fwrite payload (counted_visit w1),
      set_block (b + 4) payload (left_to_read rest (counted_visit v1)),
      rw (
        ==_refl g.type_struct_tagged_union,
        write_union g host env f a tag payload more w c held whole member,
      ),
      append_assoc w.user.file tag payload,
      rw (
        ==_refl g.type_struct_tagged_union,
        read_union g host' env' f' b tag payload rest v c' whole
            (length-take_bytes (member_size tag) (w.user.block (a + 4)) member) file,
      ),
      update_other v1.user.block (b + 4) b payload (omega arith) ∙ update_self v.user.block b tag,
      update_self v1.user.block (b + 4) payload,
      refl,
    )
