-- ===== src/Serial/Union.antt =====
-- The services of examples/figure10, which are those of serial.c with a callback for the program's
-- `struct tagged_union` (prog_specific.c). The tag is at the struct's address, and the member that it
-- selects 4 bytes after it.
pub mod RoundTrip
use c_strider.Prelude.{ℕ, ◌+◌, Bool, true, false, ◌==◌, if◌then◌else◌}
use c_strider.Outcome.{Outcome, done, ◌>>=◌}
use c_strider.Traversal.State.{World, Env}
use c_strider.Serial.{
  Ser, Host, SerialVisit, from_bytes, serial_prim, serial_ptr, serial_ptr_mapped, deserial_prim,
  deserial_ptr, serializer, deserializer,
}

-- `current_service`
abbrev pub deserialize : ℕ
deserialize = 0

abbrev pub serialize : ℕ
serialize = 1

-- TYPE_STRUCT_tagged_union_i, TYPE_INT_i and TYPE_CHAR_i
pub record UnionTypes : Type 0 where
  pub type_struct_tagged_union : ℕ
  pub type_int : ℕ
  pub type_char : ℕ

module _ (g : UnionTypes) where
  unfoldable pub visit_union : SerialVisit → ℕ → ℕ → World Ser → Outcome (World Ser)
  visit_union rec in_u out_u w = rec in_u g.type_int out_u w >>= λ w1.
      (if from_bytes (w1.user.block in_u) == 0
        then rec (in_u + 4) g.type_char (out_u + 4) w1
        else rec (in_u + 4) g.type_int (out_u + 4) w1)

  module _ (current_service : ℕ) where
    unfoldable pub s_d_prog_struct :
        SerialVisit → ℕ → ℕ → ℕ → World Ser → Outcome (Bool × World Ser)
    s_d_prog_struct rec input type output w =
        if type == g.type_struct_tagged_union
        then (visit_union rec input output w >>= λ w'. done (false, w'))
        else if current_service == deserialize
        then done (true, w)
        else if current_service == serialize
        then done (true, w)
        else done (false, w)

    -- `ser_prog_funs` and `deser_prog_funs`
    abbrev pub prog_serializer : Host → Env Ser → Env Ser
    prog_serializer host env = record (serializer host env) { perfaction_struct = s_d_prog_struct }

    abbrev pub prog_deserializer : Host → Env Ser → Env Ser
    prog_deserializer host env = record (deserializer host env) {
      perfaction_struct = s_d_prog_struct;
    }
