-- ===== src/Serial/Looks.antt =====
-- A traversal in place with `ser_funs` of examples/heap_serialize/serial.c, which only looks.
use c_strider.Prelude.{
  ℕ, ◌+◌, ◌^◌, ◌≡◌, refl, false, List, ◌==◌, ltb, length, Option-cases, inl, inr,
}
use c_strider.Outcome.{Outcome, done, ◌>>=◌}
use c_strider.Types.{get_size}
use c_strider.Types.Construct.{bytes}
use c_strider.Symbols.{Symbols, lookup_addr}
use c_strider.Traversal.{visit}
use c_strider.Traversal.State.{World, Env}
use c_strider.Traversal.Grows.{After, After-bind, After-or_fault, After-if}
use c_strider.Traversal.Still.{Still, Stays, LooksOnly, same-Stays, After-Stays}
use c_strider.Traversal.InPlace.{visit_in_place}
use c_strider.Serial.Bytes.{take_bytes, c_string}
use c_strider.Serial.{
  Ser, Host, SerialVisit, ser_symbol, fwrite, serial_value, serial_prim, serial_string,
  serial_char_str, serial_ptr, serial_ptr_mapped, serializer,
}

-- What a service that writes does not change of what it owns.
abbrev pub unwritten : Ser → (ℕ → List ℕ) × Symbols
unwritten u = (u.block, u.symbols)

fwrite-Stays : (b : List ℕ) (w : World Ser) → Still w → Stays unwritten w (fwrite b w)
fwrite-Stays b w s = same-Stays unwritten w (fwrite b w) s refl refl refl s.in_place refl

serial_value-Stays :
    (value : List ℕ) (t : ℕ) (w : World Ser)
    → Still w
    → After (Stays unwritten w) (serial_value value t w)
unfolding serial_value
serial_value-Stays value t w s =
    After-or_fault (Stays unwritten w) (get_size w.types t) _ λ size.
      After-or_fault (Stays unwritten w) (take_bytes size value) _ λ r. fwrite-Stays (r.0) w s

serial_string-Stays :
    (text : List ℕ) (w : World Ser) → Still w → After (Stays unwritten w) (serial_string text w)
serial_string-Stays text w s =
    After-if (Stays unwritten w) (ltb (length text + 1) (2 ^ 31)) _ _ (λ _. fwrite-Stays _ w s)
      (λ _. tt)

serial_char_str-Stays :
    (a : ℕ) (w : World Ser) → Still w → After (Stays unwritten w) (serial_char_str a w)
unfolding serial_char_str
serial_char_str-Stays a w s =
    After-or_fault (Stays unwritten w) (c_string (w.user.block a)) _
      λ text. serial_string-Stays text w s

module _ (host : Host) where
  -- Two steps, the second of which writes more.
  then_returns :
      {B : Type 0} (b : B) (w : World Ser) (m : Outcome (World Ser))
      (f : World Ser → Outcome (World Ser))
      → After (Stays unwritten w) m
      → ((w' : World Ser) → Still w' → After (Stays unwritten w') (f w'))
      → (P : B × World Ser → Type 0) → ((w' : World Ser) → Stays unwritten w w' → P (b, w'))
      → After P (m >>= λ w1. f w1 >>= λ w2. done (b, w2))
  then_returns b w m f first next P k = After-bind (Stays unwritten w) P m _ first (λ w1 g.
      After-bind (Stays unwritten w) P (f w1) _ (After-Stays unwritten w w1 _ g (next w1 g.still))
        k)

  serial_ptr-Stays :
      (rec : SerialVisit) (a t : ℕ) (w : World Ser)
      → Still w
      → After (λ r. Stays unwritten w (r.1)) (serial_ptr host rec a t a w)
  unfolding serial_ptr
  serial_ptr-Stays rec a t w s =
      After-if (λ r. Stays unwritten w (r.1)) (w.mem a == 0) _ _ (λ _. fwrite-Stays (bytes 8 0) w s)
        (λ _. elim (Option-cases (lookup_addr (w.mem a) w.user.symbols)) [
          | inr (symbol, known) ↦ rw known (
              then_returns false w _ (serial_string symbol)
                (serial_value-Stays (bytes 8 ser_symbol) host.type_opaque_ptr w s)
                (serial_string-Stays symbol) (λ r. Stays unwritten w (r.1)) (λ w' g. g))
          | inl unknown ↦ rw unknown (
              After-bind (Stays unwritten w) (λ r. Stays unwritten w (r.1))
                (serial_value (bytes 8 (w.mem a)) t w) _
                (serial_value-Stays (bytes 8 (w.mem a)) t w s)
                (λ w1 g.
                  After-if (λ r. Stays unwritten w (r.1)) (t == host.type_char_nt_ptr) _ _
                    (λ _.
                      After-bind (Stays unwritten w) (λ r. Stays unwritten w (r.1))
                        (serial_char_str (w.mem a) w1) _
                        (After-Stays unwritten w w1 _ g
                          (serial_char_str-Stays (w.mem a) w1 g.still))
                        (λ w2 h. h))
                    (λ _. g)))
        ])

  serial_ptr_mapped-Stays :
      (rec : SerialVisit) (a t : ℕ) (w : World Ser)
      → Still w
      → After
          (λ r. Stays unwritten w (r.1) × (r.0 ≡ w.mem a))
          (serial_ptr_mapped host rec a t (w.mem a) w)
  unfolding serial_ptr_mapped
  serial_ptr_mapped-Stays rec a t w s = elim (Option-cases (lookup_addr (w.mem a) w.user.symbols)) [
    | inr (symbol, known) ↦
        rw (serial_ptr_mapped, known)
          (After-bind (Stays unwritten w) (λ r. Stays unwritten w (r.1) × (r.0 ≡ w.mem a))
            (serial_string symbol (fwrite (bytes 8 ser_symbol) w)) _
            (After-Stays unwritten w (fwrite (bytes 8 ser_symbol) w) _
              (fwrite-Stays (bytes 8 ser_symbol) w s)
              (serial_string-Stays symbol (fwrite (bytes 8 ser_symbol) w)
                (fwrite-Stays (bytes 8 ser_symbol) w s).still))
            (λ w1 g. (g, refl)))
    | inl unknown ↦
        rw (serial_ptr_mapped, unknown)
          (After-bind (Stays unwritten w) (λ r. Stays unwritten w (r.1) × (r.0 ≡ w.mem a))
            (serial_value (bytes 8 (w.mem a)) t w) _ (serial_value-Stays (bytes 8 (w.mem a)) t w s)
            (λ w1 g. (g, refl)))
  ]

  pub serializer-LooksOnly : (env : Env Ser) → LooksOnly unwritten (serializer host env)
  unfolding serial_prim
  serializer-LooksOnly env = record {
    prim_looks = λ rec stays a t w s. serial_value-Stays (w.user.block a) t w s;
    struct_looks = λ rec stays a t w s. same-Stays unwritten w w s refl refl refl s.in_place refl;
    ptr_looks = λ rec stays a t w s. serial_ptr-Stays rec a t w s;
    mapped_looks = λ rec stays a t w s. serial_ptr_mapped-Stays rec a t w s;
  }

  -- A visit in place with ser_funs, without helper threads, where what is mapped is mapped to itself
  -- and no type changes its size: whenever it returns, the pointers, the other memory, the type
  -- table and the symbols are as they were, and what is mapped is mapped to itself.
  pub writing_looks_only :
      (env : Env Ser) (fuel a t : ℕ) (w : World Ser)
      → env.is_parallel ≡ false
      → Still w
      → After (Stays unwritten w) (visit (serializer host env) fuel a t a w)
  writing_looks_only env fuel a t w alone s =
      visit_in_place unwritten (serializer host env) (serializer-LooksOnly env) alone fuel a t w s
