-- ===== src/Serial/Ending.antt =====
-- A traversal in place with `ser_funs` of examples/heap_serialize/serial.c ends.
use c_strider.Prelude.{
  ℕ, ◌+◌, ◌^◌, ◌<◌, ◌≡◌, refl, sym, ◌∙◌, subst, false, List, ◌==◌, ltb, length, Option-cases, inl,
  inr,
}
use c_strider.Outcome.{Outcome, done, fault, out_of_fuel, ◌>>=◌}
use c_strider.Types.{TypeTable, get_size}
use c_strider.Types.Construct.{bytes}
use c_strider.Symbols.{lookup_addr}
use c_strider.Traversal.{visit}
use c_strider.Traversal.State.{World, Env}
use c_strider.Traversal.Total.{Ends, Ends-bind, Ends-or_fault, Ends-if, Falls, Lawful}
use c_strider.Traversal.Ends.{visit-Ends}
use c_strider.Traversal.Grows.{After}
use c_strider.Traversal.Still.{Still, Stays}
use c_strider.Serial.Bytes.{take_bytes, c_string}
use c_strider.Serial.{
  Ser, Host, SerialVisit, ser_symbol, fwrite, serial_value, serial_prim, serial_string,
  serial_char_str, serial_ptr, serial_ptr_mapped, serializer,
}
use c_strider.Serial.Looks.{unwritten, writing_looks_only}

-- The run ends, with the types of before.
abbrev Types : TypeTable → Outcome (World Ser) → Type 0
Types tbl m = Ends (λ w. w.types ≡ tbl) m

abbrev TypesOf : {B : Type 0} → TypeTable → Outcome (B × World Ser) → Type 0
TypesOf tbl m = Ends (λ r. r.1.types ≡ tbl) m

serial_value-Types :
    (value : List ℕ) (t : ℕ) (w : World Ser) → Types w.types (serial_value value t w)
unfolding serial_value
serial_value-Types value t w =
    Ends-or_fault (λ w'. w'.types ≡ w.types) (get_size w.types t) _
      λ size _. Ends-or_fault (λ w'. w'.types ≡ w.types) (take_bytes size value) _ λ r _. refl

serial_string-Types : (text : List ℕ) (w : World Ser) → Types w.types (serial_string text w)
serial_string-Types text w =
    Ends-if (λ w'. w'.types ≡ w.types) (ltb (length text + 1) (2 ^ 31)) _ _ (λ _. refl) (λ _. tt)

serial_char_str-Types : (a : ℕ) (w : World Ser) → Types w.types (serial_char_str a w)
unfolding serial_char_str
serial_char_str-Types a w =
    Ends-or_fault (λ w'. w'.types ≡ w.types) (c_string (w.user.block a)) _
      λ text _. serial_string-Types text w

-- One write after another, and a result.
two_writes :
    {B : Type 0} (b : B) (w : World Ser) (m : Outcome (World Ser))
    (f : World Ser → Outcome (World Ser))
    → Types w.types m
    → ((w' : World Ser) → Types w'.types (f w'))
    → TypesOf w.types (m >>= λ w1. f w1 >>= λ w2. done (b, w2))
two_writes b w m f first next =
    Ends-bind (λ w'. w'.types ≡ w.types) (λ r. r.1.types ≡ w.types) m _ first
      (λ w1 e.
        Ends-bind (λ w'. w'.types ≡ w1.types) (λ r. r.1.types ≡ w.types) (f w1) _ (next w1)
          (λ w2 e'. e' ∙ e))

one_write :
    {B : Type 0} (b : B) (w : World Ser) (m : Outcome (World Ser))
    → Types w.types m
    → TypesOf w.types (m >>= λ w1. done (b, w1))
one_write b w m first =
    Ends-bind (λ w'. w'.types ≡ w.types) (λ r. r.1.types ≡ w.types) m _ first (λ w1 e. e)

module _ (host : Host) where
  serial_ptr-Types :
      (rec : SerialVisit) (a t out : ℕ) (w : World Ser)
      → TypesOf w.types (serial_ptr host rec a t out w)
  unfolding serial_ptr
  serial_ptr-Types rec a t out w =
      Ends-if (λ r. r.1.types ≡ w.types) (w.mem a == 0) _ _ (λ _. refl)
        (λ _. elim (Option-cases (lookup_addr (w.mem a) w.user.symbols)) [
          | inr (symbol, known) ↦ rw known (
              two_writes false w _ (serial_string symbol)
                (serial_value-Types (bytes 8 ser_symbol) host.type_opaque_ptr w)
                (serial_string-Types symbol))
          | inl unknown ↦ rw unknown (
              Ends-bind (λ w'. w'.types ≡ w.types) (λ r. r.1.types ≡ w.types)
                (serial_value (bytes 8 (w.mem a)) t w) _
                (serial_value-Types (bytes 8 (w.mem a)) t w)
                (λ w1 e.
                  Ends-if (λ r. r.1.types ≡ w.types) (t == host.type_char_nt_ptr) _ _
                    (λ _.
                      subst
                        (λ tbl.
                          TypesOf tbl (serial_char_str (w.mem a) w1 >>= λ w2. done (false, w2)))
                        e
                        (one_write false w1 (serial_char_str (w.mem a) w1)
                          (serial_char_str-Types (w.mem a) w1)))
                    (λ _. e)))
        ])

  serial_ptr_mapped-Types :
      (rec : SerialVisit) (a t lookup : ℕ) (w : World Ser)
      → TypesOf w.types (serial_ptr_mapped host rec a t lookup w)
  unfolding serial_ptr_mapped
  serial_ptr_mapped-Types rec a t lookup w =
      elim (Option-cases (lookup_addr (w.mem a) w.user.symbols)) [
        | inr (symbol, known) ↦
            rw (serial_ptr_mapped, known)
              (one_write lookup w (serial_string symbol (fwrite (bytes 8 ser_symbol) w))
                (serial_string-Types symbol (fwrite (bytes 8 ser_symbol) w)))
        | inl unknown ↦
            rw (serial_ptr_mapped, unknown)
              (one_write lookup w (serial_value (bytes 8 (w.mem a)) t w)
                (serial_value-Types (bytes 8 (w.mem a)) t w))
      ]

Ends-weaken :
    {A : Type 0} (P Q : A → Type 0) (m : Outcome A) → ((a : A) → P a → Q a) → Ends P m → Ends Q m
Ends-weaken P Q (done a) f h = f a h
Ends-weaken P Q fault f h = tt
Ends-weaken P Q out_of_fuel f h = absurd h

-- What ends, and has a property if it returns, ends with the property.
Ends-After : {A : Type 0} (P Q : A → Type 0) (m : Outcome A) → Ends P m → After Q m → Ends Q m
Ends-After P Q (done a) h k = k
Ends-After P Q fault h k = tt
Ends-After P Q out_of_fuel h k = absurd h

module _ (rank : ℕ → ℕ) (tbl : TypeTable) (falls : Falls rank tbl) where
  Types-Falls : (m : Outcome (World Ser)) → Types tbl m → Ends (λ w. Falls rank w.types) m
  Types-Falls m =
      Ends-weaken (λ w. w.types ≡ tbl) (λ w. Falls rank w.types) m
        (λ w e. subst (Falls rank) (sym e) falls)

  TypesOf-Falls :
      {B : Type 0} (m : Outcome (B × World Ser))
      → TypesOf tbl m
      → Ends (λ r. Falls rank r.1.types) m
  TypesOf-Falls m =
      Ends-weaken (λ r. r.1.types ≡ tbl) (λ r. Falls rank r.1.types) m
        (λ r e. subst (Falls rank) (sym e) falls)

module _ (host : Host) (env : Env Ser) (rank : ℕ → ℕ) where
  serializer-Lawful : Lawful rank (serializer host env)
  unfolding serial_prim
  serializer-Lawful = record {
    prim_ends = λ rec t ends input output w falls.
        Types-Falls rank w.types falls (serial_value (w.user.block input) t w)
          (serial_value-Types (w.user.block input) t w);
    struct_ends = λ rec t ends input output w falls. falls;
    ptr_ends = λ rec t ends input output w falls.
        TypesOf-Falls rank w.types falls (serial_ptr host rec input t output w)
          (serial_ptr-Types host rec input t output w);
    mapped_ends = λ rec t ends input lookup w falls.
        TypesOf-Falls rank w.types falls (serial_ptr_mapped host rec input t lookup w)
          (serial_ptr_mapped-Types host rec input t lookup w);
  }

  -- A visit in place with ser_funs, without helper threads, where no chain of pointer and array types
  -- goes round, what is mapped is mapped to itself, no type changes its size, and what the queues
  -- hold is to be worked on in place: with any fuel above the rank of the type it ends, in a fault or
  -- in a state in which the pointers, the other memory, the type table and the symbols are as they
  -- were, and what is mapped is mapped to itself.
  pub writing-Ends :
      env.is_parallel ≡ false
      → (fuel a t : ℕ) → rank t < fuel
      → (w : World Ser) → Falls rank w.types
      → Still w
      → Ends (Stays unwritten w) (visit (serializer host env) fuel a t a w)
  writing-Ends alone fuel a t enough w falls s =
      Ends-After (λ w'. Falls rank w'.types) (Stays unwritten w)
        (visit (serializer host env) fuel a t a w)
        (visit-Ends rank (serializer host env) serializer-Lawful alone fuel t enough a a w falls)
        (writing_looks_only host env fuel a t w alone s)
