-- ===== src/Serial.antt =====
-- The serialisation service of examples/heap_serialize/serial.c, which examples/figure4 and
-- examples/figure10 have copies of. A string, and a value that is no pointer, is what `block` has
-- from its address on; the pointers are in the traversal's `mem`. A read past the end of the file is
-- a fault: the code does not look at what `fread` returns. So is a length that is no `int`.
mod Bytes
pub mod Strings
pub mod RoundTrip
pub mod Shared
pub mod Chain
pub mod Values
pub mod Looks
pub mod Checkpoint
pub mod Ending
pub mod Union
unfoldable pub use Bytes.*
use c_strider.Prelude.{
  ℕ, ◌+◌, ◌^◌, Bool, true, false, Option, none, some, List, [], ◌∷◌, ◌++◌, ◌==◌, if◌then◌else◌, ltb,
  length, update,
}
use c_strider.Outcome.{Outcome, done, fault, or_fault, ◌>>=◌}
use c_strider.Types.{get_size, get_ptrtype, is_array, get_array_len}
use c_strider.Types.Construct.{bytes}
use c_strider.Symbols.{Symbols, lookup_addr, lookup_key}
use c_strider.Traversal.State.{World, Env, Visit, store, find_mapping, add_mapping, addr_of}

-- SER_SYMBOL
abbrev pub ser_symbol : ℕ
ser_symbol = 2

-- `file` is what has been written, or what is left to read.
pub record Ser : Type 0 where
  pub file : List ℕ
  pub symbols : Symbols
  pub block : ℕ → List ℕ

-- What is generated for a program, and what `malloc` returns.
pub record Host : Type 0 where
  pub type_opaque_ptr : ℕ
  pub type_char_nt : ℕ
  pub type_char_nt_ptr : ℕ
  pub malloc : World Ser → ℕ → ℕ

abbrev pub SerialVisit : Type 0
SerialVisit = Visit Ser

-- `fwrite` and `fread` of some bytes
abbrev pub fwrite : List ℕ → World Ser → World Ser
fwrite b w = record w { user = record w.user { file = w.user.file ++ b } }

abbrev pub fread : ℕ → World Ser → Outcome (List ℕ × World Ser)
fread n w = or_fault (take_bytes n w.user.file) >>= λ r.
    done (r.0, record w { user = record w.user { file = r.1 } })

abbrev pub set_block : ℕ → List ℕ → World Ser → World Ser
set_block a b w = record w { user = record w.user { block = update w.user.block a b } }

-- `serial_prim` of the value with these bytes
unfoldable pub serial_value : List ℕ → ℕ → World Ser → Outcome (World Ser)
serial_value value type w = do
  sz ← or_fault (get_size w.types type)
  r ← or_fault (take_bytes sz value)
  done (fwrite (r.0) w)

pub serial_prim : SerialVisit → SerialVisit
serial_prim rec input type output w = serial_value (w.user.block input) type w

abbrev pub serial_write_token : ℕ → World Ser → World Ser
serial_write_token i w = fwrite (bytes 8 i) w

-- What `serial_char_str` writes of a string.
abbrev pub encode_string : List ℕ → List ℕ
encode_string s = bytes 4 (length s + 1) ++ (s ++ 0 ∷ [])

abbrev pub serial_string : List ℕ → World Ser → Outcome (World Ser)
serial_string s w = if ltb (length s + 1) (2 ^ 31) then done (fwrite (encode_string s) w) else fault

unfoldable pub serial_char_str : ℕ → World Ser → Outcome (World Ser)
serial_char_str addr w = or_fault (c_string (w.user.block addr)) >>= λ s. serial_string s w

-- `deserial_char_str`: the address of the copy
pub deserial_char_str : Host → World Ser → Outcome (ℕ × World Ser)
deserial_char_str host w = do
  l ← fread 4 w
  let len = from_bytes (l.0)
  if ltb len (2 ^ 31)
      then (do
        s ← fread len (l.1)
        let tmp = host.malloc (l.1) len
        done (tmp, set_block tmp (s.0) (s.1)))
      else fault

module _ (host : Host) where
  pub serial_ptr : SerialVisit → ℕ → ℕ → ℕ → World Ser → Outcome (Bool × World Ser)
  serial_ptr rec input type output w =
      if w.mem input == 0
      then done (false, serial_write_token 0 w)
      else elim (lookup_addr (w.mem input) w.user.symbols) [
        | some symbol ↦ do
          w1 ← serial_value (bytes 8 ser_symbol) host.type_opaque_ptr w
          w2 ← serial_string symbol w1
          done (false, w2)
        | none ↦ do
          w1 ← serial_value (bytes 8 (w.mem input)) type w
          if type == host.type_char_nt_ptr
              then (do w2 ← serial_char_str (w.mem input) w1; done (false, w2))
              else done (true, w1)
      ]

  pub serial_ptr_mapped : SerialVisit → ℕ → ℕ → ℕ → World Ser → Outcome (ℕ × World Ser)
  serial_ptr_mapped rec input type lookup w = elim (lookup_addr (w.mem input) w.user.symbols) [
    | some symbol ↦ do
      w1 ← serial_string symbol (serial_write_token ser_symbol w)
      done (lookup, w1)
    | none ↦ do w1 ← serial_value (bytes 8 (w.mem input)) type w; done (lookup, w1)
  ]

  pub deserial_prim : SerialVisit → SerialVisit
  deserial_prim rec input type output w = do
    sz ← or_fault (get_size w.types type)
    r ← fread sz w
    done (set_block output (r.0) (r.1))

  -- The target of a symbol.
  pub deserial_symbol : ℕ → World Ser → Outcome (World Ser)
  deserial_symbol output w = do
    r ← deserial_char_str host w
    let w1 = r.1
    symbol ← or_fault (c_string (w1.user.block (r.0)))
    let found = addr_of (lookup_key symbol w1.user.symbols)
    done (store output found (record w1 { freed = (r.0) ∷ w1.freed }))

  -- How much the target of a pointer needs.
  pub to_alloc : ℕ → World Ser → Outcome ℕ
  to_alloc next_type w = do
    size ← or_fault (get_size w.types next_type)
    arr ← or_fault (is_array w.types next_type)
    if arr then or_fault (get_array_len w.types next_type) else done size

  -- A pointer `present` that is read for the first time.
  pub deserial_new : SerialVisit → ℕ → ℕ → ℕ → World Ser → Outcome (World Ser)
  deserial_new rec present type output w = do
    next_type ← or_fault (get_ptrtype w.types type)
    if next_type == host.type_char_nt
        then (do
          r ← deserial_char_str host w
          done (add_mapping present (r.0) (store output (r.0) (r.1))))
        else do
          size ← to_alloc next_type w
          let tgt = host.malloc w size
          rec tgt next_type tgt (store output tgt (add_mapping present tgt w))

  pub deserial_ptr : SerialVisit → ℕ → ℕ → ℕ → World Ser → Outcome (Bool × World Ser)
  deserial_ptr rec input type output w = do
    r ← fread 8 w
    let present = from_bytes (r.0)
    let w1 = r.1
    let tgt = find_mapping present w1
    let run =
        if present == ser_symbol
        then deserial_symbol output w1
        else if present == 0
        then done (store output 0 w1)
        else if tgt == 0
        then deserial_new rec present type output w1
        else done (store output tgt w1)
    w2 ← run
    done (false, w2)

  -- `ser_funs` and `deser_funs`
  abbrev pub serializer : Env Ser → Env Ser
  serializer env = record env {
    perfaction_prim = serial_prim;
    perfaction_struct = λ rec input type output w. done (true, w);
    perfaction_ptr = serial_ptr;
    perfaction_ptr_mapped = serial_ptr_mapped;
  }

  abbrev pub deserializer : Env Ser → Env Ser
  deserializer env = record env {
    perfaction_prim = deserial_prim;
    perfaction_struct = λ rec input type output w. done (true, w);
    perfaction_ptr = deserial_ptr;
    perfaction_ptr_mapped = λ rec input type lookup w. fault;
  }
