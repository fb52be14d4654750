-- ===== src/Tests/Streams.antt =====
-- The service of examples/heap_serialize/serial.c on a string, a symbol and a shared pointer.
use c_strider.Prelude.{
  ℕ, ◌≡◌, refl, arith, true, false, some, List, [], ◌∷◌, ◌++◌, ◌==◌, if◌then◌else◌,
}
use c_strider.Outcome.{done}
use c_strider.Table.{find}
use c_strider.Types.{no_type, get_size, get_ptrtype-known}
use c_strider.Types.Construct.{bytes}
use c_strider.Symbols.{Symbols, HashEntry, lookup_addr, lookup_key, find_name, same_name}
use c_strider.Traversal.{visit_new}
use c_strider.Traversal.State.{World, Env, find_mapping}
use c_strider.Serial.{
  Ser, Host, SerialVisit, ser_symbol, fwrite, encode_string, c_string, NoNul, c_string-append,
  serial_ptr, deserial_ptr, deserializer,
}
use c_strider.Serial.RoundTrip.{symbol_roundtrip, string_roundtrip}
use c_strider.Serial.Shared.{address_taken_for_value}
use c_strider.Tests.Visits.{program, entry, raw_queues}

-- Type 0 is `char_nt`, type 1 a pointer to it; blocks are allocated at 9000.
abbrev pub host : Host
host = record { type_opaque_ptr = 1; type_char_nt = 0; type_char_nt_ptr = 1; malloc = λ w n. 9000 }

-- "log", and the variable 3000 of that name.
abbrev pub name : List ℕ
name = 108 ∷ 111 ∷ 103 ∷ []

pub name-proper : NoNul name
name-proper = (omega arith, (omega arith, (omega arith, tt)))

abbrev log_entry : ℕ → HashEntry
log_entry addr = record { name = name; addr = addr; size = 4; auto_migrate = true; var_name = name }

abbrev log_at : ℕ → Symbols
log_at addr = record { by_name = log_entry addr ∷ []; by_addr = (addr, log_entry addr) ∷ [] }

-- The cell 2000 points to the variable, the cell 2008 to the string "log".
abbrev pub written : World Ser
written = record {
  mem = λ a. if a == 2000 then 3000 else if a == 2008 then 4000 else 0;
  types = (0, entry 0 no_type) ∷ (1, entry 1 0) ∷ [];
  mappings = [];
  queues = raw_queues;
  visitcalls = 0;
  freelater = [];
  freed = [];
  user = record {
    file = [];
    symbols = log_at 3000;
    block = λ a. if a == 4000 then name ++ 0 ∷ [] else [];
  };
}

abbrev to_read : List ℕ → World Ser
to_read file = record written {
  user = record { file = file; symbols = log_at 5000; block = λ a. [] };
}

abbrev no_visit : SerialVisit
no_visit input type output w = done w

symbol_roundtrip_example :
    (serial_ptr host no_visit 2000 1 0 written
      ≡ done (false, fwrite (encode_string name) (fwrite (bytes 8 ser_symbol) written)))
    × (v' : World Ser) × (deserial_ptr host no_visit 7000 1 7000
          (to_read (bytes 8 2 ++ (encode_string name ++ [])))
        ≡ done (false, v'))
    × (v'.mem 7000 ≡ 5000)
    × (v'.user.file ≡ [])
unfolding lookup_addr lookup_key get_size find find_name same_name
symbol_roundtrip_example =
    symbol_roundtrip host no_visit no_visit 2000 1 0 7000 1 7000 name [] 5000 written
      (to_read (bytes 8 2 ++ (encode_string name ++ []))) (omega arith) refl refl name-proper
      (omega arith) refl refl

abbrev string_file : List ℕ
string_file = bytes 8 4000 ++ (encode_string name ++ [])

string_roundtrip_example :
    (serial_ptr host no_visit 2008 1 0 written
      ≡ done (false, fwrite (encode_string name) (fwrite (bytes 8 4000) written)))
    × (v' : World Ser) × (deserial_ptr host no_visit 7000 1 7000 (to_read string_file)
        ≡ done (false, v'))
    × (c_string (v'.user.block (v'.mem 7000)) ≡ some name)
    × (find_mapping 4000 v' ≡ v'.mem 7000)
    × (v'.user.file ≡ [])
unfolding lookup_addr get_size find find_mapping
string_roundtrip_example =
    string_roundtrip host no_visit no_visit 2008 1 0 7000 1 7000 name [] written
      (to_read string_file) (omega arith) (omega arith) (omega arith) refl refl refl
      (c_string-append name [] name-proper) name-proper (omega arith) refl refl
      (get_ptrtype-known written.types 1 refl)

-- 4000 has been read.
abbrev read_before : World Ser
read_before = record (to_read (bytes 8 4000 ++ [])) { mappings = (4000, 9000) ∷ [] }

-- The second pointer of the file has the value 9000, with a string of its own.
abbrev two_strings : List ℕ
two_strings =
    bytes 8 4000 ++ (encode_string name ++ (bytes 8 9000 ++ (encode_string (104 ∷ []) ++ [])))

abbrev pub bare_env : Env Ser
bare_env = record {
  program = program;
  is_parallel = false;
  run_generated = λ rec i input output t w. done w;
  perfaction_prim = λ rec input t output w. done w;
  perfaction_struct = λ rec input t output w. done (true, w);
  perfaction_ptr = λ rec input t output w. done (true, w);
  perfaction_ptr_mapped = λ rec input t lookup w. done (lookup, w);
  stack_junk = λ w. 0;
  busy = λ w. 0;
}

address_taken_for_value_example :
    (v' : World Ser) × (v'' : World Ser) × (visit_new
        (deserializer host bare_env)
        no_visit
        (entry 1 0)
        7000
        1
        7000
        (to_read two_strings)
      ≡ done v')
    × (deserial_ptr host no_visit 7008 1 7008 v' ≡ done (false, v''))
    × (v''.mem 7008 ≡ 9000)
    × (v''.user.file ≡ encode_string (104 ∷ []) ++ [])
unfolding find find_mapping
address_taken_for_value_example =
    address_taken_for_value host bare_env no_visit (entry 1 0) 7000 7008 1 1 4000 name
      (encode_string (104 ∷ []) ++ []) (to_read two_strings) (omega arith) (omega arith)
      (omega arith) (omega arith) 9000 refl (omega arith) (omega arith) (omega arith) refl refl refl
      (get_ptrtype-known written.types 1 refl)
