-- ===== src/Tests/Chains.antt =====
-- The service of examples/heap_serialize/serial.c on a pointer to a pointer to an int.
use c_strider.Prelude.{
  ltb, false, ℕ, ◌+◌, ◌*◌, ◌<◌, ◌≡◌, ◌≢◌, refl, arith, List, [], ◌∷◌, ◌++◌, ◌==◌, if◌then◌else◌,
  length,
}
use c_strider.Outcome.{done}
use c_strider.Table.{find}
use c_strider.Types.{TypeEntry, Generated, no_type, get_size}
use c_strider.Symbols.{lookup_addr}
use c_strider.Traversal.{visit}
use c_strider.Traversal.State.{World, Env, find_mapping, add_mapping}
use c_strider.Serial.{Ser, Host, take_bytes, serializer, deserializer}
use c_strider.Types.Construct.{bytes}
use c_strider.Serial.{from_bytes}
use c_strider.Serial.Union.{
  UnionTypes, serialize, deserialize, s_d_prog_struct, prog_serializer, prog_deserializer,
}
use c_strider.Serial.Union.RoundTrip.{Prims, union_roundtrip}
use c_strider.Serial.Chain.{Known, Tower, PointsTo, chain_file, Allocator}
use c_strider.Serial.Chain.RoundTrip.{chain_roundtrip}
use c_strider.Tests.Visits.{program, entry, raw_queues}
use c_strider.Tests.Streams.{bare_env}

-- Each mapping that is made stands for a block that has been allocated.
abbrev frontier : World Ser → ℕ
frontier w = 100000 + 8 * length w.mappings

abbrev bump_host : Host
bump_host = record {
  type_opaque_ptr = 16;
  type_char_nt = 17;
  type_char_nt_ptr = 18;
  malloc = λ w n. frontier w;
}

abbrev Below : World Ser → ℕ → Type 0
Below w a = a < frontier w

add_mapping-frontier :
    (p c : ℕ) (w : World Ser)
    → p ≢ 0
    → find_mapping p w ≡ 0
    → frontier (add_mapping p c w) ≡ frontier w + 8
unfolding add_mapping
add_mapping-frontier p c w live new = ground arith

bump_malloc : Allocator bump_host (λ w. Unit) Below
bump_malloc = record {
  not_null = λ w n. omega arith;
  fresh = λ w n a ready live e. ground arith;
  taken = λ w n p b ready live proper new.
      (let more = add_mapping-frontier p (frontier w) w proper new in
        (tt, omega arith, λ a h. omega arith));
  after_read = λ w left count ready. (tt, λ a live. live);
}

-- Type 1 is a pointer to type 0, which is primitive, and type 2 a pointer to type 1.
abbrev heap : (ℕ → ℕ) → List ℕ → (ℕ → List ℕ) → World Ser
heap mem file block = record {
  mem = mem;
  types = (0, entry 0 no_type) ∷ (1, entry 1 0) ∷ (2, entry 2 1) ∷ [];
  mappings = [];
  queues = raw_queues;
  visitcalls = 0;
  freelater = [];
  freed = [];
  user = record { file = file; symbols = record { by_name = []; by_addr = [] }; block = block };
}

abbrev number : List ℕ
number = 7 ∷ 0 ∷ 0 ∷ 0 ∷ 0 ∷ 0 ∷ 0 ∷ 0 ∷ []

-- The cell 2000 points to 3000, and that to the number at 4000.
abbrev old_heap : World Ser
old_heap =
    heap (λ a. if a == 2000 then 3000 else if a == 3000 then 4000 else 0) []
      (λ a. if a == 4000 then number else [])

abbrev old_trail : List ℕ
old_trail = 3000 ∷ 4000 ∷ []

-- All memory has 77 left over.
abbrev new_heap : World Ser
new_heap = heap (λ a. 77) (chain_file old_trail number ++ 9 ∷ []) (λ a. [])

double : PointsTo program bump_host old_heap.types 2 1
unfolding find
double = record {
  known = record {
    entry = entry 2 1;
    found = refl;
    sized = refl;
    single = refl;
    is_type = omega arith;
  };
  compound = refl;
  pointer = refl;
  object = refl;
  target = refl;
  no_string_ptr = omega arith;
  no_string = omega arith;
}

single : PointsTo program bump_host old_heap.types 1 0
unfolding find
single = record {
  known = record {
    entry = entry 1 0;
    found = refl;
    sized = refl;
    single = refl;
    is_type = omega arith;
  };
  compound = refl;
  pointer = refl;
  object = refl;
  target = refl;
  no_string_ptr = omega arith;
  no_string = omega arith;
}

value : Known old_heap.types 0 8
unfolding find
value = record {
  entry = entry 0 no_type;
  found = refl;
  sized = refl;
  single = refl;
  is_type = omega arith;
}

tower : Tower program bump_host old_heap.types 8 2 2
tower = (1, double, (0, single, (refl, value)))

chain_roundtrip_example :
    (w' v' : World Ser) × (visit (serializer bump_host bare_env) 3 2000 2 2000 old_heap ≡ done w')
    × (w'.user.file ≡ chain_file old_trail number)
    × (visit (deserializer bump_host bare_env) 3 2000 2 2000 new_heap ≡ done v')
    × (v'.user.file ≡ 9 ∷ [])
    × (v'.user.block (v'.mem (v'.mem 2000)) ≡ number)
    × ((x : ℕ) → x < 100000 → x ≢ 2000 → v'.mem x ≡ 77)
unfolding lookup_addr find take_bytes find_mapping
chain_roundtrip_example =
    chain_roundtrip bump_host bump_host bare_env bare_env bump_malloc 2 3 3 2000 2000 2 2 8 number
      [] (9 ∷ []) old_heap new_heap tower tower (omega arith) (omega arith) (omega arith)
      (
        omega arith,
        omega arith,
        omega arith,
        refl,
        (omega arith, omega arith, omega arith, refl, tt),
      )
      ((omega arith, tt), (tt, tt)) (refl, (refl, tt)) refl tt (omega arith) (omega arith) refl
      (λ x dead. (refl, (omega arith, (omega arith, tt)))) (refl, (refl, tt)) refl

-- Types 0 and 1 are `int` and `char`, and a union of type 2 has the member `x` with the value 9.
abbrev union_types : UnionTypes
union_types = record { type_struct_tagged_union = 2; type_int = 0; type_char = 1 }

abbrev union_program : Generated
union_program = record program { is_prim = λ t. ltb t 2 }

abbrev union_env : Env Ser
union_env = record bare_env { program = union_program }

abbrev sized_entry : ℕ → ℕ → TypeEntry
sized_entry t size = record (entry t no_type) { size = size }

abbrev union_heap : List ℕ → (ℕ → List ℕ) → World Ser
union_heap file block = record (heap (λ a. 0) file block) {
  types = (0, sized_entry 0 4) ∷ (1, sized_entry 1 1) ∷ (2, sized_entry 2 8) ∷ [];
}

abbrev old_union : World Ser
old_union =
    union_heap [] (λ a. if a == 3000 then bytes 4 1 else if a == 3004 then bytes 4 9 else [])

abbrev new_union : World Ser
new_union = union_heap (bytes 4 1 ++ (bytes 4 9 ++ 7 ∷ [])) (λ a. [])

union_types-Prims : Prims union_types union_program old_union.types
unfolding get_size find
union_types-Prims = record {
  int_is_type = omega arith;
  char_is_type = omega arith;
  int_prim = refl;
  char_prim = refl;
  int_size = refl;
  char_size = refl;
}

union_roundtrip_example :
    (w' v' : World Ser) × (s_d_prog_struct union_types serialize
        (visit (prog_serializer union_types serialize bump_host union_env) 1)
        3000
        2
        3000
        old_union
      ≡ done (false, w'))
    × (w'.user.file ≡ bytes 4 1 ++ bytes 4 9)
    × (s_d_prog_struct union_types deserialize
          (visit (prog_deserializer union_types deserialize bump_host union_env) 1)
          5000
          2
          5000
          new_union
        ≡ done (false, v'))
    × (v'.user.block 5000 ≡ bytes 4 1)
    × (v'.user.block 5004 ≡ bytes 4 9)
    × (v'.user.file ≡ 7 ∷ [])
unfolding take_bytes from_bytes
union_roundtrip_example =
    union_roundtrip union_types bump_host bump_host union_env union_env 0 0 3000 5000 (bytes 4 1)
      (bytes 4 9) [] (7 ∷ []) old_union new_union union_types-Prims union_types-Prims refl refl refl
      refl
