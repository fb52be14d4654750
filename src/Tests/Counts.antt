-- ===== src/Tests/Counts.antt =====
-- The counting services of examples/redis-2.0.2 and examples/heap_profile on small heaps.
use c_strider.Prelude.{
  ℕ, Bool, ◌-◌, ◌^◌, ◌≡◌, refl, arith, true, false, List, [], ◌∷◌, ◌==◌, if◌then◌else◌,
}
use c_strider.Outcome.{done, fault}
use c_strider.Table.{find}
use c_strider.Types.{TypeTable, no_type, is_array, get_ptrtype, get_maintype}
use c_strider.Traversal.{visit}
use c_strider.Traversal.State.{World, Env, Visit}
use c_strider.Profile.{Prof, profile_init, profile_free, base_type}
use c_strider.Profile.Counts.{Call, add_all, counted, occurrences, prof_add_typ_lem}
use c_strider.Profile.Printer.{LogRecord, logprinter, line}
use c_strider.Profile.Written.{records}
use c_strider.Profile.Printed.{profile_printed}
use c_strider.Profile.Callbacks.{
  RedisGenerated, redis_item_union, redis_funs, redis_item_union_faults,
}
use c_strider.Counters.{Counted, Counters}
use c_strider.Tests.Visits.{program, entry, raw_queues}

abbrev three_calls : List Call
three_calls = (1, (true, 0)) ∷ (0, (false, 0)) ∷ (1, (true, 0)) ∷ []

prof_add_typ_lem_example :
    counted 1 (add_all three_calls (profile_init (record { type_counts = []; prof = [] })))
    ≡ occurrences 1 three_calls
prof_add_typ_lem_example = prof_add_typ_lem 1 three_calls [] (omega arith) (omega arith)

abbrev two_types : TypeTable
two_types = (1, entry 1 0) ∷ (0, entry 0 no_type) ∷ []

abbrev two_counts : Prof
two_counts = record {
  type_counts =
      (0, record { count = 1; isptr = false; size = 0 })
      ∷ (1, record { count = 2; isptr = true; size = 0 })
      ∷ (no_type, record { count = 2 ^ 32 - 1; isptr = false; size = 0 })
      ∷ [];
  prof = [];
}

abbrev int_is_base : ℕ → Bool → ℕ
int_is_base t isptr = 0

abbrev unset : LogRecord
unset = record { count = 5; typ = 5; maintyp = 5; sz = 5 }

abbrev pointers : LogRecord
pointers = record { count = 2; typ = 1; maintyp = 0; sz = 0 }

abbrev ints : LogRecord
ints = record { count = 1; typ = 0; maintyp = 0; sz = 0 }

profile_printed_example :
    (p' : Prof) × (profile_free two_types two_counts ≡ done p')
    × (logprinter 9 4 unset p'.prof ≡ done (line pointers ∷ line ints ∷ line ints ∷ [], 0))
unfolding find base_type is_array get_ptrtype get_maintype records
profile_printed_example =
    profile_printed two_types int_is_base 9 unset two_counts
      ((λ h. absurd (h refl)), ((λ h. refl), ((λ h. refl), tt)))
      (
        omega arith,
        omega arith,
        omega arith,
        omega arith,
        (omega arith, omega arith, omega arith, omega arith, tt),
      )

abbrev pub counted_types : Counted
counted_types = record {
  type_int = 10;
  type_char = 11;
  type_baz_ptr = 12;
  type_fptr_ll_ptr = 1;
  type_fptr_ll = 0;
  type_list_ptr = 13;
  type_dummy_ptr = 14;
  type_sds = 15;
  type_dummy = 16;
  baz_len = 0;
  baz_stupid = 8;
}

abbrev pub to_count : World Counters
to_count = record {
  mem = λ a. if a == 2000 then 3000 else 0;
  types = two_types;
  mappings = [];
  queues = raw_queues;
  visitcalls = 0;
  freelater = [];
  freed = [];
  user = record {
    num_fptr_ll = 0;
    num_dummy = 0;
    num_sds = 0;
    num_int = 0;
    num_list = 0;
    num_ptr = 4;
    num_char = 0;
    num_fptr_ll_pointers = 2;
    num_dummy_dups = 0;
  };
}

abbrev pub no_callbacks : Env Counters
no_callbacks = record {
  program = program;
  is_parallel = false;
  run_generated = λ rec i input output t w. done w;
  perfaction_prim = λ rec input t output w. done w;
  perfaction_struct = λ rec input t output w. done (true, w);
  perfaction_ptr = λ rec input t output w. done (true, w);
  perfaction_ptr_mapped = λ rec input t lookup w. done (lookup, w);
  stack_junk = λ w. 0;
  busy = λ w. 0;
}

abbrev halt : Visit Counters
halt input type output w = done w

abbrev redis_types : RedisGenerated
redis_types = record {
  type_int = 0;
  type_unsigned_char = 0;
  type_sds = 1;
  type_list = 1;
  type_dict = 1;
  type_ae_file_event = 20;
  type_struct_ae_file_event = 21;
  type_ae_file_proc = 22;
  type_redis_client_ptr = 23;
  type_robj = 24;
  type_struct_redis_object = 25;
  type_struct_redis_object_vm = 26;
}

-- A list object at 6100.
abbrev with_robj : World Prof
with_robj = record {
  mem = λ a. if a == 6100 then 3000 else if a == 6108 then 1 else 0;
  types = two_types;
  mappings = [];
  queues = raw_queues;
  visitcalls = 0;
  freelater = [];
  freed = [];
  user = two_counts;
}

abbrev no_env : Env Prof
no_env = record {
  program = program;
  is_parallel = false;
  run_generated = λ rec i input output t w. done w;
  perfaction_prim = λ rec input t output w. done w;
  perfaction_struct = λ rec input t output w. done (true, w);
  perfaction_ptr = λ rec input t output w. done (true, w);
  perfaction_ptr_mapped = λ rec input t lookup w. done (lookup, w);
  stack_junk = λ w. 0;
  busy = λ w. 0;
}

redis_item_union_faults_example :
    redis_item_union redis_types (visit (redis_funs redis_types no_env) 8) 6100 6100 with_robj
    ≡ fault
unfolding find
redis_item_union_faults_example =
    redis_item_union_faults redis_types (redis_funs redis_types no_env) 7 6100 6100 with_robj
      (omega arith) (omega arith) (omega arith) refl refl
