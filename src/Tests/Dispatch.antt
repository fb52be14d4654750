-- ===== src/Tests/Dispatch.antt =====
-- The callbacks of examples/redis-2.0.2/perfaction.assert.c with small services.
use c_strider.Prelude.{ℕ, ◌+◌, ◌≡◌, refl, true, false, [], ◌∷◌, ◌==◌, if◌then◌else◌, arith}
use c_strider.Outcome.{Outcome, done, fault}
use c_strider.Table.{find}
use c_strider.Types.{no_type, get_maintype, get_size, get_out_size}
use c_strider.Traversal.State.{Visit, store, find_mapping}
use c_strider.Redis.Dispatch.{Asserts, RedisWorld, Service, Services}
use c_strider.Redis.Dispatch.Objects.{Names, System}
use c_strider.Redis.Dispatch.Asserted.{Asserting, asserted, owned, profiled, assertions_look}
use c_strider.Traversal.Grows.{After}
use c_strider.Traversal.Still.{Still, Stays, VisitStays, same-Stays}
use c_strider.Tests.Visits.{entry, raw_queues}

-- A service that writes its number wherever it comes.
abbrev marking : ℕ → Service (Asserts ℕ)
marking n = record {
  init = λ w. done w;
  free = λ w. done w;
  prim = λ rec input t output w. done (store output n w);
  struct = λ rec input t output w. done (true, store output n w);
  ptr = λ rec input t output w. done (true, store output n w);
  ptr_mapped = λ rec input t lookup w. done (lookup + n, w);
}

abbrev four : Services (Asserts ℕ)
four = record { deserial = marking 1; serial = marking 2; update = marking 3; profile = marking 4 }

abbrev names : Names
names = record {
  type_int = 20;
  type_long = 21;
  type_long_long = 22;
  type_time_t = 23;
  type_sds = 24;
  type_list = 25;
  type_dict = 26;
  type_opaque_ptr = 27;
  type_struct_ae_file_event = 28;
  type_ae_file_event = 29;
  type_ae_file_proc = 30;
  type_redis_client_ptr = 31;
  type_struct_redis_object = 32;
  type_robj = 33;
  type_struct_dict_type = 34;
  type_struct_redis_object_vm = 35;
  type_ae_fired_event = 36;
  type_struct_dict_entry = 37;
  type_struct_dict_entry_ptr = 38;
  type_redis_client = 39;
  type_struct_redis_client = 40;
  type_struct_list_node = 41;
  type_list_node = 42;
  type_struct_ae_time_event = 43;
  type_ae_time_event = 44;
}

abbrev open_files : System
open_files = record { fcntl_getfd = λ fd. true; errno_is_ebadf = λ fd. false; time_now = 1000 }

-- An object at 2000, with a list.
abbrev redis_heap : RedisWorld ℕ
redis_heap = record {
  mem = λ a. if a == 2008 then 1 else if a == 2012 then 1 else 0;
  types = (1, entry 1 no_type) ∷ (33, entry 33 no_type) ∷ [];
  mappings = [];
  queues = raw_queues;
  visitcalls = 0;
  freelater = [];
  freed = [];
  user = record { asstcnt = 0; own = 0 };
}

abbrev no_objects : Visit (Asserts ℕ) → ℕ → RedisWorld ℕ → Outcome (RedisWorld ℕ)
no_objects rec robj w = done w

abbrev halt : Visit (Asserts ℕ)
halt input t output w = done w

object-Asserting : Asserting names 33 redis_heap.types
unfolding get_maintype find
object-Asserting = record {
  no_event = refl;
  no_opaque = refl;
  no_entry = omega arith;
  main = 33;
  main_type = refl;
  no_main_entry = omega arith;
}

redis_heap-Still : Still redis_heap
unfolding find_mapping get_out_size get_size find
redis_heap-Still = record {
  to_itself = λ k h. ground arith;
  same_size = λ t. ground arith;
  in_place = λ j i. refl;
}

-- The profiler only looks here.
abbrev looking : Services (Asserts ℕ)
looking = record four {
  profile = record (marking 4) { struct = λ rec input t output w. done (true, w) };
}

halt-Stays : VisitStays owned halt
halt-Stays a t w still = same-Stays owned w w still refl refl refl still.in_place refl

assertions_look_example :
    After
      (λ r. (asserted names open_files 33 2000 redis_heap ≡ true) × Stays owned redis_heap (r.1))
      (profiled looking names open_files no_objects no_objects 2 (λ t. 0) halt 33 2000 redis_heap)
    × (asserted names open_files 33 2000 redis_heap ≡ false
        → profiled looking names open_files no_objects no_objects 2 (λ t. 0) halt 33 2000 redis_heap
          ≡ fault)
assertions_look_example =
    assertions_look looking names open_files no_objects no_objects 2 (λ t. 0) halt 33 2000
      redis_heap object-Asserting (omega arith) redis_heap-Still halt-Stays
      (halt-Stays 2000 33 redis_heap redis_heap-Still)
