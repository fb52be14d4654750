-- ===== src/Tests/Services.antt =====
-- The service of examples/redis-2.0.2/update.c on an object that grows.
use c_strider.Prelude.{ℕ, ◌≡◌, ◌≢◌, refl, arith, true, false, none, [], ◌∷◌, ◌==◌, if◌then◌else◌}
use c_strider.Outcome.{done}
use c_strider.Table.{find}
use c_strider.Types.{TypeEntry, no_type, get_size, get_out_size}
use c_strider.Traversal.{visit_new, visit_ptr}
use c_strider.Traversal.State.{World, Env, Visit, find_mapping, store}
use c_strider.Traversal.Grows.{Grows}
use c_strider.Update.{Versions, Blocks, update_prim, updater}
use c_strider.Update.Grown.{grown_stays}
use c_strider.Profile.Callbacks.{}
use c_strider.Tests.Visits.{program, entry, raw_queues}

-- Type 2 is a pointer to type 0, which has a size of 8 in the old version and 16 in the new one.
abbrev versions : Versions
versions = record {
  lookup_addr_old = λ a. none;
  lookup_key_new = λ s. none;
  malloc = λ w n. 9000;
  copy = λ n from to. from;
}

abbrev pointer : TypeEntry
pointer = entry 2 0

abbrev two_pointers : World Blocks
two_pointers = record {
  mem = λ a. if a == 2000 then 3000 else if a == 2008 then 3000 else 0;
  types =
      (2, pointer)
      ∷ (0, record (entry 0 no_type) { out_type = 3 })
      ∷ (3, record (entry 3 no_type) { size = 16 })
      ∷ [];
  mappings = [];
  queues = raw_queues;
  visitcalls = 0;
  freelater = [];
  freed = [];
  user = λ a. [];
}

abbrev bare : Env Blocks
bare = record {
  program = program;
  is_parallel = false;
  run_generated = λ rec i input output t w. done w;
  perfaction_prim = λ rec input t output w. done w;
  perfaction_struct = λ rec input t output w. done (true, w);
  perfaction_ptr = λ rec input t output w. done (true, w);
  perfaction_ptr_mapped = λ rec input t lookup w. done (lookup, w);
  stack_junk = λ w. 0;
  busy = λ w. 0;
}

abbrev stay : Visit Blocks
stay input type output w = done w

grown_stays_example :
    (w1 : World Blocks) × (visit_new (updater versions bare) stay pointer 2000 2 7000 two_pointers
      ≡ stay 3000 0 3000 w1)
    × (w1.freelater ≡ [])
    × (w1.user ≡ two_pointers.user)
    × (w1.mem 7000 ≡ 3000)
    × (update_prim versions stay 3000 0 3000 w1 ≡ done w1)
    × ((input' type' output' : ℕ) (w2 : World Blocks)
        → Grows w1 w2
        → input' ≢ 0
        → w2.mem input' ≡ 3000
        → visit_ptr (updater versions bare) stay pointer input' type' output' w2
          ≡ done (store output' 3000 w2))
unfolding find get_size get_out_size find_mapping
grown_stays_example =
    grown_stays versions bare stay pointer 2000 2 7000 8 two_pointers (omega arith) refl refl refl
      refl refl
