-- ===== src/Tests/Looks.antt =====
-- Traversals in place that only look.
use c_strider.Prelude.{◌≡◌, true, false, some, [], ◌∷◌, refl, arith}
use c_strider.Types.{get_size, get_out_size}
use c_strider.Table.{find, modify}
use c_strider.Traversal.{visit}
use c_strider.Traversal.State.{find_mapping}
use c_strider.Traversal.Grows.{After}
use c_strider.Traversal.Still.{Still, Stays}
use c_strider.Serial.{Ser, serializer}
use c_strider.Serial.Looks.{unwritten, writing_looks_only}
use c_strider.Queue.{init_queue}
use c_strider.Types.{no_type}
use c_strider.Symbols.{HashEntry, new_symbol}
use c_strider.Types.Init.{type_init, init_upto, init_one, initial_entry, note_pointer}
use c_strider.Lifecycle.{Runtime, RootCode, init, transform_init, launch_helpers, launch_queues}
use c_strider.Traversal.Still.{same-Stays}
use c_strider.Serial.Checkpoint.{one_thread, fopened, checkpoint, checkpoint_keeps}
use c_strider.Tests.Streams.{host, written, bare_env}
use c_strider.Tests.Visits.{rank_of}
use c_strider.Traversal.Total.{Ends, Falls}
use c_strider.Serial.Ending.{writing-Ends}
use c_strider.Counters.{counting}
use c_strider.Counters.Looks.{nothing, counting_looks_only}
use c_strider.Tests.Counts.{counted_types, no_callbacks, to_count}

written-Still : Still written
unfolding find_mapping get_out_size get_size find
written-Still = record {
  to_itself = λ k h. ground arith;
  same_size = λ t. ground arith;
  in_place = λ j i. refl;
}

to_count-Still : Still to_count
unfolding find_mapping get_out_size get_size find
to_count-Still = record {
  to_itself = λ k h. ground arith;
  same_size = λ t. ground arith;
  in_place = λ j i. refl;
}

counting_looks_only_example :
    After
      (Stays nothing to_count)
      (visit (counting counted_types no_callbacks) 2 2000 1 2000 to_count)
counting_looks_only_example =
    counting_looks_only counted_types no_callbacks 2 2000 1 to_count refl to_count-Still

abbrev counter : HashEntry
counter = record { name = 99 ∷ []; addr = 2000; size = 4; auto_migrate = true; var_name = 99 ∷ [] }

-- One generated variable, and one generated root function, for the string at 2008.
abbrev root_code : RootCode Ser
root_code = record {
  register_init = λ symbols. some (new_symbol counter symbols);
  visitalls = λ i. i;
  visit_all_len = 1;
  run_root = λ key w. visit (serializer host (one_thread bare_env)) 2 2008 1 2008 w;
}

abbrev not_started : Runtime Ser
not_started = record {
  world = record written { types = [] };
  ptsto_type_array = λ i. no_type;
  visit_all_hash = [];
  registered = [];
  symbols = record { by_name = []; by_addr = [] };
  launched_helpers = false;
}

abbrev started : Runtime Ser
started = launch_helpers (one_thread bare_env) (
    transform_init (serializer host (one_thread bare_env)) root_code
      (record (fopened [] not_started) { symbols = new_symbol counter not_started.symbols }))

started-Still : Still started.world
unfolding find_mapping get_out_size get_size find launch_helpers launch_queues transform_init
    type_init init_upto init_one initial_entry note_pointer modify init_queue
started-Still = record {
  to_itself = λ k h. ground arith;
  same_size = λ t. ground arith;
  in_place = λ j i. ground arith;
}

checkpoint_keeps_example :
    After
      (λ r'.
        (r'.world.mem ≡ not_started.world.mem)
        × (r'.world.user.block ≡ not_started.world.user.block)
        × (root_code.register_init not_started.symbols ≡ some r'.world.user.symbols))
      (checkpoint host bare_env root_code 3 2 not_started)
unfolding init launch_helpers launch_queues transform_init
checkpoint_keeps_example =
    checkpoint_keeps host bare_env root_code 3 2 not_started started
      (λ rec stays i a t w s. same-Stays unwritten w w s refl refl refl s.in_place refl)
      (λ key w s. writing_looks_only host (one_thread bare_env) 2 2008 1 w refl s) refl
      started-Still

written-Falls : Falls rank_of written.types
unfolding find
written-Falls t e known = ground (arith, known)

writing-Ends_example :
    Ends (Stays unwritten written) (visit (serializer host bare_env) 2 2008 1 2008 written)
writing-Ends_example =
    writing-Ends host bare_env rank_of refl 2 2008 1 (omega arith) written written-Falls
      written-Still
