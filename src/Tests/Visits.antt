-- ===== src/Tests/Visits.antt =====
-- The traversal of src/transform.c with a small service that copies.
use c_strider.Types.{
  TypeTable, fptr, get_num_array_elems, get_size, get_out_size, get_array_base_type,
}
use c_strider.Prelude.{
  some, List, ℕ, ◌+◌, ◌-◌, ◌*◌, ◌/◌, ◌≡◌, refl, [], ◌∷◌, ◌++◌, arith, true, false, if◌then◌else◌,
  ◌==◌,
}
use c_strider.Outcome.{Outcome, done}
use c_strider.Queue.{QueueArray, enqueue, next_free, lowest, lowest_from, push}
use c_strider.Types.Construct.{mktyparr, reuse}
use c_strider.Hash.{
  super_fast_hash, mix_word, main_loop, mix_three, mix_two, mix_one, tail, avalanche, hash_bytes,
}
use c_strider.Table.{find}
use c_strider.Types.{TypeEntry, Generated, prim, no_type}
use c_strider.Traversal.{visit}
use c_strider.Traversal.State.{World, Env, Task, find_mapping, store, split, addtoqueue}
use c_strider.Traversal.Total.{Ends, Falls, Lawful}
use c_strider.Traversal.Ends.{visit-Ends}
use c_strider.Traversal.Grows.{After, VisitGrows, KeepsMappings, same-Grows}
use c_strider.Traversal.Memo.{visit-Grows, visit_maps, IsPointer, counted}
use c_strider.Traversal.Split.{
  elements, share_tasks, tasks_elements, split_covers, enqueue_each, IsArray, visit_each,
}
use c_strider.Traversal.Arrays.{make_array_type, transform_split_array}

-- Type 0 is `int`, type 1 a pointer to it.
abbrev pub program : Generated
program = record {
  sizes_array_len = 2;
  sizes_array = λ i. if i == 0 then 4 else 8;
  target_type_array = λ i. if i == 1 then 0 else no_type;
  main_types_array = λ i. i;
  corresp_func_array = λ i. prim;
  get_num_gen_args_arr = λ i. 0;
  get_args_arr = λ i. 0;
  out_type_internal = λ i. i;
  is_prim = λ i. i == 0;
  funptr_type = 17;
}

abbrev pub entry : ℕ → ℕ → TypeEntry
entry t target = record {
  type = t;
  arrlen = 0;
  arrbase = 0;
  size = 8;
  corresp_func_ptr = prim;
  target_type = target;
  pointer_to = no_type;
  num_gen_args = 0;
  args = 0;
  maintype = t;
  out_type = t;
}

-- A service that copies what it meets to fresh addresses: `user` is the next one.
abbrev pub copier : Env ℕ
copier = record {
  program = program;
  is_parallel = false;
  run_generated = λ rec i input output t w. done w;
  perfaction_prim = λ rec input t output w. done (store output (w.mem input) w);
  perfaction_struct = λ rec input t output w. done (true, w);
  perfaction_ptr =
      λ rec input t output w. done (true, store output w.user (record w { user = w.user + 8 }));
  perfaction_ptr_mapped = λ rec input t lookup w. done (lookup, w);
  stack_junk = λ w. 0;
  busy = λ w. 0;
}

abbrev pub raw_queues : QueueArray Task
raw_queues j = record {
  content = λ i. record { input = 0; type = 0; output = 0; issplit = false };
  front = 0;
  rear = 0;
  thread_started = 0;
  count = 0;
  inflight = 0;
}

-- The cell 2000 points to the cell 3000.
abbrev pub at_start : World ℕ
at_start = record {
  mem = λ a. if a == 2000 then 3000 else 7;
  types = (1, entry 1 0) ∷ (0, entry 0 no_type) ∷ [];
  mappings = [];
  queues = raw_queues;
  visitcalls = 0;
  freelater = [];
  freed = [];
  user = 9000;
}

copier-KeepsMappings : KeepsMappings copier
copier-KeepsMappings = record {
  prim_keeps = λ rec g input t output w. same-Grows w _ refl;
  struct_keeps = λ rec g input t output w. same-Grows w _ refl;
  ptr_keeps = λ rec g input t output w. same-Grows w _ refl;
  mapped_keeps = λ rec g input t lookup w. same-Grows w _ refl;
}

visit-Grows_example : VisitGrows (visit copier 5)
visit-Grows_example = visit-Grows copier copier-KeepsMappings 5

IsPointer-type : IsPointer copier 1 at_start
unfolding find
IsPointer-type = record {
  proper = omega arith;
  composite = refl;
  entry = entry 1 0;
  known = refl;
  pointer = refl;
}

unmapped : find_mapping 3000 at_start ≡ 0
unfolding find_mapping find
unmapped = refl

abbrev copied : World ℕ
copied = store 6000 9000 (record (counted at_start) { user = 9008 })

copied_unmapped : find_mapping 3000 copied ≡ 0
unfolding find_mapping find
copied_unmapped = refl

visit_maps_example : After (λ w'. find_mapping 3000 w' ≡ 9000) (visit copier 4 2000 1 6000 at_start)
visit_maps_example =
    visit_maps copier copier-KeepsMappings 3 2000 1 6000 at_start IsPointer-type (omega arith)
      (omega arith) unmapped refl refl (omega arith) copied_unmapped

abbrev pub rank_of : ℕ → ℕ
rank_of t = if t == 1 then 1 else 0

at_start-Falls : Falls rank_of at_start.types
unfolding find
at_start-Falls t e at = record { target = λ ne. ground arith; elements = λ ne. ground arith }

copier-Lawful : Lawful rank_of copier
copier-Lawful = record {
  prim_ends = λ rec t b input output w f. f;
  struct_ends = λ rec t b input output w f. f;
  ptr_ends = λ rec t b input output w f. f;
  mapped_ends = λ rec t b input lookup w f. f;
}

visit-Ends_example : Ends (λ w'. Falls rank_of w'.types) (visit copier 2 2000 1 6000 at_start)
visit-Ends_example =
    visit-Ends rank_of copier copier-Lawful refl 2 1 (omega arith) 2000 6000 at_start at_start-Falls

abbrev outcome : World ℕ → Outcome (World ℕ) → World ℕ
outcome w (done w') = w'
outcome w r = w

-- Types 20 and 21 are arrays of five and two elements of type 0; the types of the shares, of one
-- element and of two, are made for them.
abbrev parallel_copier : Env ℕ
parallel_copier = record copier { is_parallel = true }

abbrev array_entry : ℕ → ℕ → TypeEntry
array_entry t n = record (entry t no_type) { arrlen = n; arrbase = 0 }

abbrev one_hash : ℕ
one_hash = 3976277042

abbrev two_hash : ℕ
two_hash = 4177637073

abbrev with_arrays : World ℕ
with_arrays = record at_start {
  types =
      (one_hash, array_entry one_hash 1)
      ∷ (two_hash, array_entry two_hash 2)
      ∷ (20, array_entry 20 5)
      ∷ (0, entry 0 no_type)
      ∷ [];
}

abbrev five_shares : List Task
five_shares = share_tasks one_hash 8 8 (5 / split) (split - 1) 0 1000 5000

abbrev enqueued : World ℕ
enqueued = outcome with_arrays (enqueue_each parallel_copier five_shares with_arrays)

one_made : make_array_type parallel_copier (5 / split) 0 with_arrays ≡ done (one_hash, with_arrays)
unfolding make_array_type mktyparr reuse find mix_word main_loop mix_three mix_two mix_one tail
    avalanche hash_bytes super_fast_hash
one_made = refl

tasks_enqueued : enqueue_each parallel_copier five_shares with_arrays ≡ done enqueued
unfolding enqueue_each share_tasks addtoqueue enqueue next_free lowest lowest_from push
tasks_enqueued = refl

two_made :
    make_array_type parallel_copier (5 - (split - 1) * (5 / split)) 0 enqueued
    ≡ done (two_hash, enqueued)
unfolding make_array_type mktyparr reuse find mix_word main_loop mix_three mix_two mix_one tail
    avalanche hash_bytes super_fast_hash enqueue_each share_tasks addtoqueue enqueue next_free
    lowest lowest_from push
two_made = refl

five_known : IsArray with_arrays.types 20 5 8 8 0
unfolding get_num_array_elems get_size get_out_size get_array_base_type find
five_known = record { elems = refl; in_size = refl; out_size = refl; base = refl }

two_known : IsArray enqueued.types two_hash (5 - (split - 1) * (5 / split)) 8 8 0
unfolding get_num_array_elems get_size get_out_size get_array_base_type find enqueue_each
    share_tasks addtoqueue enqueue next_free lowest lowest_from push
two_known = record { elems = refl; in_size = refl; out_size = refl; base = refl }

split_covers_example :
    (handled : List (ℕ × ℕ)) × (transform_split_array parallel_copier
        (visit copier 2)
        1000
        20
        5000
        with_arrays
      ≡ visit_each (visit copier 2) 0 handled enqueued)
    × (tasks_elements 8 8 (5 / split) five_shares ++ handled ≡ elements 8 8 5 1000 5000)
split_covers_example =
    split_covers parallel_copier (visit copier 2) 1000 20 5000 5 8 8 0 one_hash two_hash with_arrays
      with_arrays enqueued enqueued refl (omega arith) five_known one_made tasks_enqueued two_made
      two_known

abbrev function_pointer : TypeEntry
function_pointer = record (entry 3 no_type) { corresp_func_ptr = fptr }

abbrev with_function_pointer : TypeTable
with_function_pointer = (3, function_pointer) ∷ []

function_pointer_known : find 3 with_function_pointer ≡ some function_pointer
unfolding find
function_pointer_known = refl
