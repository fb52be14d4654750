-- ===== src/Tests/Tables.antt =====
-- The type table, the hash and the roots of src/cstrider_api.c on concrete data.
use c_strider.Prelude.{
  ℕ, ◌+◌, ◌<◌, ◌≤◌, ◌≡◌, ◌≢◌, ◌^◌, refl, some, none, List, [], ◌∷◌, ◌++◌, arith, if◌then◌else◌,
  ◌==◌,
}
use c_strider.Hash.{
  mix_word, main_loop, mix_three, mix_two, mix_one, tail, avalanche, hash_bytes, super_fast_hash,
}
use c_strider.Hash.Reads.{super_fast_hash_lem}
use c_strider.Table.{find}
use c_strider.Outcome.{out_of_fuel}
use c_strider.Types.{
  TypeEntry, TypeTable, Generated, prim, no_type, get_ptrtype, get_num_array_elems,
  get_array_base_type,
}
use c_strider.Types.Init.{initial_entry, last_pointer, type_init, type_init_lem}
use c_strider.Types.Construct.{arr_key, mktypptr, mktyparr}
use c_strider.Types.Construct.Pointers.{Keyed, mktypptr_lem}
use c_strider.Types.Construct.Arrays.{mktyparr_lem, mktyparr_padding}
use c_strider.Types.Generic.{FallsAlongTargets, mktypfromgenargs, mktypfromgenargs-ends}
use c_strider.Roots.{Registered, register_root, deregister_root}
use c_strider.Roots.Registered.{deregister_root-register_root}

abbrev five_bytes : List ℕ
five_bytes = 104 ∷ 101 ∷ 108 ∷ 108 ∷ 200 ∷ []

-- The last byte is negative as a `signed char`.
five_bytes_hash : super_fast_hash (some five_bytes) 5 ≡ some 1100621155
unfolding mix_word main_loop mix_three mix_two mix_one tail avalanche hash_bytes super_fast_hash
five_bytes_hash = refl

super_fast_hash_lem_example :
    (h : ℕ) × (super_fast_hash (some five_bytes) 5 ≡ some h)
    × (super_fast_hash (some (five_bytes ++ (7 ∷ []))) 5 ≡ some h)
    × (h < 2 ^ 32)
super_fast_hash_lem_example = super_fast_hash_lem five_bytes (7 ∷ []) (omega arith) (omega arith)

-- Type 0 is `int`, type 1 a pointer to it.
abbrev program : Generated
program = record {
  sizes_array_len = 2;
  sizes_array = λ i. if i == 0 then 4 else 8;
  target_type_array = λ i. if i == 1 then 0 else no_type;
  main_types_array = λ i. i;
  corresp_func_array = λ i. prim;
  get_num_gen_args_arr = λ i. 0;
  get_args_arr = λ i. 0;
  out_type_internal = λ i. i;
  is_prim = λ i. i == 0;
  funptr_type = 17;
}

abbrev no_pointers : ℕ → ℕ
no_pointers i = no_type

abbrev int_type : TypeEntry
int_type = initial_entry program 0 1

abbrev int_ptr_type : TypeEntry
int_ptr_type = initial_entry program 1 no_type

abbrev two_types : TypeTable
two_types = (1, int_ptr_type) ∷ (0, int_type) ∷ []

type_init_lem_example :
    ((i : ℕ)
      → i < 2
      → find i (type_init program ([], no_pointers)).0
        ≡ some (initial_entry program i (last_pointer program no_pointers 2 i)))
    × ((i : ℕ) → 2 ≤ i → find i (type_init program ([], no_pointers)).0 ≡ none)
type_init_lem_example = type_init_lem program no_pointers (omega arith)

two_types-Keyed : Keyed two_types
unfolding find initial_entry
two_types-Keyed k e at = ground arith

int_known : find 0 two_types ≡ some int_type
unfolding find
int_known = refl

mktypptr_lem_example :
    (ptr : ℕ) × (after : TypeTable) × (mktypptr 0 two_types ≡ some (ptr, after))
    × (get_ptrtype after ptr ≡ some 0)
    × (mktypptr 0 after ≡ some (ptr, after))
    × ((k : ℕ) → k ≢ ptr → k ≢ 0 → find k after ≡ find k two_types)
    × Keyed after
mktypptr_lem_example = mktypptr_lem 0 two_types two_types-Keyed int_known

mktyparr_lem_example :
    (arr : ℕ) × (after : TypeTable) × (mktyparr 9 3 0 two_types ≡ some (arr, after))
    × (get_num_array_elems after arr ≡ some 3)
    × (get_array_base_type after arr ≡ some 0)
    × (mktyparr 9 3 0 after ≡ some (arr, after))
    × ((k : ℕ) → k ≢ arr → find k after ≡ find k two_types)
    × Keyed after
mktyparr_lem_example = mktyparr_lem 9 3 0 two_types two_types-Keyed int_known

arr_hash_0 : super_fast_hash (some (arr_key 0 3 0)) 16 ≡ some 48252154
unfolding mix_word main_loop mix_three mix_two mix_one tail avalanche hash_bytes super_fast_hash
arr_hash_0 = refl

arr_hash_1 : super_fast_hash (some (arr_key 1 3 0)) 16 ≡ some 4141148366
unfolding mix_word main_loop mix_three mix_two mix_one tail avalanche hash_bytes super_fast_hash
arr_hash_1 = refl

mktyparr_padding_example :
    (after : TypeTable) × (after' : TypeTable) × (mktyparr 0 3 0 two_types ≡ some (48252154, after))
    × (mktyparr 1 3 0 after ≡ some (4141148366, after'))
    × (get_num_array_elems after' 48252154 ≡ some 3)
    × (get_array_base_type after' 48252154 ≡ some 0)
    × (get_num_array_elems after' 4141148366 ≡ some 3)
    × (get_array_base_type after' 4141148366 ≡ some 0)
mktyparr_padding_example =
    mktyparr_padding 0 1 3 0 two_types two_types-Keyed int_known arr_hash_0 arr_hash_1 (omega arith)
      (omega arith)

abbrev rank_of : ℕ → ℕ
rank_of t = if t == 1 then 1 else 0

two_types-FallsAlongTargets : FallsAlongTargets rank_of two_types
unfolding find initial_entry
two_types-FallsAlongTargets t e at ne = ground arith

mktypfromgenargs-ends_example : mktypfromgenargs 2 (λ t. 0) 1 1 64 two_types ≢ out_of_fuel
mktypfromgenargs-ends_example =
    mktypfromgenargs-ends rank_of two_types two_types-FallsAlongTargets 2 (λ t. 0) 1 1 64
      (omega arith)

-- Each cell holds an address 1000 further on, and the cell 5000 the address 4000.
abbrev memory : ℕ → ℕ
memory a = if a == 5000 then 4000 else a + 1000

abbrev one_root : Registered
one_root = (2000, 1) ∷ []

no_root : find (memory 4000) one_root ≡ none
unfolding find
no_root = refl

deregister_root-register_root_example :
    (find 4000 (register_root memory 4000 1 one_root) ≡ some 1)
    × (deregister_root 4000 (register_root memory 4000 1 one_root) ≡ one_root)
deregister_root-register_root_example = deregister_root-register_root memory 4000 1 one_root no_root
