-- ===== src/Counters.antt =====
-- The service of examples/heap_profile/profile.c, which counts what it meets of a few types. A
-- counter, an `int`, is its bit pattern below 2^32. The types of the traversed program, and where the
-- fields of its struct `baz` are, are the record Counted; a read through NULL is a fault.
pub mod Pointers
pub mod Looks
use c_strider.Prelude.{ℕ, ◌+◌, ◌%◌, ◌^◌, Bool, true, false, ◌==◌, if◌then◌else◌}
use c_strider.Outcome.{Outcome, done, fault, or_fault, ◌>>=◌}
use c_strider.Types.{get_maintype}
use c_strider.Traversal.State.{World, Env, Visit}

pub record Counted : Type 0 where
  pub type_int : ℕ
  pub type_char : ℕ
  pub type_baz_ptr : ℕ
  pub type_fptr_ll_ptr : ℕ
  pub type_fptr_ll : ℕ
  pub type_list_ptr : ℕ
  pub type_dummy_ptr : ℕ
  pub type_sds : ℕ
  pub type_dummy : ℕ
  pub baz_len : ℕ
  pub baz_stupid : ℕ

pub record Counters : Type 0 where
  pub num_fptr_ll : ℕ
  pub num_dummy : ℕ
  pub num_sds : ℕ
  pub num_int : ℕ
  pub num_list : ℕ
  pub num_ptr : ℕ
  pub num_char : ℕ
  pub num_fptr_ll_pointers : ℕ
  pub num_dummy_dups : ℕ

abbrev pub profile_init : Counters → Counters
profile_init c = record {
  num_fptr_ll = 0;
  num_dummy = 0;
  num_sds = 0;
  num_int = 0;
  num_list = 0;
  num_ptr = 0;
  num_char = 0;
  num_fptr_ll_pointers = 0;
  num_dummy_dups = 0;
}

-- `n++` if the test holds
unfoldable pub count_if : Bool → ℕ → ℕ
count_if b n = if b then (n + 1) % 2 ^ 32 else n

abbrev pub with_counters : Counters → World Counters → World Counters
with_counters c w = record w { user = c }

module _ (ts : Counted) where
  -- The rest of `profile_ptr`, for what is no `baz`.
  pub count_pointer : ℕ → World Counters → Outcome (World Counters)
  count_pointer type w = or_fault (get_maintype w.types type) >>= λ main. done (
      with_counters
        (record w.user {
          num_list = count_if (main == ts.type_list_ptr) w.user.num_list;
          num_fptr_ll_pointers = count_if (type == ts.type_fptr_ll_ptr) w.user.num_fptr_ll_pointers;
        })
        w)

  -- The fields of a `baz`, visited in place.
  pub visit_baz : Visit Counters → ℕ → World Counters → Outcome (World Counters)
  visit_baz rec local_in w = do
    w1 ← rec (local_in + ts.baz_len) ts.type_int (local_in + ts.baz_len) w
    if local_in == 0
        then fault
        else rec (local_in + ts.baz_stupid) ts.type_fptr_ll_ptr (local_in + ts.baz_stupid) w1

  pub profile_ptr : Visit Counters → ℕ → ℕ → ℕ → World Counters → Outcome (Bool × World Counters)
  profile_ptr rec input type output w =
      let w1 = with_counters (record w.user { num_ptr = count_if true w.user.num_ptr }) w in
      if type == ts.type_baz_ptr
      then (visit_baz rec (w1.mem input) w1 >>= λ w2. done (false, w2))
      else (count_pointer type w1 >>= λ w2. done (true, w2))

  pub profile_ptr_mapped :
      Visit Counters → ℕ → ℕ → ℕ → World Counters → Outcome (ℕ × World Counters)
  profile_ptr_mapped rec input type lookup w = done (
    lookup,
    with_counters
        (record w.user {
          num_fptr_ll_pointers = count_if (type == ts.type_fptr_ll_ptr) w.user.num_fptr_ll_pointers;
          num_dummy_dups = count_if (type == ts.type_dummy_ptr) w.user.num_dummy_dups;
        })
        w,
  )

  pub profile_prim : Visit Counters → Visit Counters
  profile_prim rec input type output w = done (
      with_counters
        (record w.user {
          num_char = count_if (type == ts.type_char) w.user.num_char;
          num_int = count_if (type == ts.type_int) w.user.num_int;
        })
        w)

  pub profile_struct : Visit Counters → ℕ → ℕ → ℕ → World Counters → Outcome (Bool × World Counters)
  profile_struct rec input type output w = done (
    true,
    with_counters
        (record w.user {
          num_dummy = count_if (type == ts.type_dummy) w.user.num_dummy;
          num_fptr_ll = count_if (type == ts.type_fptr_ll) w.user.num_fptr_ll;
          num_sds = count_if (type == ts.type_sds) w.user.num_sds;
        })
        w,
  )

  -- `funs`
  abbrev pub counting : Env Counters → Env Counters
  counting env = record env {
    perfaction_prim = profile_prim;
    perfaction_struct = profile_struct;
    perfaction_ptr = profile_ptr;
    perfaction_ptr_mapped = profile_ptr_mapped;
  }
