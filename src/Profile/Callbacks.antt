-- ===== src/Profile/Callbacks.antt =====
-- The callbacks of examples/redis-2.0.2/perfaction.c, which count types as profile.c does and visit the
-- unions of Redis themselves. `mem` has the fields that they read; a field has the offset that its
-- struct declares. `visit` takes in, type and out, and is called with the arguments as they stand.
use c_strider.Prelude.{
  ℕ, suc, ◌+◌, ◌≡◌, ◌≢◌, ◌<◌, Bool, true, false, not, ◌&&◌, ◌||◌, none, ◌==◌, if◌then◌else◌, arith,
}
use c_strider.Outcome.{Outcome, done, fault, or_fault, ◌>>=◌}
use c_strider.Table.{find}
use c_strider.Types.{no_type, get_size}
use c_strider.Traversal.{visit, visit_step}
use c_strider.Traversal.State.{World, Env, Visit}
use c_strider.Redis.{
  redis_string, redis_list, redis_set, redis_zset, redis_hash, redis_encoding_int,
}
use c_strider.Profile.{Prof, prof_add_typ, with_prof, profile_ptr, profile_ptr_mapped, profile_prim}

-- The types that are generated for Redis.
pub record RedisGenerated : Type 0 where
  pub type_int : ℕ
  pub type_unsigned_char : ℕ
  pub type_sds : ℕ
  pub type_list : ℕ
  pub type_dict : ℕ
  pub type_ae_file_event : ℕ
  pub type_struct_ae_file_event : ℕ
  pub type_ae_file_proc : ℕ
  pub type_redis_client_ptr : ℕ
  pub type_robj : ℕ
  pub type_struct_redis_object : ℕ
  pub type_struct_redis_object_vm : ℕ

module _ (g : RedisGenerated) where
  pub redis_item_union : Visit Prof → ℕ → ℕ → World Prof → Outcome (World Prof)
  redis_item_union rec input output w =
      let type = w.mem (input + 8) in
      if input == 0
      then done w
      else if type == redis_string
      then (if w.mem (input + 9) == redis_encoding_int
          then rec input output g.type_int w
          else rec input output g.type_sds w)
      else if type == redis_list
      then rec input output g.type_list w
      else if type == redis_zset || type == redis_hash || type == redis_set
      then rec input output g.type_dict w
      else done w

  -- The fields of a `struct aeFileEvent`.
  pub visit_file_event : Visit Prof → ℕ → ℕ → World Prof → Outcome (World Prof)
  visit_file_event rec ae ae_o w = do
    w1 ← rec ae g.type_int ae_o w
    w2 ← rec (ae + 8) g.type_ae_file_proc (ae_o + 8) w1
    w3 ← rec (ae + 16) g.type_ae_file_proc (ae_o + 16) w2
    if not (w3.mem ae == 0) && not (w3.mem (ae + 24) == 0)
        then rec (ae + 24) g.type_redis_client_ptr (ae_o + 24) w3
        else done w3

  -- The fields of an object, in place.
  pub visit_robj : Visit Prof → ℕ → World Prof → Outcome (World Prof)
  visit_robj rec robj w = if robj == 0 then done w else (do
    w1 ← rec (robj + 8) g.type_unsigned_char (robj + 8) w
    w2 ← rec (robj + 9) g.type_unsigned_char (robj + 9) w1
    w3 ← rec (robj + 10) g.type_unsigned_char (robj + 10) w2
    w4 ← rec (robj + 11) g.type_unsigned_char (robj + 11) w3
    w5 ← rec (robj + 12) g.type_int (robj + 12) w4
    w6 ← rec (robj + 16) g.type_struct_redis_object_vm (robj + 16) w5
    redis_item_union rec robj robj w6)

  pub perfaction_struct : Visit Prof → ℕ → ℕ → ℕ → World Prof → Outcome (Bool × World Prof)
  perfaction_struct rec input type output w =
      if type == g.type_struct_ae_file_event || type == g.type_ae_file_event
      then (visit_file_event rec input output w >>= λ w'. done (false, w'))
      else if type == g.type_struct_redis_object || type == g.type_robj
      then (visit_robj rec input w >>= λ w'. done (false, w'))
      else (or_fault (get_size w.types type) >>= λ sz.
          done (true, with_prof (prof_add_typ type false sz w.user) w))

  -- `funs`
  abbrev pub redis_funs : Env Prof → Env Prof
  redis_funs env = record env {
    perfaction_prim = profile_prim;
    perfaction_struct = perfaction_struct;
    perfaction_ptr = profile_ptr;
    perfaction_ptr_mapped = profile_ptr_mapped;
  }

  -- A visit of what is no type.
  visit_unknown :
      (env : Env Prof) (depth input type output : ℕ) (w : World Prof)
      → type ≢ no_type
      → env.program.is_prim type ≡ false
      → find type w.types ≡ none
      → visit env (suc depth) input type output w ≡ fault
  unfolding visit visit_step
  visit_unknown env depth input type output w proper no_prim unknown =
      let known : (type == no_type) ≡ false = ground arith in rw (known, no_prim, unknown)

  redis_item_union-fault :
      (rec : Visit Prof) (input output : ℕ) (w : World Prof)
      → input ≢ 0
      → w.mem (input + 8) < 5
      → ((t : ℕ) → rec input output t w ≡ fault)
      → redis_item_union rec input output w ≡ fault
  unfolding redis_item_union
  redis_item_union-fault rec input output w live kind lost =
      ground (arith, lost g.type_int, lost g.type_sds, lost g.type_list, lost g.type_dict)

  -- The target of an object of any of the five kinds is not visited: `visit` gets the address of `ptr`
  -- as the type, and where that is not the number of a type, the traversal faults.
  pub redis_item_union_faults :
      (env : Env Prof) (depth input output : ℕ) (w : World Prof)
      → input ≢ 0
      → w.mem (input + 8) < 5
      → output ≢ no_type
      → env.program.is_prim output ≡ false
      → find output w.types ≡ none
      → redis_item_union (visit env (suc depth)) input output w ≡ fault
  redis_item_union_faults env depth input output w live kind proper no_prim unknown =
      redis_item_union-fault (visit env (suc depth)) input output w live kind
        (λ t. visit_unknown env depth input output t w proper no_prim unknown)
