-- ===== src/Redis/Dispatch/Struct.antt =====
-- `perfaction_struct` of examples/redis-2.0.2/perfaction.assert.c: what is done with the structs of Redis,
-- by the service that runs. What it reads and writes of an object itself is `read_robj` and
-- `write_robj`, which the module Redis has for the files of Serial.
use c_strider.Prelude.{ℕ, ◌+◌, Bool, true, false, ◌||◌, ◌==◌, if◌then◌else◌}
use c_strider.Outcome.{Outcome, done, or_fault, ◌>>=◌}
use c_strider.Types.{get_maintype, get_generic_args}
use c_strider.Types.Generic.{mktypfromgenargs}
use c_strider.Traversal.State.{Env, Visit}
use c_strider.Redis.{}
use c_strider.Redis.Dispatch.{
  Modes, Asserts, RedisWorld, Services, perfaction_prim, perfaction_ptr, perfaction_ptr_mapped,
}
use c_strider.Redis.Dispatch.Objects.{
  Names, System, stop, is_file_event, is_robj, is_opaque, is_client, is_list_node, is_time_event,
  item_union, file_event, assert_robj, assert_client, assert_node, assert_time_event,
}

-- `depth` is the fuel of `mktypfromgenargs`, and `pad` its argument.
module _ {U : Type 0} (k : Modes) (s : Services (Asserts U)) (n : Names) (sys : System)
    (read_robj write_robj : Visit (Asserts U) → ℕ → RedisWorld U → Outcome (RedisWorld U))
    (depth : ℕ) (pad : ℕ → ℕ) where
  -- An entry of a dict: its key and its value are no pointers here, the next entry is visited.
  unfoldable pub dict_entry : Visit (Asserts U) → ℕ → ℕ → ℕ → RedisWorld U → Outcome (RedisWorld U)
  dict_entry rec input type output w = do
    w1 ← perfaction_prim k s rec input n.type_opaque_ptr output w
    w2 ← perfaction_prim k s rec (input + 8) n.type_opaque_ptr (output + 8) w1
    args ← or_fault (get_generic_args w2.types type)
    r ← mktypfromgenargs depth pad n.type_struct_dict_entry_ptr 2 args w2.types
    rec (input + 16) (r.0) (output + 16) (record w2 { types = r.1 })

  -- `type == TYPE_STRUCT_dictEntry || cstrider_get_maintype(type) == TYPE_STRUCT_dictEntry`
  unfoldable pub is_dict_entry : ℕ → RedisWorld U → Outcome Bool
  is_dict_entry type w =
      if type == n.type_struct_dict_entry
      then done true
      else or_fault (get_maintype w.types type) >>= λ m. done (m == n.type_struct_dict_entry)

  -- When objects are moved to a new version.
  unfoldable pub dsu_struct :
      Visit (Asserts U) → ℕ → ℕ → ℕ → RedisWorld U → Outcome (Bool × RedisWorld U)
  dsu_struct rec input type output w = or_fault (get_maintype w.types type) >>= λ m.
      (if m == n.type_struct_dict_type || is_opaque n type
        then done (false, w)
        else is_dict_entry type w >>= λ dict.
            (if dict
              then stop (dict_entry rec input type output w)
              else if is_robj n type
              then (if input == output
                  then done (false, w)
                  else stop (item_union n rec input output w))
              else s.update.struct rec input type output w))

  -- When profiling.
  unfoldable pub profiling_struct :
      Visit (Asserts U) → ℕ → ℕ → ℕ → RedisWorld U → Outcome (Bool × RedisWorld U)
  profiling_struct rec input type output w =
      if input == 0 || is_opaque n type
      then done (false, w)
      else is_dict_entry type w >>= λ dict.
          (if dict
            then stop (dict_entry rec input type output w)
            else if is_robj n type
            then stop (assert_robj n rec input w)
            else if is_client n type
            then stop (assert_client sys input w)
            else if is_list_node n type
            then stop (assert_node input w)
            else if is_time_event n type
            then stop (assert_time_event input w)
            else s.profile.struct rec input type output w)

  unfoldable pub perfaction_struct :
      Visit (Asserts U) → ℕ → ℕ → ℕ → RedisWorld U → Outcome (Bool × RedisWorld U)
  perfaction_struct rec input type output w =
      if is_file_event n type
      then stop (file_event n rec input output w)
      else if k.is_reading
      then (if is_robj n type
          then stop (read_robj rec input w)
          else s.deserial.struct rec input type output w)
      else if k.is_writing
      then (if is_robj n type
          then stop (write_robj rec input w)
          else s.serial.struct rec input type output w)
      else if k.is_dsu
      then dsu_struct rec input type output w
      else if k.is_profiling
      then profiling_struct rec input type output w
      else done (false, w)

  -- The callbacks as a service of the traversal.
  abbrev pub dispatcher : Env (Asserts U) → Env (Asserts U)
  dispatcher env = record env {
    perfaction_prim = perfaction_prim k s;
    perfaction_struct = perfaction_struct;
    perfaction_ptr = perfaction_ptr k s;
    perfaction_ptr_mapped = perfaction_ptr_mapped k s;
  }
