-- ===== src/Redis/Dispatch/Objects.antt =====
-- What examples/redis-2.0.2/perfaction.assert.c does with the structs of Redis that it knows: the union
-- in an object, an event of the event loop, and what it asserts when profiling.
use c_strider.Prelude.{ℕ, ◌+◌, ◌^◌, Bool, false, not, ◌&&◌, ◌||◌, ◌==◌, if◌then◌else◌, ltb}
use c_strider.Outcome.{Outcome, done, fault, or_fault, ◌>>=◌}
use c_strider.Types.Construct.{mktyparr}
use c_strider.Traversal.State.{World, Visit}
use c_strider.Redis.{
  redis_string, redis_list, redis_set, redis_zset, redis_hash, redis_encoding_int, field_type,
  field_encoding,
}
use c_strider.Redis.Dispatch.{Asserts, RedisWorld, count_assert}

-- The types that are generated for Redis, by their names there.
pub record Names : Type 0 where
  pub type_int : ℕ
  pub type_long : ℕ
  pub type_long_long : ℕ
  pub type_time_t : ℕ
  pub type_sds : ℕ
  pub type_list : ℕ
  pub type_dict : ℕ
  pub type_opaque_ptr : ℕ
  pub type_struct_ae_file_event : ℕ
  pub type_ae_file_event : ℕ
  pub type_ae_file_proc : ℕ
  pub type_redis_client_ptr : ℕ
  pub type_struct_redis_object : ℕ
  pub type_robj : ℕ
  pub type_struct_dict_type : ℕ
  pub type_struct_redis_object_vm : ℕ
  pub type_ae_fired_event : ℕ
  pub type_struct_dict_entry : ℕ
  pub type_struct_dict_entry_ptr : ℕ
  pub type_redis_client : ℕ
  pub type_struct_redis_client : ℕ
  pub type_struct_list_node : ℕ
  pub type_list_node : ℕ
  pub type_struct_ae_time_event : ℕ
  pub type_ae_time_event : ℕ

-- What `fcntl` says of a file descriptor, other than -1, whether `errno` is EBADF where it says that,
-- and what `time` returns.
pub record System : Type 0 where
  pub fcntl_getfd : ℕ → Bool
  pub errno_is_ebadf : ℕ → Bool
  pub time_now : ℕ

module _ (sys : System) where
  abbrev pub fd_is_valid : ℕ → Bool
  fd_is_valid fd = sys.fcntl_getfd fd || not (sys.errno_is_ebadf fd)

  abbrev pub time_is_non_future : ℕ → Bool
  time_is_non_future t = ltb t sys.time_now

-- `assert`
abbrev pub asserting : {A : Type 0} → Bool → Outcome A → Outcome A
asserting test rest = if test then rest else fault

-- A callback that returns 0.
abbrev pub stop : {W : Type 0} → Outcome W → Outcome (Bool × W)
stop m = m >>= λ w. done (false, w)

module _ (n : Names) where
  abbrev pub is_file_event : ℕ → Bool
  is_file_event type = type == n.type_struct_ae_file_event || type == n.type_ae_file_event

  abbrev pub is_robj : ℕ → Bool
  is_robj type = type == n.type_struct_redis_object || type == n.type_robj

  abbrev pub is_opaque : ℕ → Bool
  is_opaque type =
      type == n.type_struct_redis_object_vm
      || type == n.type_long_long
      || type == n.type_int
      || type == n.type_long
      || type == n.type_time_t
      || type == n.type_ae_fired_event

  abbrev pub is_client : ℕ → Bool
  is_client type = type == n.type_redis_client || type == n.type_struct_redis_client

  abbrev pub is_list_node : ℕ → Bool
  is_list_node type = type == n.type_struct_list_node || type == n.type_list_node

  abbrev pub is_time_event : ℕ → Bool
  is_time_event type = type == n.type_struct_ae_time_event || type == n.type_ae_time_event

module _ {U : Type 0} (n : Names) (rec : Visit (Asserts U)) where
  -- `redis_item_union`
  unfoldable pub item_union : ℕ → ℕ → RedisWorld U → Outcome (RedisWorld U)
  item_union input output w =
      let type = w.mem (field_type input) in
      if input == 0
      then done w
      else if type == redis_string
      then rec input
          (if w.mem (field_encoding input) == redis_encoding_int then n.type_int else n.type_sds)
          output w
      else if type == redis_list
      then rec input n.type_list output w
      else if type == redis_zset || type == redis_hash || type == redis_set
      then rec input n.type_dict output w
      else done w

  unfoldable pub file_event : ℕ → ℕ → RedisWorld U → Outcome (RedisWorld U)
  file_event ae ae_o w = do
    w1 ← rec ae n.type_int ae_o w
    w2 ← rec (ae + 8) n.type_ae_file_proc (ae_o + 8) w1
    w3 ← rec (ae + 16) n.type_ae_file_proc (ae_o + 16) w2
    if not (w3.mem ae == 0) && not (w3.mem (ae + 24) == 0)
        then rec (ae + 24) n.type_redis_client_ptr (ae_o + 24) w3
        else done w3

  -- The assertions on an object, when profiling.
  unfoldable pub assert_robj : ℕ → RedisWorld U → Outcome (RedisWorld U)
  assert_robj robj w =
      let type = w.mem (field_type robj) in
      let known =
        type == redis_string
        || type == redis_list
        || type == redis_set
        || type == redis_zset
        || type == redis_hash in
      asserting (ltb (w.mem (robj + 12)) (2 ^ 31))
        (asserting known (item_union robj robj (count_assert w)))

-- The assertions on a client, on a node of a list and on a time event.
unfoldable pub assert_client : {U : Type 0} → System → ℕ → RedisWorld U → Outcome (RedisWorld U)
assert_client sys c w =
    asserting (fd_is_valid sys (w.mem c))
      (asserting (time_is_non_future sys (w.mem (c + 80))) (done (count_assert w)))

unfoldable pub assert_node : {U : Type 0} → ℕ → RedisWorld U → Outcome (RedisWorld U)
assert_node c w =
    if w.mem c == 0 then done w else asserting (w.mem (w.mem c + 8) == c) (done (count_assert w))

unfoldable pub assert_time_event : {U : Type 0} → ℕ → RedisWorld U → Outcome (RedisWorld U)
assert_time_event te w = asserting (not (w.mem (te + 24) == 0)) (done (count_assert w))

-- `cstrider_start_heaptraverse` and `cstrider_heaptraverse_teardown` are the arguments `start` and
-- `teardown`; `junk` is what the padding of an `int` holds in `mktyparr`.
module _ {U : Type 0} (start teardown : World U → Outcome (World U)) (rec : Visit U)
    (junk type_redis_db : ℕ) where
  pub serial_just_db : ℕ → ℕ → World U → Outcome (World U)
  serial_just_db dbnum serverdb w = do
    w1 ← start w
    let db = w1.mem serverdb
    r ← or_fault (mktyparr junk dbnum type_redis_db w1.types)
    w2 ← rec db (r.0) db (record w1 { types = r.1 })
    teardown w2
