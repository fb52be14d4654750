-- ===== src/Redis/Dispatch/Asserted.antt =====
-- What examples/redis-2.0.2/perfaction.assert.c asserts of the structs of Redis when it profiles.
use c_strider.Prelude.{
  ℕ, ◌+◌, ◌^◌, ◌≡◌, ◌≢◌, refl, sym, subst, Bool, true, false, not, ◌&&◌, ◌||◌, ◌==◌, if◌then◌else◌,
  ltb, some, Bool-cases, inl, inr, arith,
}
use c_strider.Outcome.{Outcome, done, fault}
use c_strider.Types.{TypeTable, get_maintype}
use c_strider.Traversal.State.{Visit}
use c_strider.Traversal.Grows.{After, After-bind, After-if, After-weaken}
use c_strider.Traversal.Still.{Still, Stays, VisitStays, After-Stays, same-Stays}
use c_strider.Redis.{field_type, redis_string, redis_list, redis_set, redis_zset, redis_hash}
use c_strider.Redis.Dispatch.{Modes, Asserts, RedisWorld, Services, count_assert}
use c_strider.Redis.Dispatch.Objects.{
  Names, System, is_file_event, is_robj, is_opaque, is_client, is_list_node, is_time_event,
  fd_is_valid, time_is_non_future, asserting, assert_time_event, stop, item_union, assert_robj,
  assert_client, assert_node,
}
use c_strider.Redis.Dispatch.Struct.{is_dict_entry, profiling_struct, perfaction_struct}

abbrev pub profiling : Modes
profiling = record { is_reading = false; is_writing = false; is_dsu = false; is_profiling = true }

-- The type of a struct that the assertions are about: no event of the event loop, no opaque type, no
-- entry of a dict; its main type is known.
pub record Asserting (n : Names) (type : ℕ) (tbl : TypeTable) : Type 0 where
  pub no_event : is_file_event n type ≡ false
  pub no_opaque : is_opaque n type ≡ false
  pub no_entry : type ≢ n.type_struct_dict_entry
  pub main : ℕ
  pub main_type : get_maintype tbl type ≡ some main
  pub no_main_entry : main ≢ n.type_struct_dict_entry

-- What is asserted of a struct at `c`: the reference count of an object is not negative and its type
-- is one of the five; the file descriptor of a client is valid and its last interaction is not in
-- the future; the node before a list's node has it as the next; a time event has a function.
abbrev pub asserted : {U : Type 0} → Names → System → ℕ → ℕ → RedisWorld U → Bool
asserted n sys type c w =
    if is_robj n type
    then ltb (w.mem (c + 12)) (2 ^ 31) && ltb (w.mem (field_type c)) 5
    else if is_client n type
    then fd_is_valid sys (w.mem c) && time_is_non_future sys (w.mem (c + 80))
    else if is_list_node n type
    then w.mem c == 0 || w.mem (w.mem c + 8) == c
    else if is_time_event n type
    then not (w.mem (c + 24) == 0)
    else true

-- The state of the service, not the count of assertions.
abbrev pub owned : {U : Type 0} → Asserts U → U
owned u = u.own

module _ {U : Type 0} (s : Services (Asserts U)) (n : Names) (sys : System)
    (read_robj write_robj : Visit (Asserts U) → ℕ → RedisWorld U → Outcome (RedisWorld U))
    (depth : ℕ) (pad : ℕ → ℕ) (rec : Visit (Asserts U)) (type : ℕ) where
  -- A struct that is visited in place when profiling.
  abbrev pub profiled : ℕ → RedisWorld U → Outcome (Bool × RedisWorld U)
  profiled c w = perfaction_struct profiling s n sys read_robj write_robj depth pad rec c type c w

  profiled_lem :
      (c : ℕ) (w : RedisWorld U)
      → Asserting n type w.types
      → c ≢ 0
      → profiled c w ≡ (
          if is_robj n type
          then stop (assert_robj n rec c w)
          else if is_client n type
          then stop (assert_client sys c w)
          else if is_list_node n type
          then stop (assert_node c w)
          else if is_time_event n type
          then stop (assert_time_event c w)
          else s.profile.struct rec c type c w)
  unfolding perfaction_struct profiling_struct is_dict_entry
  profiled_lem c w a present =
      let here : (c == 0) ≡ false = ground arith in
      let other : (type == n.type_struct_dict_entry) ≡ false = ground (arith, a.no_entry) in
      let other_main : (a.main == n.type_struct_dict_entry) ≡ false =
        ground (arith, a.no_main_entry) in
      rw (a.no_event, here, a.no_opaque, other, a.main_type, other_main)

  -- A visit that asserts `b`, and then does `m`.
  abbrev AssertsTo : Bool → RedisWorld U → Outcome (Bool × RedisWorld U) → Type 0
  AssertsTo b w m = After (λ r. (b ≡ true) × Stays owned w (r.1)) m × (b ≡ false → m ≡ fault)

  asserting-stop :
      (b : Bool) (w : RedisWorld U) (m : Outcome (RedisWorld U))
      → After (Stays owned w) m
      → AssertsTo b w (stop (asserting b m))
  asserting-stop true w m stays = (
    After-bind (Stays owned w) (λ r. (true ≡ true) × Stays owned w (r.1)) m _ stays
        (λ w' g. (refl, g)),
    λ e. absurd (ground (arith, e)),
  )
  asserting-stop false w m stays = (tt, λ e. refl)

  counted-Stays : (w : RedisWorld U) → Still w → Stays owned w (count_assert w)
  counted-Stays w still =
      same-Stays owned w (count_assert w) still refl refl refl still.in_place refl

  item_union-Stays :
      VisitStays owned rec
      → (c : ℕ) (w : RedisWorld U) → Still w
      → After (Stays owned w) (item_union n rec c c w)
  unfolding item_union
  item_union-Stays stays c w still =
      let same : Stays owned w w = same-Stays owned w w still refl refl refl still.in_place refl in
      let there : (t : ℕ) → After (Stays owned w) (rec c t c w) = λ t. stays c t w still in
      let type : ℕ = w.mem (field_type c) in
      elim (Bool-cases (c == 0)) [
        | inl null ↦ rw null same
        | inr live ↦ rw live (elim (Bool-cases (type == redis_string)) [
          | inl string ↦ rw string (there _)
          | inr no_string ↦ rw no_string (elim (Bool-cases (type == redis_list)) [
            | inl list ↦ rw list (there _)
            | inr no_list ↦ rw no_list (
                After-if (Stays owned w)
                  (type == redis_zset || type == redis_hash || type == redis_set)
                  (rec c n.type_dict c w) (done w) (λ _. there n.type_dict) (λ _. same))
          ])
        ])
      ]

  object-Asserts :
      VisitStays owned rec
      → (c : ℕ) (w : RedisWorld U) → Still w
      → AssertsTo
          (ltb (w.mem (c + 12)) (2 ^ 31) && ltb (w.mem (field_type c)) 5)
          w
          (stop (assert_robj n rec c w))
  unfolding assert_robj
  object-Asserts stays c w still =
      let counted : Stays owned w (count_assert w) = counted-Stays w still in
      let b : Bool = ltb (w.mem (c + 12)) (2 ^ 31) && ltb (w.mem (field_type c)) 5 in
      let both : assert_robj n rec c w ≡ asserting b (item_union n rec c c (count_assert w)) =
        ground arith in
      subst (λ m. AssertsTo b w (stop m)) (sym both)
        (asserting-stop b w (item_union n rec c c (count_assert w)) (
          After-Stays owned w (count_assert w) _ counted
            (item_union-Stays stays c (count_assert w) counted.still)))

  client-Asserts :
      (c : ℕ) (w : RedisWorld U)
      → Still w
      → AssertsTo
          (fd_is_valid sys (w.mem c) && time_is_non_future sys (w.mem (c + 80)))
          w
          (stop (assert_client sys c w))
  unfolding assert_client
  client-Asserts c w still =
      let b : Bool = fd_is_valid sys (w.mem c) && time_is_non_future sys (w.mem (c + 80)) in
      let both : assert_client sys c w ≡ asserting b (done (count_assert w)) = ground arith in
      subst (λ m. AssertsTo b w (stop m)) (sym both)
        (asserting-stop b w (done (count_assert w)) (counted-Stays w still))

  node-Asserts :
      (c : ℕ) (w : RedisWorld U)
      → Still w
      → AssertsTo (w.mem c == 0 || w.mem (w.mem c + 8) == c) w (stop (assert_node c w))
  unfolding assert_node
  node-Asserts c w still = elim (Bool-cases (w.mem c == 0)) [
    | inl first ↦ rw first (
      (refl, same-Stays owned w w still refl refl refl still.in_place refl),
      λ e. absurd (ground (arith, e)),
    )
    | inr later ↦ rw later (
        asserting-stop (w.mem (w.mem c + 8) == c) w (done (count_assert w)) (counted-Stays w still))
  ]

  other-Asserts :
      (c : ℕ) (w : RedisWorld U) (m : Outcome (Bool × RedisWorld U))
      → After (λ r. Stays owned w (r.1)) m
      → AssertsTo true w m
  other-Asserts c w m stays = (
    After-weaken (λ r. Stays owned w (r.1)) (λ r. (true ≡ true) × Stays owned w (r.1)) m
        (λ r g. (refl, g)) stays,
    λ e. absurd (ground (arith, e)),
  )

  -- A struct that is visited in place when profiling, neither at NULL nor an event of the event loop,
  -- an opaque type or an entry of a dict, where the visits made for an object and the profiler's own
  -- callback for structs only look. If the callback returns, then what is asserted of the struct
  -- holds, and the memory, the types, the profiler's state and what is mapped to itself are as they
  -- were; if what is asserted does not hold, an assertion fails.
  pub assertions_look :
      (c : ℕ) (w : RedisWorld U)
      → Asserting n type w.types
      → c ≢ 0
      → Still w
      → VisitStays owned rec
      → After (λ r. Stays owned w (r.1)) (s.profile.struct rec c type c w)
      → After (λ r. (asserted n sys type c w ≡ true) × Stays owned w (r.1)) (profiled c w)
        × (asserted n sys type c w ≡ false → profiled c w ≡ fault)
  unfolding assert_time_event
  assertions_look c w a present still stays struct_stays =
      rw (profiled_lem c w a present) (elim (Bool-cases (is_robj n type)) [
        | inl object ↦ rw object (object-Asserts stays c w still)
        | inr no_object ↦ rw no_object (elim (Bool-cases (is_client n type)) [
          | inl client ↦ rw client (client-Asserts c w still)
          | inr no_client ↦ rw no_client (elim (Bool-cases (is_list_node n type)) [
            | inl node ↦ rw node (node-Asserts c w still)
            | inr no_node ↦ rw no_node (elim (Bool-cases (is_time_event n type)) [
              | inl event ↦ rw event (
                  asserting-stop (not (w.mem (c + 24) == 0)) w (done (count_assert w))
                    (counted-Stays w still))
              | inr no_event ↦ rw no_event (other-Asserts c w _ struct_stays)
            ])
          ])
        ])
      ])
