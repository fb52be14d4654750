-- ===== src/Redis/Dispatch.antt =====
-- The callbacks of examples/redis-2.0.2/perfaction.assert.c, which pass each call on to the service
-- that runs. The services are arguments, as far as they are not in that file, and so is what the
-- operating system says. `mem` has the fields that are read here; a field has the offset that its
-- struct declares.
pub mod Objects
pub mod Struct
pub mod Asserted
use c_strider.Prelude.{
  ℕ, ◌+◌, ◌%◌, ◌^◌, Bool, true, false, not, ◌&&◌, ◌||◌, ◌==◌, if◌then◌else◌, ltb, some, none,
}
use c_strider.Outcome.{Outcome, done, fault, or_fault, ◌>>=◌}
use c_strider.Traversal.State.{World, Env, Visit}

-- kitsune_is_reading, kitsune_is_writing, kitsune_is_dsu and kitsune_is_profiling
pub record Modes : Type 0 where
  pub is_reading : Bool
  pub is_writing : Bool
  pub is_dsu : Bool
  pub is_profiling : Bool

-- `asstcnt`, and what the services own.
pub record Asserts (U : Type 0) : Type 0 where
  pub asstcnt : ℕ
  pub own : U

abbrev pub RedisWorld : Type 0 → Type 0
RedisWorld U = World (Asserts U)

module _ {U : Type 0} where
  -- `asstcnt++`
  abbrev pub count_assert : RedisWorld U → RedisWorld U
  count_assert w = record w { user = record w.user { asstcnt = (w.user.asstcnt + 1) % 2 ^ 32 } }

  abbrev pub reset_asserts : RedisWorld U → RedisWorld U
  reset_asserts w = record w { user = record w.user { asstcnt = 0 } }

-- A service: what it does at the start and at the end, and its callbacks.
pub record Service (U : Type 0) : Type 0 where
  pub init : World U → Outcome (World U)
  pub free : World U → Outcome (World U)
  pub prim : Visit U → Visit U
  pub struct : Visit U → ℕ → ℕ → ℕ → World U → Outcome (Bool × World U)
  pub ptr : Visit U → ℕ → ℕ → ℕ → World U → Outcome (Bool × World U)
  pub ptr_mapped : Visit U → ℕ → ℕ → ℕ → World U → Outcome (ℕ × World U)

pub record Services (U : Type 0) : Type 0 where
  pub deserial : Service U
  pub serial : Service U
  pub update : Service U
  pub profile : Service U

-- One after the other, where the first is to run.
abbrev pub when : {A : Type 0} → Bool → (A → Outcome A) → A → Outcome A
when test run a = if test then run a else done a

module _ {U : Type 0} (k : Modes) (s : Services (Asserts U)) where
  pub perfaction_init : RedisWorld U → Outcome (RedisWorld U)
  perfaction_init w = do
    w1 ← when k.is_reading s.deserial.init w
    w2 ← when k.is_writing s.serial.init w1
    w3 ← when k.is_dsu s.update.init w2
    when k.is_profiling (λ u. s.profile.init (reset_asserts u)) w3

  pub perfaction_free : RedisWorld U → Outcome (RedisWorld U)
  perfaction_free w = do
    w1 ← when k.is_reading s.deserial.free w
    w2 ← when k.is_writing s.serial.free w1
    w3 ← when k.is_dsu s.update.free w2
    when k.is_profiling s.profile.free w3

  unfoldable pub perfaction_ptr :
      Visit (Asserts U) → ℕ → ℕ → ℕ → RedisWorld U → Outcome (Bool × RedisWorld U)
  perfaction_ptr rec input type output w =
      if k.is_reading
      then s.deserial.ptr rec input type output w
      else if k.is_writing
      then s.serial.ptr rec input type output w
      else if k.is_dsu
      then s.update.ptr rec input type output w
      else if k.is_profiling
      then s.profile.ptr rec input type output w
      else done (false, w)

  -- Each service that runs may change what is returned.
  unfoldable pub perfaction_ptr_mapped :
      Visit (Asserts U) → ℕ → ℕ → ℕ → RedisWorld U → Outcome (ℕ × RedisWorld U)
  perfaction_ptr_mapped rec input type lookup w = do
    r1 ← when k.is_reading (λ r. s.deserial.ptr_mapped rec input type (r.0) (r.1)) (lookup, w)
    r2 ← when k.is_writing (λ r. s.serial.ptr_mapped rec input type (r.0) (r.1)) r1
    r3 ← when k.is_dsu (λ r. s.update.ptr_mapped rec input type (r.0) (r.1)) r2
    when k.is_profiling (λ r. s.profile.ptr_mapped rec input type (r.0) (r.1)) r3

  unfoldable pub perfaction_prim : Visit (Asserts U) → Visit (Asserts U)
  perfaction_prim rec input type output w = do
    w1 ← when k.is_reading (s.deserial.prim rec input type output) w
    w2 ← when k.is_writing (s.serial.prim rec input type output) w1
    w3 ← when k.is_dsu (s.update.prim rec input type output) w2
    when k.is_profiling (s.profile.prim rec input type output) w3
