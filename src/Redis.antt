-- ===== src/Redis.antt =====
-- The callbacks of examples/redis-2.0.2/perfaction.assert.c for Redis objects (`struct redisObject`),
-- with the file of Serial. A field has an address of its own, its offset in the declaration of
-- `cstri_redisObject` from the object's; `ptr` is at the object's address. `sdsnew` of Redis, and the
-- traversal, which takes in, out and type here, are arguments.
pub mod Fields
pub mod Robj
pub mod Dispatch
use c_strider.Prelude.{
  ℕ, zero, suc, ◌+◌, Bool, true, false, not, ◌&&◌, ◌||◌, Option, none, some, List, [], ◌∷◌, ◌==◌,
  if◌then◌else◌,
}
use c_strider.Outcome.{Outcome, done, fault, or_fault, ◌>>=◌}
use c_strider.Traversal.State.{World, store}
use c_strider.Serial.{
  Ser, Host, fwrite, fread, set_block, take_bytes, from_bytes, c_string, serial_char_str,
  deserial_char_str,
}

-- What is generated for Redis: TYPE_INT, TYPE_sds, TYPE_list_PTR_OF_TYPE_robj_PTR and
-- TYPE_dict_PTR_OF_TYPE_robj_PTR__TYPE_robj_PTR.
pub record RedisTypes : Type 0 where
  pub type_int : ℕ
  pub type_sds : ℕ
  pub type_list : ℕ
  pub type_dict : ℕ

abbrev pub redis_string : ℕ
redis_string = 0

abbrev pub redis_list : ℕ
redis_list = 1

abbrev pub redis_set : ℕ
redis_set = 2

abbrev pub redis_zset : ℕ
redis_zset = 3

abbrev pub redis_hash : ℕ
redis_hash = 4

abbrev pub redis_encoding_int : ℕ
redis_encoding_int = 1

abbrev pub field_type : ℕ → ℕ
field_type robj = robj + 8

abbrev pub field_encoding : ℕ → ℕ
field_encoding robj = robj + 9

-- `serial_internal_write` of each of these fields, given by size and address
pub write_fields : List (ℕ × ℕ) → World Ser → Outcome (World Ser)
write_fields [] w = done w
write_fields ((sz, a) ∷ rest) w =
    or_fault (take_bytes sz (w.user.block a)) >>= λ r. write_fields rest (fwrite (r.0) w)

-- `serial_internal_read` into each of these fields
pub read_fields : List (ℕ × ℕ) → World Ser → Outcome (World Ser)
read_fields [] w = done w
read_fields ((sz, a) ∷ rest) w = fread sz w >>= λ r. read_fields rest (set_block a (r.0) (r.1))

-- `serial_internal_read` into the fields of a local struct, which nothing uses after
pub read_local : List ℕ → World Ser → Outcome (World Ser)
read_local [] w = done w
read_local (sz ∷ rest) w = fread sz w >>= λ r. read_local rest (r.1)

-- type, encoding, storage, vtype, refcount
abbrev pub own_fields : ℕ → List (ℕ × ℕ)
own_fields robj =
    (1, field_type robj)
    ∷ (1, field_encoding robj)
    ∷ (1, robj + 10)
    ∷ (1, robj + 11)
    ∷ (4, robj + 12)
    ∷ []

-- page, usedpages and atime of `vm`
abbrev pub vm_fields : ℕ → List (ℕ × ℕ)
vm_fields robj = (8, robj + 16) ∷ (8, robj + 24) ∷ (8, robj + 32) ∷ []

module _ (host : Host) (sdsnew : List ℕ → World Ser → ℕ × World Ser) where
  unfoldable pub deserial_sds_str : ℕ → World Ser → Outcome (World Ser)
  deserial_sds_str addr w = do
    r ← deserial_char_str host w
    let w1 = r.1
    s ← or_fault (c_string (w1.user.block (r.0)))
    let new = sdsnew s w1
    let w2 = new.1
    done (store addr (new.0) (record w2 { freed = (r.0) ∷ w2.freed }))

  module _ (ts : RedisTypes) (traverse : ℕ → ℕ → ℕ → World Ser → Outcome (World Ser)) where
    pub redis_item_union : ℕ → ℕ → World Ser → Outcome (World Ser)
    redis_item_union input output w =
        let type = from_bytes (w.user.block (field_type input)) in
        let encoding = from_bytes (w.user.block (field_encoding input)) in
        if input == 0
        then done w
        else if type == redis_string
        then traverse input output
            (if encoding == redis_encoding_int then ts.type_int else ts.type_sds) w
        else if type == redis_list
        then traverse input output ts.type_list w
        else if type == redis_zset || type == redis_hash || type == redis_set
        then traverse input output ts.type_dict w
        else done w

    -- `robj->type == REDIS_STRING && robj->encoding != REDIS_ENCODING_INT`
    abbrev pub is_raw_string : ℕ → World Ser → Bool
    is_raw_string robj w =
        from_bytes (w.user.block (field_type robj)) == redis_string
        && not (from_bytes (w.user.block (field_encoding robj)) == redis_encoding_int)

    -- `perfaction_struct` for an object, when reading
    pub read_robj : ℕ → World Ser → Outcome (World Ser)
    read_robj robj w = if robj == 0 then done w else (do
      w1 ← read_fields (own_fields robj) w
      w2 ← read_local (8 ∷ 8 ∷ 8 ∷ []) w1
      if is_raw_string robj w2 then deserial_sds_str robj w2 else redis_item_union robj robj w2)

    -- and when writing
    pub write_robj : ℕ → World Ser → Outcome (World Ser)
    write_robj robj w = if robj == 0 then done w else (do
      w1 ← write_fields (own_fields robj) w
      w2 ← write_fields (vm_fields robj) w1
      if is_raw_string robj w2
          then serial_char_str (w2.mem robj) w2
          else redis_item_union robj robj w2)
