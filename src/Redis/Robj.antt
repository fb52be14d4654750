-- ===== src/Redis/Robj.antt =====
-- A Redis object with a string, written and read by examples/redis-2.0.2/perfaction.assert.c.
use c_strider.Prelude.{
  ℕ, ◌+◌, ◌^◌, ◌<◌, ◌≡◌, ◌≢◌, refl, ap, ◌∙◌, true, false, some, List, [], ◌∷◌, ◌++◌, ◌==◌, lt→ltb,
  length, arith, update_self,
}
use c_strider.Outcome.{Outcome, done}
use c_strider.Traversal.State.{World, store}
use c_strider.Serial.{
  Ser, Host, fwrite, c_string, from_bytes, NoNul, encode_string, serial_char_str, c_string-append,
}
use c_strider.Serial.Strings.{left_to_read, copy_address, after_copy, deserial_char_str_lem}
use c_strider.Redis.{
  RedisTypes, redis_string, redis_encoding_int, own_fields, vm_fields, read_robj, write_robj,
  read_fields, read_local, is_raw_string, deserial_sds_str,
}
use c_strider.Redis.Fields.{
  joined, Sized, Holds, stored, write_fields_lem, read_fields_lem, read_local_lem,
}

-- What is relied on of `malloc` and of `sdsnew`, which takes a string and returns the address of a copy:
-- new memory is not in the object, and nothing is read or written in the file.
pub record Allocates (host : Host) (sdsnew : List ℕ → World Ser → ℕ × World Ser) (robj : ℕ)
    : Type 0 where
  pub apart : (w : World Ser) (n k : ℕ) → k < 40 → host.malloc w n ≢ robj + k
  pub kept :
      (s : List ℕ) (w : World Ser) (k : ℕ)
      → k < 40
      → (sdsnew s w).1.user.block (robj + k) ≡ w.user.block (robj + k)
  pub copies :
      (s : List ℕ) (w : World Ser)
      → NoNul s
      → c_string ((sdsnew s w).1.user.block ((sdsnew s w).0)) ≡ some s
  pub file_kept : (s : List ℕ) (w : World Ser) → (sdsnew s w).1.user.file ≡ w.user.file

module _ (host : Host) (sdsnew : List ℕ → World Ser → ℕ × World Ser) (ts : RedisTypes)
    (traverse : ℕ → ℕ → ℕ → World Ser → Outcome (World Ser)) where
  write_robj-string :
      (robj : ℕ) (own vm : List (List ℕ)) (text : List ℕ) (w : World Ser)
      → robj ≢ 0
      → Holds (own_fields robj) own w.user.block
      → Holds (vm_fields robj) vm w.user.block
      → is_raw_string host sdsnew ts traverse robj w ≡ true
      → c_string (w.user.block (w.mem robj)) ≡ some text
      → length text + 1 < 2 ^ 31
      → write_robj host sdsnew ts traverse robj w
        ≡ done (fwrite (encode_string text) (fwrite (joined vm) (fwrite (joined own) w)))
  unfolding write_robj serial_char_str
  write_robj-string robj own vm text w live hold hold_vm raw string short =
      let proper : (robj == 0) ≡ false = ground arith in
      rw (
        proper,
        write_fields_lem (own_fields robj) own w hold,
        write_fields_lem (vm_fields robj) vm (fwrite (joined own) w) hold_vm,
        raw,
        string,
        lt→ltb (length text + 1) (2 ^ 31) short,
      )

  -- What reading an object in place has restored, in the state `v'`, from the state `v`.
  pub record Restored (robj : ℕ) (t e s vt r text rest : List ℕ) (v v' : World Ser) : Type 0 where
    type_restored : v'.user.block (robj + 8) ≡ t
    encoding_restored : v'.user.block (robj + 9) ≡ e
    storage_restored : v'.user.block (robj + 10) ≡ s
    vtype_restored : v'.user.block (robj + 11) ≡ vt
    refcount_restored : v'.user.block (robj + 12) ≡ r
    string_restored : c_string (v'.user.block (v'.mem robj)) ≡ some text
    page_as_before : v'.user.block (robj + 16) ≡ v.user.block (robj + 16)
    usedpages_as_before : v'.user.block (robj + 24) ≡ v.user.block (robj + 24)
    atime_as_before : v'.user.block (robj + 32) ≡ v.user.block (robj + 32)
    rest_left : v'.user.file ≡ rest

  module _ (robj : ℕ) (t e s vt r text rest : List ℕ) (v : World Ser) where
    -- The fields are read, and the string comes next.
    abbrev v1 : World Ser
    v1 =
        stored (own_fields robj) (t ∷ e ∷ s ∷ vt ∷ r ∷ [])
          (left_to_read (encode_string text ++ rest) v)

    -- The string is read, `tmp` is its copy, and `sdsnew` has been called.
    abbrev v2 : World Ser
    v2 = after_copy host text rest v1

    abbrev new : ℕ × World Ser
    new = sdsnew text v2

    abbrev v3 : World Ser
    v3 = store robj (new.0) (record new.1 { freed = copy_address host text rest v1 ∷ new.1.freed })

    v2-kept :
        Allocates host sdsnew robj
        → (k : ℕ) → k < 40
        → v3.user.block (robj + k) ≡ v1.user.block (robj + k)
    v2-kept ok k h =
        ok.kept text v2 k h
        ∙ ground (arith, ok.apart (left_to_read (text ++ 0 ∷ [] ++ rest) v1) (length text + 1) k h)

    Restored-v3 : Allocates host sdsnew robj → NoNul text → Restored robj t e s vt r text rest v v3
    Restored-v3 ok proper = record {
      type_restored = v2-kept ok 8 (omega arith) ∙ ground arith;
      encoding_restored = v2-kept ok 9 (omega arith) ∙ ground arith;
      storage_restored = v2-kept ok 10 (omega arith) ∙ ground arith;
      vtype_restored = v2-kept ok 11 (omega arith) ∙ ground arith;
      refcount_restored = v2-kept ok 12 (omega arith) ∙ ground arith;
      string_restored =
          ap (λ a. c_string (new.1.user.block a)) (update_self new.1.mem robj (new.0))
          ∙ ok.copies text v2 proper;
      page_as_before = v2-kept ok 16 (omega arith) ∙ ground arith;
      usedpages_as_before = v2-kept ok 24 (omega arith) ∙ ground arith;
      atime_as_before = v2-kept ok 32 (omega arith) ∙ ground arith;
      rest_left = ok.file_kept text v2;
    }

    read_robj-string :
        (vm : List (List ℕ))
        → robj ≢ 0
        → Sized (1 ∷ 1 ∷ 1 ∷ 1 ∷ 4 ∷ []) (t ∷ e ∷ s ∷ vt ∷ r ∷ [])
        → Sized (8 ∷ 8 ∷ 8 ∷ []) vm
        → from_bytes t ≡ redis_string
        → from_bytes e ≢ redis_encoding_int
        → NoNul text
        → length text + 1 < 2 ^ 31
        → v.user.file
          ≡ joined (t ∷ e ∷ s ∷ vt ∷ r ∷ []) ++ (joined vm ++ (encode_string text ++ rest))
        → read_robj host sdsnew ts traverse robj v ≡ done v3
    unfolding read_robj deserial_sds_str
    read_robj-string vm live sized sized_vm string raw proper short file =
        let own : List (List ℕ) = t ∷ e ∷ s ∷ vt ∷ r ∷ [] in
        let after : List ℕ = encode_string text ++ rest in
        let w1 : World Ser = stored (own_fields robj) own (left_to_read (joined vm ++ after) v) in
        let object : (robj == 0) ≡ false = ground arith in
        let own_read : read_fields (own_fields robj) v ≡ done w1 =
          read_fields_lem (own_fields robj) own (joined vm ++ after) v sized file in
        let vm_read : read_local (8 ∷ 8 ∷ 8 ∷ []) w1 ≡ done v1 =
          read_local_lem (8 ∷ 8 ∷ 8 ∷ []) vm after w1 sized_vm refl in
        let at_type : v1.user.block (robj + 8) ≡ t = ground arith in
        let at_encoding : v1.user.block (robj + 9) ≡ e = ground arith in
        let is_raw : is_raw_string host sdsnew ts traverse robj v1 ≡ true =
          rw (at_type, at_encoding, string) (ground arith) in
        let copy : c_string (v2.user.block (copy_address host text rest v1)) ≡ some text =
          ap c_string (update_self v1.user.block (copy_address host text rest v1) (text ++ 0 ∷ []))
          ∙ c_string-append text [] proper in
        rw (
          object,
          own_read,
          vm_read,
          is_raw,
          deserial_char_str_lem host text rest v1 short refl,
          copy,
        )

  -- A Redis object whose `type` is REDIS_STRING and that is not encoded as a number is written as its
  -- fields, those of `vm`, and the string it points to, which has less than 2^31 - 1 characters.
  -- Reading that into an object restores all fields but those of `vm`, which stay as they were, makes
  -- it point to a copy of the string, and leaves what follows in the file. Both objects have an address,
  -- and malloc and sdsnew allocate.
  pub robj_roundtrip :
      (robj robj' : ℕ) (t e s vt r text rest : List ℕ) (vm : List (List ℕ)) (w v : World Ser)
      → robj ≢ 0
      → robj' ≢ 0
      → Holds (own_fields robj) (t ∷ e ∷ s ∷ vt ∷ r ∷ []) w.user.block
      → Holds (vm_fields robj) vm w.user.block
      → Sized (8 ∷ 8 ∷ 8 ∷ []) vm
      → from_bytes t ≡ redis_string
      → from_bytes e ≢ redis_encoding_int
      → c_string (w.user.block (w.mem robj)) ≡ some text
      → NoNul text
      → length text + 1 < 2 ^ 31
      → Allocates host sdsnew robj'
      → v.user.file
        ≡ joined (t ∷ e ∷ s ∷ vt ∷ r ∷ []) ++ (joined vm ++ (encode_string text ++ rest))
      → (write_robj host sdsnew ts traverse robj w
          ≡ done (
              fwrite
                (encode_string text)
                (fwrite (joined vm) (fwrite (joined (t ∷ e ∷ s ∷ vt ∷ r ∷ [])) w))))
        × (v' : World Ser) × (read_robj host sdsnew ts traverse robj' v ≡ done v')
        × Restored robj' t e s vt r text rest v v'
  robj_roundtrip robj robj' t e s vt r text rest vm w v live live' hold hold_vm sized string raw
        target proper short ok file =
      (
        write_robj-string robj (t ∷ e ∷ s ∷ vt ∷ r ∷ []) vm text w live hold hold_vm
            (rw (hold.1.0, hold.1.1.1.0, string) (ground arith)) target short,
        v3 robj' t e s vt r text rest v,
        read_robj-string robj' t e s vt r text rest v vm live'
            (
              hold.0,
              (hold.1.1.0, (hold.1.1.1.1.0, (hold.1.1.1.1.1.1.0, (hold.1.1.1.1.1.1.1.1.0, tt)))),
            )
            sized string raw proper short file,
        Restored-v3 robj' t e s vt r text rest v ok proper,
      )
