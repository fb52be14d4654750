-- ===== src/Tests/Objects.antt =====
-- A Redis object that is written and read.
use c_strider.Prelude.{ℕ, ◌≡◌, refl, arith, List, [], ◌∷◌, ◌++◌, ◌==◌, if◌then◌else◌}
use c_strider.Outcome.{Outcome, done}
use c_strider.Traversal.State.{World}
use c_strider.Serial.{Ser, fwrite, set_block, encode_string, from_bytes, c_string-append}
use c_strider.Redis.{RedisTypes, read_robj, write_robj}
use c_strider.Redis.Fields.{joined}
use c_strider.Redis.Robj.{Allocates, Restored, robj_roundtrip}
use c_strider.Tests.Streams.{host, name, name-proper, written}

abbrev redis_types : RedisTypes
redis_types = record { type_int = 4; type_sds = 5; type_list = 6; type_dict = 7 }

abbrev new_string : List ℕ → World Ser → ℕ × World Ser
new_string s w = (9500, set_block 9500 (s ++ 0 ∷ []) w)

abbrev no_traverse : ℕ → ℕ → ℕ → World Ser → Outcome (World Ser)
no_traverse input output type w = done w

new_string-Allocates : Allocates host new_string 6000
new_string-Allocates = record {
  apart = λ w n k h. omega (arith, h);
  kept = λ s w k h. ground (arith, h);
  copies = λ s w proper. c_string-append s [] proper;
  file_kept = λ s w. refl;
}

-- The object is at 6100, and its string at 4000.
abbrev owned : List (List ℕ)
owned = (0 ∷ []) ∷ (0 ∷ []) ∷ (2 ∷ []) ∷ (3 ∷ []) ∷ (1 ∷ 0 ∷ 0 ∷ 0 ∷ []) ∷ []

abbrev eight : List ℕ
eight = 1 ∷ 2 ∷ 3 ∷ 4 ∷ 5 ∷ 6 ∷ 7 ∷ 8 ∷ []

abbrev with_object : World Ser
with_object = record written {
  mem = λ a. if a == 6100 then 4000 else 0;
  user = record written.user {
    block = λ a.
        if a == 4000
        then name ++ 0 ∷ []
        else if a == 6108
        then 0 ∷ []
        else if a == 6109
        then 0 ∷ []
        else if a == 6110
        then 2 ∷ []
        else if a == 6111
        then 3 ∷ []
        else if a == 6112
        then 1 ∷ 0 ∷ 0 ∷ 0 ∷ []
        else eight;
  };
}

abbrev object_file : List ℕ
object_file = joined owned ++ (joined (eight ∷ eight ∷ eight ∷ []) ++ (encode_string name ++ []))

abbrev to_restore : World Ser
to_restore = record written { user = record written.user { file = object_file; block = λ a. [] } }

robj_roundtrip_example :
    (write_robj host new_string redis_types no_traverse 6100 with_object
      ≡ done (
          fwrite
            (encode_string name)
            (fwrite (joined (eight ∷ eight ∷ eight ∷ [])) (fwrite (joined owned) with_object))))
    × (v' : World Ser) × (read_robj host new_string redis_types no_traverse 6000 to_restore
        ≡ done v')
    × Restored host new_string redis_types no_traverse 6000
        (0 ∷ [])
        (0 ∷ [])
        (2 ∷ [])
        (3 ∷ [])
        (1 ∷ 0 ∷ 0 ∷ 0 ∷ [])
        name
        []
        to_restore
        v'
unfolding from_bytes
robj_roundtrip_example =
    robj_roundtrip host new_string redis_types no_traverse 6100 6000 (0 ∷ []) (0 ∷ []) (2 ∷ [])
      (3 ∷ []) (1 ∷ 0 ∷ 0 ∷ 0 ∷ []) name [] (eight ∷ eight ∷ eight ∷ []) with_object to_restore
      (omega arith) (omega arith)
      (refl, (refl, (refl, (refl, (refl, (refl, (refl, (refl, (refl, (refl, tt))))))))))
      (refl, (refl, (refl, (refl, (refl, (refl, tt)))))) (refl, (refl, (refl, tt))) refl
      (omega arith) (c_string-append name [] name-proper) name-proper (omega arith)
      new_string-Allocates refl
