-- ===== src/Serial/Chain/Cell.antt =====
-- How a cell of a chain is read with `deser_funs` of examples/heap_serialize/serial.c.
use c_strider.Prelude.{
  ℕ, zero, suc, ◌<◌, ◌^◌, ◌≡◌, ◌≢◌, refl, ap, ◌∙◌, true, false, some, List, ◌++◌, ◌==◌, arith,
}
use c_strider.Outcome.{done, ◌>>=◌}
use c_strider.Types.{TypeTable, get_size-known, is_array-known, get_ptrtype-known}
use c_strider.Types.Construct.{bytes}
use c_strider.Traversal.{visit, visit_new}
use c_strider.Traversal.State.{World, Env, store, find_mapping, add_mapping}
use c_strider.Traversal.Steps.{counted_visit, visit-pointer}
use c_strider.Traversal.Mappings.{find_mapping_cong}
use c_strider.Serial.Bytes.{take_bytes, take_bytes_8, from_bytes_8}
use c_strider.Serial.{
  Ser, Host, SerialVisit, ser_symbol, to_alloc, deserial_new, deserial_ptr, deserializer,
}
use c_strider.Serial.Strings.{left_to_read}
use c_strider.Serial.Chain.{Known, PointsTo, Tower}

module _ (host : Host) (env : Env Ser) where
  -- The head of a tower is known to the table.
  pub Tower-Known :
      (n t size : ℕ) (tbl : TypeTable)
      → Tower env.program host tbl size n t
      → (s : ℕ) × Known tbl t s
  Tower-Known zero t size tbl ty = (size, ty.1)
  Tower-Known (suc n) t size tbl ty = (8, ty.1.known)

  to_alloc-known : (t s : ℕ) (w : World Ser) → Known w.types t s → to_alloc host t w ≡ done s
  unfolding to_alloc
  to_alloc-known t s w k =
      let single : (k.entry.arrlen == 0) ≡ true = ground arith in
      rw (get_size-known w.types t k.found, is_array-known w.types t k.found, single, k.sized)

  -- The target of the pointer that has been read, and the state in which it is visited.
  abbrev pub target : World Ser → List ℕ → ℕ → ℕ
  target v left s = host.malloc (left_to_read left (counted_visit v)) s

  abbrev pub opened : ℕ → List ℕ → ℕ → ℕ → World Ser → World Ser
  opened p left s b v =
      let v1 = left_to_read left (counted_visit v) in
      store b (host.malloc v1 s) (add_mapping p (host.malloc v1 s) v1)

  deserial_ptr-object :
      (rec : SerialVisit) (p b t u s : ℕ) (left : List ℕ) (v : World Ser)
      → PointsTo env.program host v.types t u
      → Known v.types u s
      → p ≢ 0
      → p ≢ ser_symbol
      → p < 2 ^ 64
      → v.user.file ≡ bytes 8 p ++ left
      → find_mapping p v ≡ 0
      → deserial_ptr host rec b t b (counted_visit v) ≡ (
          rec (target v left s) u (target v left s) (opened p left s b v) >>= λ v'.
          done (false, v'))
  unfolding deserial_ptr deserial_new
  deserial_ptr-object rec p b t u s left v ty next live proper range file new =
      let v1 : World Ser = left_to_read left (counted_visit v) in
      let head : take_bytes 8 v.user.file ≡ some (bytes 8 p, left) =
        ap (take_bytes 8) file ∙ take_bytes_8 p left in
      let new1 : find_mapping p v1 ≡ 0 = find_mapping_cong p v v1 refl ∙ new in
      let not_null : (p == 0) ≡ false = ground arith in
      let not_symbol : (p == ser_symbol) ≡ false = ground arith in
      let other : (u == host.type_char_nt) ≡ false = ground arith in
      rw (
        head,
        from_bytes_8 p range,
        not_symbol,
        not_null,
        new1,
        get_ptrtype-known v.types t ty.known.found,
        ty.target,
        other,
        to_alloc-known u s v1 next,
      )

  -- A pointer of the chain, if the visit of its target ends in `v'`.
  pub read_pointer :
      (f p b t u s : ℕ) (left : List ℕ) (v v' : World Ser)
      → PointsTo env.program host v.types t u
      → Known v.types u s
      → p ≢ 0
      → p ≢ ser_symbol
      → p < 2 ^ 64
      → v.user.file ≡ bytes 8 p ++ left
      → find_mapping p v ≡ 0
      → b ≢ 0
      → find_mapping (v.mem b) v ≡ 0
      → visit (deserializer host env) f (target v left s) u (target v left s) (opened p left s b v)
        ≡ done v'
      → visit (deserializer host env) (suc f) b t b v ≡ done (add_mapping (v'.mem b) (v'.mem b) v')
  unfolding visit_new
  read_pointer f p b t u s left v v' ty next live proper range file new place junk inner =
      let k : Known v.types t 8 = ty.known in
      visit-pointer (deserializer host env) f b t b v k.is_type k.entry ty.compound k.found
        ty.pointer place junk
      ∙ rw (
        deserial_ptr-object (visit (deserializer host env) f) p b t u s left v ty next live proper
            range file new,
        inner,
      )
