-- ===== src/Serial/Shared.antt =====
-- Pointers that `deserial_ptr` of examples/heap_serialize/serial.c has read before.
use c_strider.Prelude.{
  ℕ, ◌+◌, ◌^◌, ◌<◌, ◌≡◌, ◌≢◌, refl, ap, ◌∙◌, false, none, some, List, ◌++◌, ◌==◌, length, arith,
  update_self,
}
use c_strider.Outcome.{done}
use c_strider.Types.{TypeEntry, get_size, get_ptrtype}
use c_strider.Types.Construct.{bytes}
use c_strider.Symbols.{lookup_addr}
use c_strider.Traversal.{visit_new}
use c_strider.Traversal.State.{World, Env, store, find_mapping, add_mapping}
use c_strider.Traversal.Mappings.{
  find_mapping_cong, add_mapping-mem, add_mapping-user, add_mapping_self, add_mapping_cases,
}
use c_strider.Serial.Bytes.{take_bytes, from_bytes_8, take_bytes_8}
use c_strider.Serial.{
  Ser, Host, SerialVisit, ser_symbol, fwrite, encode_string, serial_ptr_mapped, deserial_ptr,
  deserializer,
}
use c_strider.Serial.Strings.{left_to_read}
use c_strider.Serial.RoundTrip.{serial_value_8, new_copy, copied, deserial_ptr-string}

module _ (host : Host) (rec rec' : SerialVisit) (input type input' type' output' lookup : ℕ) where
  deserial_ptr-known :
      (p c : ℕ) (rest : List ℕ) (v : World Ser)
      → p ≢ 0
      → p ≢ ser_symbol
      → p < 2 ^ 64
      → v.user.file ≡ bytes 8 p ++ rest
      → find_mapping p v ≡ c
      → c ≢ 0
      → deserial_ptr host rec' input' type' output' v
        ≡ done (false, store output' c (left_to_read rest v))
  unfolding deserial_ptr
  deserial_ptr-known p c rest v live proper_value range file known got =
      let v1 : World Ser = left_to_read rest v in
      let head : take_bytes 8 v.user.file ≡ some (bytes 8 p, rest) =
        ap (take_bytes 8) file ∙ take_bytes_8 p rest in
      let known1 : find_mapping p v1 ≡ c = find_mapping_cong p v v1 refl ∙ known in
      let not_null : (p == 0) ≡ false = ground arith in
      let not_symbol : (p == ser_symbol) ≡ false = ground arith in
      let found : (c == 0) ≡ false = ground arith in
      rw (head, from_bytes_8 p range, not_symbol, not_null, known1, found)

  -- Where pointers have 8 bytes, one to an object that has been written before, neither NULL nor SER_SYMBOL nor a
  -- registered symbol, is written as its value alone. Reading that where the value is mapped points
  -- to what it is mapped to and leaves what follows: what was shared is shared again.
  pub shared_roundtrip :
      (c : ℕ) (rest : List ℕ) (w v : World Ser)
      → w.mem input ≢ 0
      → w.mem input ≢ ser_symbol
      → w.mem input < 2 ^ 64
      → lookup_addr (w.mem input) w.user.symbols ≡ none
      → get_size w.types type ≡ some 8
      → v.user.file ≡ bytes 8 (w.mem input) ++ rest
      → find_mapping (w.mem input) v ≡ c
      → c ≢ 0
      → (serial_ptr_mapped host rec input type lookup w
          ≡ done (lookup, fwrite (bytes 8 (w.mem input)) w))
        × (deserial_ptr host rec' input' type' output' v
            ≡ done (false, store output' c (left_to_read rest v)))
  unfolding serial_ptr_mapped
  shared_roundtrip c rest w v live proper_value range symbol size file known got = (
    rw (serial_ptr_mapped, symbol, serial_value_8 (w.mem input) type w size),
    deserial_ptr-known (w.mem input) c rest v live proper_value range file known got,
  )

module _ (host : Host) (env : Env Ser) (rec : SerialVisit) (te : TypeEntry)
    (cell cell' type type' : ℕ) where
  -- A pointer to a string, whose value in the file is not NULL, not SER_SYMBOL and not mapped, is
  -- visited in place by a traversal that reads, and the value of the next pointer in the file happens
  -- to be the address of the string's copy, which is a proper value too. That pointer becomes one to
  -- the copy, and what the file has for it is left unread.
  pub address_taken_for_value :
      (p : ℕ) (s rest : List ℕ) (v : World Ser)
      → p ≢ 0
      → p ≢ ser_symbol
      → p < 2 ^ 64
      → length s + 1 < 2 ^ 31
      → (c : ℕ) → new_copy host s (bytes 8 c ++ rest) v ≡ c
      → c ≢ 0
      → c ≢ ser_symbol
      → c < 2 ^ 64
      → v.user.file ≡ bytes 8 p ++ (encode_string s ++ (bytes 8 c ++ rest))
      → find_mapping p v ≡ 0
      → find_mapping c v ≡ 0
      → get_ptrtype v.types type ≡ some host.type_char_nt
      → (v' : World Ser) × (v'' : World Ser) × (visit_new
            (deserializer host env)
            rec
            te
            cell
            type
            cell
            v
          ≡ done v')
        × (deserial_ptr host rec cell' type' cell' v' ≡ done (false, v''))
        × (v''.mem cell' ≡ c)
        × (v''.user.file ≡ rest)
  unfolding visit_new
  address_taken_for_value p s rest v live proper_value range short c fresh got proper_copy range_c
        file new new_c target =
      let w1 : World Ser = add_mapping p c (copied host cell s (bytes 8 c ++ rest) v) in
      let read : deserial_ptr host rec cell type cell v ≡ done (false, w1) =
        deserial_ptr-string host rec rec cell type cell cell type cell p s (bytes 8 c ++ rest) v
          live proper_value range short file new target
        ∙ ap (λ k. done (false, add_mapping p k (copied host cell s (bytes 8 c ++ rest) v)))
            fresh in
      let out : w1.mem cell ≡ c =
        ap (λ m. m cell) (add_mapping-mem p c (copied host cell s (bytes 8 c ++ rest) v))
        ∙ update_self v.mem cell (new_copy host s (bytes 8 c ++ rest) v)
        ∙ fresh in
      let w2 : World Ser = add_mapping c c w1 in
      let left : w2.user.file ≡ bytes 8 c ++ rest =
        ap (λ u. u.file)
          (add_mapping-user c c w1
            ∙ add_mapping-user p c (copied host cell s (bytes 8 c ++ rest) v)) in
      let known : find_mapping c w2 ≡ c = add_mapping_self c w1 got (
        add_mapping_cases p c (copied host cell s (bytes 8 c ++ rest) v) got
          (find_mapping_cong c v (copied host cell s (bytes 8 c ++ rest) v) refl ∙ new_c)) in
      (
        w2,
        store cell' c (left_to_read rest w2),
        rw (read, out),
        deserial_ptr-known host rec rec cell' type' cell' type' cell' 0 c c rest w2 got proper_copy
            range_c left known got,
        update_self w2.mem cell' c,
        refl,
      )
