-- ===== src/Serial/RoundTrip.antt =====
-- What `deserial_ptr` of examples/heap_serialize/serial.c makes of what `serial_ptr` wrote.
use c_strider.Prelude.{
  ℕ, ◌+◌, ◌^◌, ◌<◌, ◌≡◌, ◌≢◌, refl, sym, ap, ◌∙◌, false, none, some, List, [], ◌∷◌, ◌++◌, ◌==◌,
  lt→ltb, length, arith, update_self, ==_refl,
}
use c_strider.Outcome.{done}
use c_strider.Types.{get_size, get_ptrtype}
use c_strider.Types.Construct.{bytes}
use c_strider.Symbols.{lookup_addr, lookup_key}
use c_strider.Traversal.State.{World, store, find_mapping, add_mapping}
use c_strider.Traversal.Grows.{add_mapping_lem}
use c_strider.Traversal.Mappings.{find_mapping_cong, add_mapping-mem, add_mapping-user}
use c_strider.Serial.Bytes.{
  from_bytes, take_bytes, c_string, NoNul, from_bytes_8, take_bytes_8, c_string-append,
}
use c_strider.Serial.{
  Ser, Host, SerialVisit, ser_symbol, fwrite, encode_string, serial_value, serial_string,
  serial_char_str, serial_ptr, deserial_symbol, deserial_new, deserial_ptr,
}
use c_strider.Serial.Strings.{left_to_read, copy_address, after_copy, deserial_char_str_lem}

-- A pointer type's value is written whole.
pub serial_value_8 :
    (x type : ℕ) (w : World Ser)
    → get_size w.types type ≡ some 8
    → serial_value (bytes 8 x) type w ≡ done (fwrite (bytes 8 x) w)
unfolding serial_value take_bytes
serial_value_8 x type w e = rw e

serial_string_lem :
    (s : List ℕ) (w : World Ser)
    → length s + 1 < 2 ^ 31
    → serial_string s w ≡ done (fwrite (encode_string s) w)
serial_string_lem s w h = rw (lt→ltb (length s + 1) (2 ^ 31) h)

-- The address of the copy of a string that `deserial_ptr` makes, and the state with the copy.
abbrev pub new_copy : Host → List ℕ → List ℕ → World Ser → ℕ
new_copy host s rest v = copy_address host s rest (left_to_read (encode_string s ++ rest) v)

abbrev pub copied : Host → ℕ → List ℕ → List ℕ → World Ser → World Ser
copied host output s rest v =
    store output (new_copy host s rest v)
      (after_copy host s rest (left_to_read (encode_string s ++ rest) v))

module _ (host : Host) (rec rec' : SerialVisit) (input type output input' type' output' : ℕ) where
  -- Where pointers have 8 bytes, a pointer to the variable of a registered symbol, which has a name of
  -- less than 2^31 - 1 characters, is written as the token SER_SYMBOL and the name. Reading that, whatever follows it,
  -- gives the address that the reading program has registered under the name, and leaves what
  -- follows.
  pub symbol_roundtrip :
      (name rest : List ℕ) (q : ℕ) (w v : World Ser)
      → w.mem input ≢ 0
      → lookup_addr (w.mem input) w.user.symbols ≡ some name
      → get_size w.types host.type_opaque_ptr ≡ some 8
      → NoNul name
      → length name + 1 < 2 ^ 31
      → v.user.file ≡ bytes 8 ser_symbol ++ (encode_string name ++ rest)
      → lookup_key name v.user.symbols ≡ some q
      → (serial_ptr host rec input type output w
          ≡ done (false, fwrite (encode_string name) (fwrite (bytes 8 ser_symbol) w)))
        × (v' : World Ser) × (deserial_ptr host rec' input' type' output' v ≡ done (false, v'))
        × (v'.mem output' ≡ q)
        × (v'.user.file ≡ rest)
  unfolding serial_ptr deserial_ptr deserial_symbol from_bytes
  symbol_roundtrip name rest q w v live symbol size proper short file known =
      let v1 : World Ser = left_to_read (encode_string name ++ rest) v in
      let tmp : ℕ = copy_address host name rest v1 in
      let v2 : World Ser = after_copy host name rest v1 in
      let head : take_bytes 8 v.user.file ≡ some (bytes 8 ser_symbol, encode_string name ++ rest) =
        ap (take_bytes 8) file ∙ take_bytes_8 ser_symbol (encode_string name ++ rest) in
      let block : c_string (v2.user.block tmp) ≡ some name =
        ap c_string (update_self v1.user.block tmp (name ++ 0 ∷ []))
        ∙ c_string-append name [] proper in
      let not_null : (w.mem input == 0) ≡ false = ground arith in
      (
        rw (
          not_null,
          symbol,
          serial_value_8 ser_symbol host.type_opaque_ptr w size,
          lt→ltb (length name + 1) (2 ^ 31) short,
        ),
        store output' q (record v2 { freed = tmp ∷ v2.freed }),
        rw (head, deserial_char_str_lem host name rest v1 short refl, block, known),
        update_self v2.mem output' q,
        refl,
      )

  -- A string's pointer that is read for the first time.
  pub deserial_ptr-string :
      (p : ℕ) (s rest : List ℕ) (v : World Ser)
      → p ≢ 0
      → p ≢ ser_symbol
      → p < 2 ^ 64
      → length s + 1 < 2 ^ 31
      → v.user.file ≡ bytes 8 p ++ (encode_string s ++ rest)
      → find_mapping p v ≡ 0
      → get_ptrtype v.types type' ≡ some host.type_char_nt
      → deserial_ptr host rec' input' type' output' v
        ≡ done (false, add_mapping p (new_copy host s rest v) (copied host output' s rest v))
  unfolding deserial_ptr deserial_new
  deserial_ptr-string p s rest v live proper_value range short file new target =
      let v1 : World Ser = left_to_read (encode_string s ++ rest) v in
      let head : take_bytes 8 v.user.file ≡ some (bytes 8 p, encode_string s ++ rest) =
        ap (take_bytes 8) file ∙ take_bytes_8 p (encode_string s ++ rest) in
      let not_null : (p == 0) ≡ false = ground arith in
      let new1 : find_mapping p v1 ≡ 0 = find_mapping_cong p v v1 refl ∙ new in
      let not_symbol : (p == ser_symbol) ≡ false = ground arith in
      rw (
        head,
        from_bytes_8 p range,
        not_symbol,
        not_null,
        new1,
        target,
        ==_refl host.type_char_nt,
        deserial_char_str_lem host s rest v1 short refl,
      )

  -- Where pointers have 8 bytes, one to a string of less than 2^31 - 1 characters, neither NULL nor SER_SYMBOL nor a
  -- registered symbol, is written as its value and the string. Reading that where the value has not
  -- been read before makes a copy of the string, points to it, remembers it as the copy of that
  -- value, and leaves what follows.
  pub string_roundtrip :
      (s rest : List ℕ) (w v : World Ser)
      → w.mem input ≢ 0
      → w.mem input ≢ ser_symbol
      → w.mem input < 2 ^ 64
      → lookup_addr (w.mem input) w.user.symbols ≡ none
      → type ≡ host.type_char_nt_ptr
      → get_size w.types type ≡ some 8
      → c_string (w.user.block (w.mem input)) ≡ some s
      → NoNul s
      → length s + 1 < 2 ^ 31
      → v.user.file ≡ bytes 8 (w.mem input) ++ (encode_string s ++ rest)
      → find_mapping (w.mem input) v ≡ 0
      → get_ptrtype v.types type' ≡ some host.type_char_nt
      → (serial_ptr host rec input type output w
          ≡ done (false, fwrite (encode_string s) (fwrite (bytes 8 (w.mem input)) w)))
        × (v' : World Ser) × (deserial_ptr host rec' input' type' output' v ≡ done (false, v'))
        × (c_string (v'.user.block (v'.mem output')) ≡ some s)
        × (find_mapping (w.mem input) v' ≡ v'.mem output')
        × (v'.user.file ≡ rest)
  unfolding serial_ptr serial_char_str
  string_roundtrip s rest w v live proper_value range symbol char_nt size text proper short file new
        target =
      let p : ℕ = w.mem input in
      let v1 : World Ser = left_to_read (encode_string s ++ rest) v in
      let tmp : ℕ = new_copy host s rest v in
      let v2 : World Ser = copied host output' s rest v in
      let block : c_string (v2.user.block tmp) ≡ some s =
        ap c_string (update_self v1.user.block tmp (s ++ 0 ∷ [])) ∙ c_string-append s [] proper in
      let not_null : (w.mem input == 0) ≡ false = ground arith in
      let out : (add_mapping p tmp v2).mem output' ≡ tmp =
        ap (λ m. m output') (add_mapping-mem p tmp v2) ∙ update_self v1.mem output' tmp in
      (
        rw (
          not_null,
          symbol,
          serial_value_8 p type w size,
          char_nt,
          ==_refl host.type_char_nt_ptr,
          text,
          lt→ltb (length s + 1) (2 ^ 31) short,
        ),
        add_mapping p tmp v2,
        deserial_ptr-string p s rest v live proper_value range short file new target,
        rw (out, add_mapping-user p tmp v2) block,
        add_mapping_lem p tmp v2 live (find_mapping_cong p v v2 refl ∙ new) ∙ sym out,
        rw (add_mapping-user p tmp v2),
      )
