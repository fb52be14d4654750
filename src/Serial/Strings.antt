-- ===== src/Serial/Strings.antt =====
-- What `deserial_char_str` of examples/heap_serialize/serial.c reads of what `serial_char_str` wrote.
use c_strider.Prelude.{
  ℕ, ◌+◌, ◌^◌, ◌<◌, ◌≡◌, ap, ◌∙◌, subst, some, List, [], ◌∷◌, ◌++◌, lt→ltb, length, length-append,
  arith,
}
use c_strider.Outcome.{done}
use c_strider.Types.Construct.{bytes}
use c_strider.Traversal.State.{World}
use c_strider.Serial.Bytes.{take_bytes, from_bytes_4, take_bytes-append, take_bytes_4}
use c_strider.Serial.{Ser, Host, set_block, encode_string, deserial_char_str}

-- A state in which `file` is what is left to read.
abbrev pub left_to_read : List ℕ → World Ser → World Ser
left_to_read file w = record w { user = record w.user { file = file } }

-- The copy of a string that is read, and the state after it.
abbrev pub copy_address : Host → List ℕ → List ℕ → World Ser → ℕ
copy_address host s rest w = host.malloc (left_to_read ((s ++ 0 ∷ []) ++ rest) w) (length s + 1)

abbrev pub after_copy : Host → List ℕ → List ℕ → World Ser → World Ser
after_copy host s rest w =
    set_block (copy_address host s rest w) (s ++ 0 ∷ []) (left_to_read rest w)

pub deserial_char_str_lem :
    (host : Host) (s rest : List ℕ) (w : World Ser)
    → length s + 1 < 2 ^ 31
    → w.user.file ≡ encode_string s ++ rest
    → deserial_char_str host w ≡ done (copy_address host s rest w, after_copy host s rest w)
unfolding deserial_char_str
deserial_char_str_lem host s rest w short e =
    let n : ℕ = length s + 1 in
    let text : List ℕ = s ++ 0 ∷ [] in
    let head : take_bytes 4 w.user.file ≡ some (bytes 4 n, text ++ rest) =
      ap (take_bytes 4) e ∙ take_bytes_4 n (text ++ rest) in
    let size : length text ≡ n = length-append {0} s (0 ∷ []) in
    let body : take_bytes n (text ++ rest) ≡ some (text, rest) =
      subst (λ k. take_bytes k (text ++ rest) ≡ some (text, rest)) size
        (take_bytes-append text rest) in
    rw (head, from_bytes_4 n (omega arith), lt→ltb n (2 ^ 31) short, body)
