-- ===== src/Serial/Chain.antt =====
-- A chain of pointers through the service of examples/heap_serialize/serial.c: a cell whose type is
-- some pointers deep above a value. `trail` is what the cells of a chain hold, `follow` where it
-- ends, and `chain_file` what is written of one.
mod Write
mod Cell
mod Read
pub mod RoundTrip
use c_strider.Prelude.{
  ℕ, zero, suc, ◌+◌, ◌^◌, ◌<◌, ◌≡◌, ◌≢◌, refl, ◌∙◌, Bool, true, false, some, none, List, [], ◌∷◌,
  ◌++◌, ◌==◌, arith,
}
use c_strider.Outcome.{Outcome, done}
use c_strider.Table.{find}
use c_strider.Types.{TypeEntry, TypeTable, Generated, no_type}
use c_strider.Types.Construct.{bytes}
use c_strider.Symbols.{Symbols, lookup_addr}
use c_strider.Traversal.{memoized_is_ptr, memoized_is_funptr}
use c_strider.Traversal.State.{World, find_mapping, add_mapping, store}
use c_strider.Traversal.Mappings.{find_mapping_cong, find_mapping-add_mapping_other}
use c_strider.Serial.{Ser, Host, ser_symbol}

-- A type that is no array, as the table has it.
pub record Known (tbl : TypeTable) (t size : ℕ) : Type 0 where
  pub entry : TypeEntry
  pub found : find t tbl ≡ some entry
  pub sized : entry.size ≡ size
  pub single : entry.arrlen ≡ 0
  pub is_type : t ≢ no_type

-- `t` is a type of pointers of 8 bytes to a `u`, neither functions nor strings.
pub record PointsTo (g : Generated) (host : Host) (tbl : TypeTable) (t u : ℕ) : Type 0 where
  pub known : Known tbl t 8
  pub compound : g.is_prim t ≡ false
  pub pointer : memoized_is_ptr known.entry ≡ true
  pub object : memoized_is_funptr known.entry ≡ false
  pub target : known.entry.target_type ≡ u
  pub no_string_ptr : t ≢ host.type_char_nt_ptr
  pub no_string : u ≢ host.type_char_nt

-- `t` is `n` pointers deep above a primitive type of this size.
abbrev pub Tower : Generated → Host → TypeTable → ℕ → ℕ → ℕ → Type 0
Tower g host tbl size zero t = (g.is_prim t ≡ true) × Known tbl t size
Tower g host tbl size (suc n) t = (u : ℕ) × PointsTo g host tbl t u × Tower g host tbl size n u

abbrev pub trail : ℕ → (ℕ → ℕ) → ℕ → List ℕ
trail zero mem a = []
trail (suc n) mem a = mem a ∷ trail n mem (mem a)

abbrev pub follow : ℕ → (ℕ → ℕ) → ℕ → ℕ
follow zero mem a = a
follow (suc n) mem a = follow n mem (mem a)

abbrev pub chain_file : List ℕ → List ℕ → List ℕ
chain_file [] value = value
chain_file (p ∷ ps) value = bytes 8 p ++ chain_file ps value

-- No pointer of the chain is NULL, SER_SYMBOL or a registered symbol; each has 64 bits.
abbrev pub Plain : Symbols → List ℕ → Type 0
Plain symbols [] = Unit
Plain symbols (p ∷ ps) =
    (p ≢ 0) × (p ≢ ser_symbol) × (p < 2 ^ 64) × (lookup_addr p symbols ≡ none) × Plain symbols ps

abbrev pub NotAmong : ℕ → List ℕ → Type 0
NotAmong p [] = Unit
NotAmong p (q ∷ qs) = (q ≢ p) × NotAmong p qs

-- The pointers are different.
abbrev pub Apart : List ℕ → Type 0
Apart [] = Unit
Apart (p ∷ ps) = NotAmong p ps × Apart ps

module _ {U : Type 0} where
  -- None of the pointers is mapped.
  abbrev pub Unmapped : World U → List ℕ → Type 0
  Unmapped w [] = Unit
  Unmapped w (p ∷ ps) = (find_mapping p w ≡ 0) × Unmapped w ps

  pub Unmapped-cong :
      (ps : List ℕ) (w w' : World U) → w'.mappings ≡ w.mappings → Unmapped w ps → Unmapped w' ps
  Unmapped-cong [] w w' e new = tt
  Unmapped-cong (p ∷ ps) w w' e new =
      (find_mapping_cong p w w' e ∙ new.0, Unmapped-cong ps w w' e (new.1))

  pub add_mapping-Unmapped :
      (p c : ℕ) (ps : List ℕ) (w : World U)
      → NotAmong p ps
      → Unmapped w ps
      → Unmapped (add_mapping p c w) ps
  add_mapping-Unmapped p c [] w other new = tt
  add_mapping-Unmapped p c (q ∷ qs) w other new = (
    rw (find_mapping-add_mapping_other q p c w (other.0)) (new.0),
    add_mapping-Unmapped p c qs w (other.1) (new.1),
  )

-- What is left over in memory that is not in use is none of these pointers, and is not mapped.
abbrev pub LeftOver : (World Ser → ℕ → Type 0) → List ℕ → World Ser → Type 0
LeftOver Live ps w = (x : ℕ) → ¬ Live w x → (find_mapping (w.mem x) w ≡ 0) × NotAmong (w.mem x) ps

-- What the program's malloc owes a traversal that reads, in a state `w` in which malloc works
-- (`Ready w`) and the memory at `a` is in use (`Live w a`): it returns memory that is not in use, not
-- NULL, whatever is left over there, and the mapping of a pointer that has been read, the store of the address in
-- memory that is in use, and the reading of the file, leave all that is in use as it is.
pub record Allocator (host : Host) (Ready : World Ser → Type 0) (Live : World Ser → ℕ → Type 0)
    : Type 0 where
  pub not_null : (w : World Ser) (n : ℕ) → host.malloc w n ≢ 0
  pub fresh : (w : World Ser) (n a : ℕ) → Ready w → Live w a → host.malloc w n ≢ a
  pub taken :
      (w : World Ser) (n p b : ℕ)
      → Ready w
      → Live w b
      → p ≢ 0
      → find_mapping p w ≡ 0
      → let w' = store b (host.malloc w n) (add_mapping p (host.malloc w n) w) in
        Ready w' × Live w' (host.malloc w n) × ((a : ℕ) → Live w a → Live w' a)
  pub after_read :
      (w : World Ser) (left : List ℕ) (count : ℕ)
      → Ready w
      → let w' = record w { visitcalls = count; user = record w.user { file = left } } in
        Ready w' × ((a : ℕ) → Live w a → Live w' a)
