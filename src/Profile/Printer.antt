-- ===== src/Profile/Printer.antt =====
-- The program examples/redis-2.0.2/logprinter.c, which prints the file that profile_free of profile.c
-- has written. An `int` is its bit pattern below 2^32, a `long` its below 2^64. The variables are
-- not set at the start, and a read that the end of the file cuts short leaves `junk`.
use c_strider.Prelude.{
  ℕ, zero, suc, ◌+◌, ◌*◌, ◌%◌, ◌^◌, ◌<◌, ◌≡◌, refl, Bool, true, false, Option, some, none, List, [],
  ◌∷◌, ◌++◌, ◌==◌, if◌then◌else◌, length,
}
use c_strider.Outcome.{Outcome, done, out_of_fuel, ◌>>=◌}
use c_strider.Types.Construct.{bytes}
use c_strider.Serial.{take_bytes, from_bytes, take_bytes-append, from_bytes_4, from_bytes_8}

-- The variables of `main`, and what profwrite writes of an entry.
pub record LogRecord : Type 0 where
  pub count : ℕ
  pub typ : ℕ
  pub maintyp : ℕ
  pub sz : ℕ

-- The two forms of a line that is printed.
pub data Line : Type 0 where
  with_main : (typ maintyp count size : ℕ) → Line
  without_main : (typ count size : ℕ) → Line

-- `count*sz`
abbrev pub total_size : LogRecord → ℕ
total_size r = r.count * r.sz % 2 ^ 32

abbrev pub line : LogRecord → Line
line r =
    if r.typ == r.maintyp
    then without_main r.typ r.count (total_size r)
    else with_main r.typ r.maintyp r.count (total_size r)

-- What is left of the file, and whether a read has met its end.
pub record Stream : Type 0 where
  pub left : List ℕ
  pub eof : Bool

-- What a variable holds after a read that the end of the file cuts short, and after any read.
abbrev pub cut_short : ℕ → ℕ → List ℕ → ℕ
cut_short junk old [] = old
cut_short junk old (b ∷ rest) = junk

abbrev pub after_fread : ℕ → ℕ → Stream → Option (List ℕ × List ℕ) → ℕ × Stream
after_fread junk old s (some (b, rest)) = (from_bytes b, record s { left = rest })
after_fread junk old s none = (cut_short junk old s.left, record { left = []; eof = true })

-- `fread` of one variable of `n` bytes: its value, and the stream.
unfoldable pub read_var : ℕ → ℕ → ℕ → Stream → ℕ × Stream
read_var junk n old s = after_fread junk old s (take_bytes n s.left)

-- The four reads of a round.
unfoldable pub read_record : ℕ → LogRecord → Stream → LogRecord × Stream
read_record junk r s =
    let c = read_var junk 4 r.count s in
    let t = read_var junk 8 r.typ (c.1) in
    let m = read_var junk 8 r.maintyp (t.1) in
    let z = read_var junk 4 r.sz (m.1) in
    (record { count = c.0; typ = t.0; maintyp = m.0; sz = z.0 }, z.1)

-- `while(!feof(prof))`: the lines, and `total`
unfoldable pub print_loop : ℕ → ℕ → LogRecord → ℕ → Stream → Outcome (List Line × ℕ)
print_loop junk zero r total s = out_of_fuel
print_loop junk (suc fuel) r total s =
    let next = read_record junk r s in
    let rest = print_loop junk fuel (next.0) ((total + total_size (next.0)) % 2 ^ 32) (next.1) in
    if s.eof then done ([], total) else rest >>= λ p. done (line (next.0) ∷ p.0, p.1)

-- `main`, where the variables hold `r` at the start
unfoldable pub logprinter : ℕ → ℕ → LogRecord → List ℕ → Outcome (List Line × ℕ)
logprinter junk fuel r file = print_loop junk fuel r 0 (record { left = file; eof = false })

abbrev pub log_bytes : LogRecord → List ℕ
log_bytes r = bytes 4 r.count ++ (bytes 8 r.typ ++ (bytes 8 r.maintyp ++ bytes 4 r.sz))

abbrev pub log_file : List LogRecord → List ℕ
log_file [] = []
log_file (r ∷ rs) = log_bytes r ++ log_file rs

abbrev pub Fits : List LogRecord → Type 0
Fits [] = Unit
Fits (r ∷ rs) =
    (r.count < 2 ^ 32) × (r.typ < 2 ^ 64) × (r.maintyp < 2 ^ 64) × (r.sz < 2 ^ 32) × Fits rs

abbrev pub last_of : LogRecord → List LogRecord → LogRecord
last_of r [] = r
last_of r (q ∷ qs) = last_of q qs

-- The lines of some records.
abbrev pub lines : List LogRecord → List Line
lines [] = []
lines (r ∷ rs) = line r ∷ lines rs

-- The sizes of some records added to a total, as the program adds them.
abbrev pub add_sizes : ℕ → List LogRecord → ℕ
add_sizes total [] = total
add_sizes total (r ∷ rs) = add_sizes ((total + total_size r) % 2 ^ 32) rs

read_var-value :
    (junk n old x : ℕ) (b rest : List ℕ) (eof : Bool)
    → take_bytes n (b ++ rest) ≡ some (b, rest)
    → from_bytes b ≡ x
    → read_var junk n old (record { left = b ++ rest; eof = eof })
      ≡ (x, record { left = rest; eof = eof })
unfolding read_var
read_var-value junk n old x b rest eof head value = rw (head, value)

read_record-value :
    (junk : ℕ) (r old : LogRecord) (rest : List ℕ)
    → Fits (r ∷ [])
    → read_record junk old (record { left = log_bytes r ++ rest; eof = false })
      ≡ (r, record { left = rest; eof = false })
unfolding read_record
read_record-value junk r old rest fits =
    let end : List ℕ = bytes 4 r.sz ++ rest in
    let main : List ℕ = bytes 8 r.maintyp ++ end in
    let typ : List ℕ = bytes 8 r.typ ++ main in
    rw (
      read_var-value junk 4 old.count r.count (bytes 4 r.count) typ false
          (take_bytes-append (bytes 4 r.count) typ) (from_bytes_4 r.count (fits.0)),
      read_var-value junk 8 old.typ r.typ (bytes 8 r.typ) main false
          (take_bytes-append (bytes 8 r.typ) main) (from_bytes_8 r.typ (fits.1)),
      read_var-value junk 8 old.maintyp r.maintyp (bytes 8 r.maintyp) end false
          (take_bytes-append (bytes 8 r.maintyp) end) (from_bytes_8 r.maintyp (fits.2)),
      read_var-value junk 4 old.sz r.sz (bytes 4 r.sz) rest false
          (take_bytes-append (bytes 4 r.sz) rest) (from_bytes_4 r.sz (fits.3)),
    )

read_record-end :
    (junk : ℕ) (old : LogRecord)
    → read_record junk old (record { left = []; eof = false })
      ≡ (old, record { left = []; eof = true })
unfolding read_record read_var take_bytes
read_record-end junk old = refl

module _ (junk : ℕ) where
  pub print_loop-lines :
      (rs : List LogRecord) (r : LogRecord) (total : ℕ)
      → Fits rs
      → print_loop junk (suc (suc (length rs))) r total (record { left = log_file rs; eof = false })
        ≡ done (lines rs ++ line (last_of r rs) ∷ [], add_sizes total (rs ++ last_of r rs ∷ []))
  unfolding print_loop
  print_loop-lines [] r total fits = rw (read_record-end junk r)
  print_loop-lines (q ∷ qs) r total fits = rw (
    read_record-value junk q r (log_file qs) (fits.0, fits.1, fits.2, fits.3, tt),
    print_loop-lines qs q ((total + total_size q) % 2 ^ 32) (fits.4),
  )
