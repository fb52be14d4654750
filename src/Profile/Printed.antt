-- ===== src/Profile/Printed.antt =====
-- What examples/redis-2.0.2/logprinter.c prints of the file of profile.c.
use c_strider.Prelude.{ℕ, suc, Bool, ◌≡◌, ap, ◌∙◌, List, [], ◌∷◌, ◌++◌, length}
use c_strider.Outcome.{done}
use c_strider.Table.{iter}
use c_strider.Types.{TypeTable}
use c_strider.Profile.{Prof, profile_free}
use c_strider.Profile.Printer.{
  LogRecord, log_file, logprinter, lines, line, last_of, add_sizes, Fits, print_loop-lines,
}
use c_strider.Profile.Written.{Known, records, profile_free_lem}

logprinter_lem :
    (junk : ℕ) (r : LogRecord) (rs : List LogRecord)
    → Fits rs
    → logprinter junk (suc (suc (length rs))) r (log_file rs)
      ≡ done (lines rs ++ line (last_of r rs) ∷ [], add_sizes 0 (rs ++ last_of r rs ∷ []))
unfolding logprinter
logprinter_lem junk r rs fits = print_loop-lines junk rs r 0 fits

-- Where the type table answers what profile_free asks, and the counts, types and sizes fit their C
-- types, profile_free ends, and the program that prints its file ends after one round more than there
-- are records: it prints a line for each entry that is not for the type -1, in order, and then the
-- line of the last of them once more (of what its variables held at the start, if there is none),
-- which it also adds to the total again.
pub profile_printed :
    (tbl : TypeTable) (base : ℕ → Bool → ℕ) (junk : ℕ) (r : LogRecord) (p : Prof)
    → Known tbl base (iter p.type_counts)
    → Fits (records base (iter p.type_counts))
    → let rs = records base (iter p.type_counts) in
      (p' : Prof) × (profile_free tbl p ≡ done p')
      × (logprinter junk (suc (suc (length rs))) r p'.prof
          ≡ done (lines rs ++ line (last_of r rs) ∷ [], add_sizes 0 (rs ++ last_of r rs ∷ [])))
profile_printed tbl base junk r p known fits =
    let rs : List LogRecord = records base (iter p.type_counts) in
    let freed = profile_free_lem tbl base p known in
    (
      freed.0,
      freed.1,
      ap (logprinter junk (suc (suc (length rs))) r) (freed.3) ∙ logprinter_lem junk r rs fits,
    )
