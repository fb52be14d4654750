-- ===== src/Profile/Written.antt =====
-- What `profile_free` of examples/redis-2.0.2/profile.c writes.
use c_strider.Prelude.{
  ℕ, Bool, ◌≡◌, ◌≢◌, refl, sym, ap, ◌∙◌, List, [], ◌∷◌, ◌++◌, ◌==◌, if◌then◌else◌, length,
  append_assoc, arith, Bool-cases, inl, inr,
}
use mathlib.Core.List.{append-nil}
use c_strider.Outcome.{done, ◌>>=◌}
use c_strider.Table.{Table, iter}
use c_strider.Types.{TypeTable, no_type}
use c_strider.Lifecycle.{drop_oldest}
use c_strider.Lifecycle.Clean.{empty_of_length, length-drop_oldest, length-reverse}
use c_strider.Profile.{
  CountEntry, Prof, base_type, free_count, free_counts, profwrite, profile_free,
}
use c_strider.Profile.Printer.{LogRecord, log_bytes, log_file}

module _ (base : ℕ → Bool → ℕ) where
  abbrev pub record_of : ℕ × CountEntry → LogRecord
  record_of (t, e) = record { count = e.count; typ = t; maintyp = base t e.isptr; sz = e.size }

  -- What is written of some entries: nothing of those for the type -1.
  unfoldable pub records : Table CountEntry → List LogRecord
  records [] = []
  records ((t, e) ∷ rest) = if t == no_type then records rest else record_of (t, e) ∷ records rest

module _ (tbl : TypeTable) (base : ℕ → Bool → ℕ) where
  -- The type table answers what is asked about each of these entries, with these base types.
  abbrev pub Known : Table CountEntry → Type 0
  Known [] = Unit
  Known ((t, e) ∷ rest) =
      (t ≢ no_type → base_type tbl t e.isptr ≡ done (base t e.isptr)) × Known rest

  record Freed (es : Table CountEntry) (p : Prof) : Type 0 where
    after : Prof
    ends : free_counts tbl es p ≡ done after
    emptied : after.type_counts ≡ []
    wrote : after.prof ≡ p.prof ++ log_file (records base es)

  record FreedOne (e : ℕ × CountEntry) (p : Prof) : Type 0 where
    after : Prof
    ends : free_count tbl e p ≡ done after
    dropped : after.type_counts ≡ drop_oldest p.type_counts
    wrote :
        (file : List ℕ) (rest : Table CountEntry)
        → file ≡ log_file (records base rest)
        → after.prof ++ file ≡ p.prof ++ log_file (records base (e ∷ rest))

  free_count-FreedOne :
      (t : ℕ) (e : CountEntry) (p : Prof)
      → (t ≢ no_type → base_type tbl t e.isptr ≡ done (base t e.isptr))
      → FreedOne (t, e) p
  unfolding free_count records
  free_count-FreedOne t e p known = elim (Bool-cases (t == no_type)) [
    | inl same ↦ record {
      after = record p { type_counts = drop_oldest p.type_counts };
      ends = rw same;
      dropped = refl;
      wrote = λ file rest h. rw (same, h);
    }
    | inr other ↦
        (let b : base_type tbl t e.isptr ≡ done (base t e.isptr) = known (ground arith) in
          record {
            after =
                profwrite e.count t (base t e.isptr) e.size
                  (record p { type_counts = drop_oldest p.type_counts });
            ends = rw (other, b);
            dropped = refl;
            wrote = λ file rest h.
                rw (other, h)
                  (append_assoc p.prof (log_bytes (record_of base (t, e)))
                    (log_file (records base rest)));
          })
  ]

  free_counts-Freed :
      (es : Table CountEntry) (p : Prof) → length p.type_counts ≡ length es → Known es → Freed es p
  unfolding free_counts records
  free_counts-Freed [] p h known = record {
    after = p;
    ends = refl;
    emptied = empty_of_length p.type_counts h;
    wrote = sym (append-nil p.prof);
  }
  free_counts-Freed ((t, e) ∷ es) p h known =
      let one : FreedOne (t, e) p = free_count-FreedOne t e p known.0 in
      let rest : Freed es one.after =
        free_counts-Freed es one.after
          (ap length one.dropped ∙ length-drop_oldest (length es) p.type_counts h) known.1 in
      record {
        after = rest.after;
        ends = ap (λ m. m >>= λ p'. free_counts tbl es p') one.ends ∙ rest.ends;
        emptied = rest.emptied;
        wrote = rest.wrote ∙ one.wrote (log_file (records base es)) es refl;
      }

  -- Where the type table answers what is asked about each entry, but those for the type -1,
  -- `profile_free` ends, leaves no entry, and the file has one record for each entry of another type,
  -- in the order of the entries.
  pub profile_free_lem :
      (p : Prof)
      → Known (iter p.type_counts)
      → (p' : Prof) × (profile_free tbl p ≡ done p')
        × (p'.type_counts ≡ [])
        × (p'.prof ≡ log_file (records base (iter p.type_counts)))
  unfolding profile_free
  profile_free_lem p known =
      let freed : Freed (iter p.type_counts) (record p { prof = [] }) =
        free_counts-Freed (iter p.type_counts) (record p { prof = [] })
          (sym (length-reverse p.type_counts)) known in
      (freed.after, freed.ends, freed.emptied, freed.wrote)
