-- ===== src/Types/Construct/Pointers.antt =====
-- What `mktypptr` of src/cstrider_api.c makes of a type table.
use mathlib.Core.Option
use c_strider.Prelude.{
  ℕ, ◌≡◌, ◌≢◌, refl, ap, ◌∙◌, inl, inr, Bool, true, Option, some, [], ◌==◌, if◌then◌else◌,
  Bool-cases, Option-cases, arith,
}
use c_strider.Hash.{super_fast_hash}
use c_strider.Hash.Reads.{super_fast_hash_lem}
use c_strider.Table.{find, add, modify, find-add, find-modify}
use c_strider.Types.{TypeEntry, TypeTable, get_ptrtype, get_ptrtype-known}
use c_strider.Types.Construct.{ptr_key, new_ptr_entry, reuse, mktypptr}

-- Each entry stands under its own type.
abbrev pub Keyed : TypeTable → Type 0
Keyed tbl = (k : ℕ) (e : TypeEntry) → find k tbl ≡ some e → e.type ≡ k

-- The entry of `key`, if it serves.
pub reuse-fits :
    (key : ℕ) (fits : TypeEntry → Bool) (tbl : TypeTable) (make : Option (ℕ × TypeTable))
    (te : TypeEntry)
    → find key tbl ≡ some te
    → fits te ≡ true
    → reuse key fits tbl make ≡ some (te.type, tbl)
unfolding reuse
reuse-fits key fits tbl make te e f = ground arith

-- The result of `mktypptr` for `type`: a table with a pointer type `ptr`.
pub record PointerTo (type : ℕ) (tbl : TypeTable) : Type 0 where
  pub ptr : ℕ
  pub after : TypeTable
  pub hashed : super_fast_hash (some (ptr_key type)) 8 ≡ some ptr
  pub made : mktypptr type tbl ≡ some (ptr, after)
  pub keyed : Keyed after
  pub entry : TypeEntry
  pub found : find ptr after ≡ some entry
  pub points : entry.target_type ≡ type
  pub others : (k : ℕ) → k ≢ ptr → k ≢ type → find k after ≡ find k tbl

ptr_hash : (type : ℕ) → (h : ℕ) × (super_fast_hash (some (ptr_key type)) 8 ≡ some h)
ptr_hash type =
    let (h, hashed, within, small) =
      super_fast_hash_lem (ptr_key type) [] (omega arith) (omega arith) in
    (h, hashed)

module _ (type ptr : ℕ) (tbl : TypeTable)
    (hashed : super_fast_hash (some (ptr_key type)) 8 ≡ some ptr) where
  mktypptr-fits :
      (te : TypeEntry)
      → find ptr tbl ≡ some te
      → te.target_type ≡ type
      → mktypptr type tbl ≡ some (te.type, tbl)
  unfolding mktypptr
  mktypptr-fits te e f =
      rw hashed (reuse-fits ptr (λ te. te.target_type == type) tbl _ te e (ground arith))

  abbrev repoint : TypeEntry → TypeEntry
  repoint e = record e { pointer_to = ptr }

  abbrev grown : TypeTable
  grown = modify type repoint (add ptr (new_ptr_entry ptr type) tbl)

  mktypptr-new :
      (e : TypeEntry)
      → find type tbl ≡ some e
      → ((te : TypeEntry) → find ptr tbl ≡ some te → te.target_type ≢ type)
      → mktypptr type tbl ≡ some (ptr, grown)
  unfolding mktypptr reuse
  mktypptr-new e known none_fits = elim (Option-cases (find ptr tbl)) [
    | inl free ↦ ground (arith, hashed, find-add ptr type (new_ptr_entry ptr type) tbl)
    | inr (te, taken) ↦
        ground (arith, hashed, find-add ptr type (new_ptr_entry ptr type) tbl, none_fits te taken)
  ]

  find-grown :
      (k : ℕ)
      → find k grown ≡ (
          if type == k
          then Option.map repoint (if ptr == k then some (new_ptr_entry ptr type) else find k tbl)
          else if ptr == k
          then some (new_ptr_entry ptr type)
          else find k tbl)
  find-grown k = rw (find-modify, find-add)

  grown-Keyed : Keyed tbl → Keyed grown
  unfolding new_ptr_entry
  grown-Keyed keyed k e at = elim (Option-cases (find k tbl)) [
    | inl free ↦ ground (arith, find-grown k)
    | inr (e', known) ↦ ground (arith, find-grown k, keyed k e' known)
  ]

  grown-PointerTo :
      {e : TypeEntry}
      → Keyed tbl
      → find type tbl ≡ some e
      → ((te : TypeEntry) → find ptr tbl ≡ some te → te.target_type ≢ type)
      → PointerTo type tbl
  unfolding new_ptr_entry
  grown-PointerTo {e} keyed known none_fits = record {
    ptr = ptr;
    after = grown;
    hashed = hashed;
    made = mktypptr-new e known none_fits;
    keyed = grown-Keyed keyed;
    entry =
        let new = new_ptr_entry ptr type in
        if type == ptr then record new { pointer_to = ptr } else new;
    found = ground (arith, find-grown ptr);
    points = ground arith;
    others = λ k ne ne'. ground (arith, find-grown k);
  }

  fits-PointerTo :
      (te : TypeEntry)
      → Keyed tbl
      → find ptr tbl ≡ some te
      → te.target_type ≡ type
      → PointerTo type tbl
  fits-PointerTo te keyed at f = record {
    ptr = ptr;
    after = tbl;
    hashed = hashed;
    made = mktypptr-fits te at f ∙ ap (λ k. some (k, tbl)) (keyed ptr te at);
    keyed = keyed;
    entry = te;
    found = at;
    points = f;
    others = λ k ne ne'. refl;
  }

-- For a type that the table has, `mktypptr` returns a type whose target is that type, in a table
-- where all but these two are as before.
pub mktypptr-PointerTo :
    (type : ℕ) (tbl : TypeTable) {e : TypeEntry}
    → Keyed tbl
    → find type tbl ≡ some e
    → PointerTo type tbl
mktypptr-PointerTo type tbl keyed known =
    let (ptr, hashed) = ptr_hash type in
    elim (Option-cases (find ptr tbl)) [
      | inl free ↦ grown-PointerTo type ptr tbl hashed keyed known (λ te at. cc)
      | inr (te, taken) ↦ elim (Bool-cases (te.target_type == type)) [
        | inl fits ↦ fits-PointerTo type ptr tbl hashed te keyed taken (ground arith)
        | inr other ↦ grown-PointerTo type ptr tbl hashed keyed known (λ te' at. ground arith)
      ]
    ]

-- For a type that the table has, `mktypptr` returns a type whose target is that type; asked again it
-- returns the same type and changes nothing. All types but the two keep their entries, and each
-- entry still stands under its own type.
pub mktypptr_lem :
    (type : ℕ) (tbl : TypeTable) {e : TypeEntry}
    → Keyed tbl
    → find type tbl ≡ some e
    → (ptr : ℕ) × (after : TypeTable) × (mktypptr type tbl ≡ some (ptr, after))
      × (get_ptrtype after ptr ≡ some type)
      × (mktypptr type after ≡ some (ptr, after))
      × ((k : ℕ) → k ≢ ptr → k ≢ type → find k after ≡ find k tbl)
      × Keyed after
mktypptr_lem type tbl keyed known =
    let p = mktypptr-PointerTo type tbl keyed known in
    let again : mktypptr type p.after ≡ some (p.ptr, p.after) =
      mktypptr-fits type p.ptr p.after p.hashed p.entry p.found p.points
      ∙ ap (λ k. some (k, p.after)) (p.keyed p.ptr p.entry p.found) in
    (
      p.ptr,
      p.after,
      p.made,
      target p.after p.ptr p.entry p.found p.points,
      again,
      p.others,
      p.keyed,
    )
  where
    target :
        (tbl : TypeTable) (k : ℕ) (e : TypeEntry)
        → find k tbl ≡ some e
        → e.target_type ≡ type
        → get_ptrtype tbl k ≡ some type
    target tbl k e at f = get_ptrtype-known tbl k at ∙ ap some f
