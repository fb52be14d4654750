-- ===== src/Types/Construct/Arrays.antt =====
-- What `mktyparr` of src/cstrider_api.c makes of a type table.
use c_strider.Prelude.{
  ℕ, ◌≡◌, ◌≢◌, refl, sym, ap, ◌∙◌, inl, inr, Bool, false, ◌&&◌, some, [], ◌==◌, Bool-cases,
  Option-cases, arith,
}
use c_strider.Hash.{super_fast_hash}
use c_strider.Hash.Reads.{super_fast_hash_lem}
use c_strider.Table.{find, add, find-add}
use c_strider.Types.{
  TypeEntry, TypeTable, get_num_array_elems, get_num_array_elems-known, get_array_base_type,
  get_array_base_type-known,
}
use c_strider.Types.Construct.{arr_key, reuse, mktyparr}
use c_strider.Types.Construct.Pointers.{Keyed, reuse-fits}

-- The result of `mktyparr`: a table with a type of `arrlen` elements of `type`.
record ArrayOf (pad arrlen type : ℕ) (tbl : TypeTable) : Type 0 where
  arr : ℕ
  after : TypeTable
  hashed : super_fast_hash (some (arr_key pad arrlen type)) 16 ≡ some arr
  made : mktyparr pad arrlen type tbl ≡ some (arr, after)
  keyed : Keyed after
  entry : TypeEntry
  found : find arr after ≡ some entry
  elems : entry.arrlen ≡ arrlen
  base : entry.arrbase ≡ type
  others : (k : ℕ) → k ≢ arr → find k after ≡ find k tbl

pub arr_hash :
    (pad arrlen type : ℕ) → (h : ℕ) × (super_fast_hash (some (arr_key pad arrlen type)) 16 ≡ some h)
arr_hash pad arrlen type =
    let (h, hashed, within, small) =
      super_fast_hash_lem (arr_key pad arrlen type) [] (omega arith) (omega arith) in
    (h, hashed)

module _ (pad arrlen type arr : ℕ) (tbl : TypeTable)
    (hashed : super_fast_hash (some (arr_key pad arrlen type)) 16 ≡ some arr) where
  abbrev fits : TypeEntry → Bool
  fits te = te.arrlen == arrlen && te.arrbase == type

  mktyparr-fits :
      (te : TypeEntry)
      → find arr tbl ≡ some te
      → te.arrlen ≡ arrlen
      → te.arrbase ≡ type
      → mktyparr pad arrlen type tbl ≡ some (te.type, tbl)
  unfolding mktyparr
  mktyparr-fits te e f g = rw hashed (reuse-fits arr fits tbl _ te e (ground arith))

  abbrev carved : TypeEntry → TypeEntry
  carved e = record e { type = arr; arrlen = arrlen; arrbase = type }

  mktyparr-new :
      (e : TypeEntry)
      → find type tbl ≡ some e
      → ((te : TypeEntry) → find arr tbl ≡ some te → fits te ≡ false)
      → mktyparr pad arrlen type tbl ≡ some (arr, add arr (carved e) tbl)
  unfolding mktyparr reuse
  mktyparr-new e known none_fits = elim (Option-cases (find arr tbl)) [
    | inl free ↦ ground (arith, hashed)
    | inr (te, taken) ↦ ground (arith, hashed, none_fits te taken)
  ]

  carved-ArrayOf :
      (e : TypeEntry)
      → Keyed tbl
      → find type tbl ≡ some e
      → ((te : TypeEntry) → find arr tbl ≡ some te → fits te ≡ false)
      → ArrayOf pad arrlen type tbl
  carved-ArrayOf e keyed known none_fits = record {
    arr = arr;
    after = add arr (carved e) tbl;
    hashed = hashed;
    made = mktyparr-new e known none_fits;
    keyed = λ k e' at. ground (arith, find-add arr k (carved e) tbl, keyed k e');
    entry = carved e;
    found = ground (arith, find-add arr arr (carved e) tbl);
    elems = refl;
    base = refl;
    others = λ k ne. ground (arith, find-add arr k (carved e) tbl);
  }

  fits-ArrayOf :
      (te : TypeEntry)
      → Keyed tbl
      → find arr tbl ≡ some te
      → te.arrlen ≡ arrlen
      → te.arrbase ≡ type
      → ArrayOf pad arrlen type tbl
  fits-ArrayOf te keyed at f g = record {
    arr = arr;
    after = tbl;
    hashed = hashed;
    made = mktyparr-fits te at f g ∙ ap (λ k. some (k, tbl)) (keyed arr te at);
    keyed = keyed;
    entry = te;
    found = at;
    elems = f;
    base = g;
    others = λ k ne. refl;
  }

mktyparr-ArrayOf :
    (pad arrlen type : ℕ) (tbl : TypeTable) {e : TypeEntry}
    → Keyed tbl
    → find type tbl ≡ some e
    → ArrayOf pad arrlen type tbl
mktyparr-ArrayOf pad arrlen type tbl {e} keyed known =
    let (arr, hashed) = arr_hash pad arrlen type in
    elim (Option-cases (find arr tbl)) [
      | inl free ↦ carved-ArrayOf pad arrlen type arr tbl hashed e keyed known (λ te at. cc)
      | inr (te, taken) ↦ elim (Bool-cases (te.arrlen == arrlen && te.arrbase == type)) [
        | inl yes_fits ↦
            fits-ArrayOf pad arrlen type arr tbl hashed te keyed taken (ground arith) (ground arith)
        | inr other ↦
            carved-ArrayOf pad arrlen type arr tbl hashed e keyed known (λ te' at. ground arith)
      ]
    ]

-- For an element type that the table has, `mktyparr` returns a type with that many elements of that
-- type; asked again with the same padding bytes it returns the same type and changes nothing. All
-- other types keep their entries, and each entry still stands under its own type.
pub mktyparr_lem :
    (pad arrlen type : ℕ) (tbl : TypeTable) {e : TypeEntry}
    → Keyed tbl
    → find type tbl ≡ some e
    → (arr : ℕ) × (after : TypeTable) × (mktyparr pad arrlen type tbl ≡ some (arr, after))
      × (get_num_array_elems after arr ≡ some arrlen)
      × (get_array_base_type after arr ≡ some type)
      × (mktyparr pad arrlen type after ≡ some (arr, after))
      × ((k : ℕ) → k ≢ arr → find k after ≡ find k tbl)
      × Keyed after
mktyparr_lem pad arrlen type tbl keyed known =
    let a = mktyparr-ArrayOf pad arrlen type tbl keyed known in
    (
      a.arr,
      a.after,
      a.made,
      get_num_array_elems-known a.after a.arr a.found ∙ ap some a.elems,
      get_array_base_type-known a.after a.arr a.found ∙ ap some a.base,
      mktyparr-fits pad arrlen type a.arr a.after a.hashed a.entry a.found a.elems a.base
          ∙ ap (λ k. some (k, a.after)) (a.keyed a.arr a.entry a.found),
      a.others,
      a.keyed,
    )

-- The hashed key has bytes that the code never writes. If with two values of them the key hashes
-- to different values, the first of which is not the element type, then the same array type, asked
-- for with the one and then with the other, gets two `typ`s, whatever the table had before: it then
-- has two types with that many elements of that type.
pub mktyparr_padding :
    (pad pad' arrlen type : ℕ) (tbl : TypeTable) {e : TypeEntry} {arr arr' : ℕ}
    → Keyed tbl
    → find type tbl ≡ some e
    → super_fast_hash (some (arr_key pad arrlen type)) 16 ≡ some arr
    → super_fast_hash (some (arr_key pad' arrlen type)) 16 ≡ some arr'
    → arr ≢ arr'
    → arr ≢ type
    → (after : TypeTable) × (after' : TypeTable) × (mktyparr pad arrlen type tbl
        ≡ some (arr, after))
      × (mktyparr pad' arrlen type after ≡ some (arr', after'))
      × (get_num_array_elems after' arr ≡ some arrlen)
      × (get_array_base_type after' arr ≡ some type)
      × (get_num_array_elems after' arr' ≡ some arrlen)
      × (get_array_base_type after' arr' ≡ some type)
mktyparr_padding pad pad' arrlen type tbl {e} {arr} {arr'} keyed known h h' ne ne' =
    let a = mktyparr-ArrayOf pad arrlen type tbl keyed known in
    let is_arr : a.arr ≡ arr = ground (arith, sym a.hashed ∙ h) in
    let still : find type a.after ≡ some e =
      a.others type (λ z. ne' (sym is_arr ∙ sym z)) ∙ known in
    let b = mktyparr-ArrayOf pad' arrlen type a.after a.keyed still in
    let is_arr' : b.arr ≡ arr' = ground (arith, sym b.hashed ∙ h') in
    let first : find arr b.after ≡ some a.entry =
      b.others arr (λ z. ne (z ∙ is_arr')) ∙ ap (λ k. find k a.after) (sym is_arr) ∙ a.found in
    let second : find arr' b.after ≡ some b.entry =
      ap (λ k. find k b.after) (sym is_arr') ∙ b.found in
    (
      a.after,
      b.after,
      a.made ∙ ap (λ k. some (k, a.after)) is_arr,
      b.made ∙ ap (λ k. some (k, b.after)) is_arr',
      get_num_array_elems-known b.after arr first ∙ ap some a.elems,
      get_array_base_type-known b.after arr first ∙ ap some a.base,
      get_num_array_elems-known b.after arr' second ∙ ap some b.elems,
      get_array_base_type-known b.after arr' second ∙ ap some b.base,
    )
