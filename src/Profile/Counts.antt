-- ===== src/Profile/Counts.antt =====
-- What `prof_add_typ` of examples/redis-2.0.2/profile.c has counted.
use c_strider.Prelude.{
  ℕ, ◌+◌, ◌^◌, ◌<◌, ◌≡◌, ◌≢◌, Bool, Option, none, some, List, [], ◌∷◌, ◌==◌, if◌then◌else◌, length,
  arith,
}
use c_strider.Table.{find, find-add, find-modify}
use c_strider.Types.{no_type}
use c_strider.Profile.{CountEntry, Prof, counted_again, prof_add_typ, profile_init}

-- A callback's call of `prof_add_typ`: the type, whether it is a pointer's, and the size.
abbrev pub Call : Type 0
Call = ℕ × (Bool × ℕ)

unfoldable pub add_all : List Call → Prof → Prof
add_all [] p = p
add_all (c ∷ cs) p = add_all cs (prof_add_typ c.0 c.1.0 c.1.1 p)

unfoldable pub occurrences : ℕ → List Call → ℕ
occurrences t [] = 0
occurrences t (c ∷ cs) = (if c.0 == t then 1 else 0) + occurrences t cs

abbrev count_of : Option CountEntry → ℕ
count_of none = 0
count_of (some e) = e.count

unfoldable pub counted : ℕ → Prof → ℕ
counted t p = count_of (find t p.type_counts)

counted-prof_add_typ :
    (t u : ℕ) (isptr : Bool) (sz : ℕ) (p : Prof)
    → counted t p + 1 < 2 ^ 32
    → counted t (prof_add_typ u isptr sz p) ≡ (if u == t then 1 else 0) + counted t p
unfolding counted prof_add_typ
counted-prof_add_typ t u isptr sz p h = ground (
  arith,
  find-add u t (record { count = 1; isptr = isptr; size = sz }) p.type_counts,
  find-modify u t counted_again p.type_counts,
  h,
)

add_all_counts :
    (t : ℕ) (cs : List Call) (p : Prof)
    → counted t p + length cs < 2 ^ 32
    → counted t (add_all cs p) ≡ counted t p + occurrences t cs
unfolding add_all occurrences
add_all_counts t [] p h = omega arith
add_all_counts t (c ∷ cs) p h =
    let step : counted t (prof_add_typ c.0 c.1.0 c.1.1 p)
        ≡ (if c.0 == t then 1 else 0) + counted t p =
      counted-prof_add_typ t c.0 c.1.0 c.1.1 p (omega (arith, h)) in
    ground (arith, add_all_counts t cs (prof_add_typ c.0 c.1.0 c.1.1 p), step, h)

-- After `profile_init` on an empty table and fewer than 2^32 calls of `prof_add_typ`, what is counted
-- for a type other than -1 is how many of the calls had that type.
pub prof_add_typ_lem :
    (t : ℕ) (cs : List Call) (file : List ℕ)
    → t ≢ no_type
    → length cs < 2 ^ 32
    → counted t (add_all cs (profile_init (record { type_counts = []; prof = file })))
      ≡ occurrences t cs
unfolding counted find
prof_add_typ_lem t cs file proper h =
    let start : Prof = profile_init (record { type_counts = []; prof = file }) in
    let none_yet : counted t start ≡ 0 = ground arith in
    omega (arith, add_all_counts t cs start (omega (arith, none_yet, h)), none_yet)
