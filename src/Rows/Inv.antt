-- ===== src/Rows/Inv.antt =====
-- The invariant of the threads that handle pointers in `visit` of src/transform.c.
use c_strider.Prelude.{
  ℕ, suc, ◌+◌, ◌≤◌, ◌≡◌, ◌≢◌, refl, sym, ap, ◌∙◌, List, [], ◌∷◌, ◌==◌, if◌then◌else◌, update, arith,
  Bool-cases, inl, inr,
}
use c_strider.Traversal.State.{World, find_mapping, add_mapping}
use c_strider.Traversal.Grows.{add_mapping_lem, add_mapping-Grows}
use c_strider.Traversal.Mappings.{find_mapping_cong, find_mapping-add_mapping_other}
use c_strider.Rows.{
  Section, locked, calling, Threads, unlocked, nobody_in, lock, relock, found, call, map_it, work,
  Reach, here, next, NoRelock, times, calls,
}

abbrev pointer : Section → ℕ
pointer (locked p) = p
pointer (calling p) = p

-- How many locks of the row `r` a thread has.
pub in_row : (ℕ → ℕ) → ℕ → List Section → ℕ
in_row row r [] = 0
in_row row r (x ∷ st) = (if row (pointer x) == r then 1 else 0) + in_row row r st

-- How many of the pointers are NULL.
pub nulls : List Section → ℕ
nulls [] = 0
nulls (x ∷ st) = (if pointer x == 0 then 1 else 0) + nulls st

pub calls-le-in_row : (row : ℕ → ℕ) (p : ℕ) (st : List Section) → calls p st ≤ in_row row (row p) st
unfolding calls in_row
calls-le-in_row row p [] = omega arith
calls-le-in_row row p (locked q ∷ st) = ground (arith, calls-le-in_row row p st)
calls-le-in_row row p (calling q ∷ st) = ground (arith, calls-le-in_row row p st)

add_mapping-mapped :
    {U : Type 0} (p c : ℕ) (w : World U) → p ≢ 0 → c ≢ 0 → find_mapping p (add_mapping p c w) ≢ 0
add_mapping-mapped p c w live got e = elim (Bool-cases (find_mapping p w == 0)) [
  | inl new ↦ got (sym (add_mapping_lem p c w live (ground arith)) ∙ e)
  | inr old ↦ ground (arith, (add_mapping-Grows p c w).kept p)
]

pub record Inv {U : Type 0} (row : ℕ → ℕ) (s : Threads U) : Type 0 where
  pub owned : (i r : ℕ) → in_row row r (s.at i) ≢ 0 → s.holder r ≡ suc i
  pub single : (i r : ℕ) → in_row row r (s.at i) ≤ 1
  pub proper : (i : ℕ) → nulls (s.at i) ≡ 0
  pub once : (p : ℕ) → times p s.called ≤ 1
  pub met :
      (p : ℕ)
      → p ≢ 0
      → times p s.called ≢ 0
      → find_mapping p s.world ≡ 0
      → (i : ℕ) × (calls p (s.at i) ≢ 0)

module _ {U : Type 0} {row : ℕ → ℕ} {s : Threads U} (inv : Inv row s) where
  open inv use {owned, single, proper, once, met}

  lock-Inv :
      (i p : ℕ)
      → p ≢ 0
      → s.holder (row p) ≡ 0
      → Inv row (record s {
        holder = update s.holder (row p) (suc i);
        at = update s.at i (locked p ∷ s.at i);
      })
  unfolding in_row nulls calls
  lock-Inv i p live free = record {
    owned = λ j r h. ground (arith, owned j r, owned i r);
    single = λ j r. ground (arith, single j r, owned i r);
    proper = λ j. ground (arith, proper j, proper i);
    once = once;
    met = λ q l t n.
        let k : (j : ℕ) × (calls q (s.at j) ≢ 0) = met q l t n in (k.0, ground (arith, k.1));
  }

  -- The thread `i` releases the row of `x`, and the others are where they were.
  released-owned :
      (i : ℕ) (x : Section) (st : List Section)
      → s.at i ≡ x ∷ st
      → (j r : ℕ) → in_row row r (update s.at i st j) ≢ 0
      → update s.holder (row (pointer x)) 0 r ≡ suc j
  unfolding in_row
  released-owned i x st at_i j r h =
      let mine : (r : ℕ)
          → in_row row r (s.at i) ≡ (if row (pointer x) == r then 1 else 0) + in_row row r st =
        λ r. ap (in_row row r) at_i in
      ground (
        arith,
        owned j r,
        owned i (row (pointer x)),
        owned i r,
        single i r,
        mine r,
        mine (row (pointer x)),
      )

  -- What a thread has on its stack under the top.
  top-single :
      (i : ℕ) (x : Section) (st : List Section)
      → s.at i ≡ x ∷ st
      → (j r : ℕ) → in_row row r (update s.at i st j) ≤ 1
  unfolding in_row
  top-single i x st at_i j r =
      let mine : in_row row r (s.at i) ≡ (if row (pointer x) == r then 1 else 0) + in_row row r st =
        ap (in_row row r) at_i in
      ground (arith, single j r, single i r, mine)

  top-proper :
      (i : ℕ) (x : Section) (st : List Section)
      → s.at i ≡ x ∷ st
      → (j : ℕ) → nulls (update s.at i st j) ≡ 0
  unfolding nulls
  top-proper i x st at_i j =
      let mine : nulls (s.at i) ≡ (if pointer x == 0 then 1 else 0) + nulls st = ap nulls at_i in
      ground (arith, proper j, proper i, mine)

  top_live : (i : ℕ) (x : Section) (st : List Section) → s.at i ≡ x ∷ st → pointer x ≢ 0
  unfolding nulls
  top_live i x st at_i =
      let mine : nulls (s.at i) ≡ (if pointer x == 0 then 1 else 0) + nulls st = ap nulls at_i in
      ground (arith, proper i, mine)

  found-Inv :
      (i p : ℕ) (st : List Section)
      → s.at i ≡ locked p ∷ st
      → Inv row (unlocked row i p st s.world s)
  unfolding calls
  found-Inv i p st at_i = record {
    owned = released-owned i (locked p) st at_i;
    single = top-single i (locked p) st at_i;
    proper = top-proper i (locked p) st at_i;
    once = once;
    met = λ q l t n.
        let k : (j : ℕ) × (calls q (s.at j) ≢ 0) = met q l t n in
        let mine : calls q (s.at i) ≡ calls q st = ap (calls q) at_i in
        (k.0, ground (arith, k.1, mine));
  }

  -- A pointer whose row is locked and that is not mapped has not been called for.
  not_called :
      (i p : ℕ) (st : List Section)
      → s.at i ≡ locked p ∷ st
      → find_mapping p s.world ≡ 0
      → times p s.called ≡ 0
  unfolding in_row calls
  not_called i p st at_i new = elim (Bool-cases (times p s.called == 0)) [
    | inl e ↦ ground arith
    | inr e ↦
        let k : (j : ℕ) × (calls p (s.at j) ≢ 0) =
          met p (top_live i (locked p) st at_i) (ground arith) new in
        let mine : in_row row (row p) (s.at i) ≡ 1 + in_row row (row p) st =
          ap (in_row row (row p)) at_i ∙ ground arith in
        let below : calls p (s.at i) ≡ calls p st = ap (calls p) at_i in
        absurd (
          ground (
            arith,
            k.1,
            mine,
            below,
            single i (row p),
            owned i (row p),
            owned k.0 (row p),
            calls-le-in_row row p (s.at k.0),
            calls-le-in_row row p st,
          ))
  ]

  call-Inv :
      (i p : ℕ) (st : List Section)
      → s.at i ≡ locked p ∷ st
      → find_mapping p s.world ≡ 0
      → Inv row (record s { at = update s.at i (calling p ∷ st); called = p ∷ s.called })
  unfolding times in_row nulls calls
  call-Inv i p st at_i new =
      let rows : (r : ℕ) → in_row row r (s.at i) ≡ (if row p == r then 1 else 0) + in_row row r st =
        λ r. ap (in_row row r) at_i in
      let live : nulls (s.at i) ≡ (if p == 0 then 1 else 0) + nulls st = ap nulls at_i in
      let below : (q : ℕ) → calls q (s.at i) ≡ calls q st = λ q. ap (calls q) at_i in
      record {
        owned = λ j r h. ground (arith, owned j r, owned i r, rows r);
        single = λ j r. ground (arith, single j r, single i r, rows r);
        proper = λ j. ground (arith, proper j, proper i, live);
        once = λ q. ground (arith, once q, not_called i p st at_i new);
        met = λ q l t n. elim (Bool-cases (p == q)) [
          | inl e ↦ (i, ground (arith, e))
          | inr e ↦
              let k : (j : ℕ) × (calls q (s.at j) ≢ 0) = met q l (ground (arith, t)) n in
              (k.0, ground (arith, k.1, below q))
        ];
      }

  map_it-Inv :
      (i p c : ℕ) (st : List Section)
      → s.at i ≡ calling p ∷ st
      → c ≢ 0
      → Inv row (unlocked row i p st (add_mapping p c s.world) s)
  unfolding calls
  map_it-Inv i p c st at_i got = record {
    owned = released-owned i (calling p) st at_i;
    single = top-single i (calling p) st at_i;
    proper = top-proper i (calling p) st at_i;
    once = once;
    met = λ q l t n. elim (Bool-cases (p == q)) [
      | inl e ↦ absurd (
          add_mapping-mapped p c s.world (top_live i (calling p) st at_i) got
            (ap (λ k. find_mapping k (add_mapping p c s.world)) (ground arith) ∙ n))
      | inr e ↦
          let k : (j : ℕ) × (calls q (s.at j) ≢ 0) =
            met q l t (sym (find_mapping-add_mapping_other q p c s.world (ground arith)) ∙ n) in
          let mine : calls q (s.at i) ≡ (if p == q then 1 else 0) + calls q st =
            ap (calls q) at_i in
          (k.0, ground (arith, k.1, mine, e))
    ];
  }

  work-Inv : (w : World U) → w.mappings ≡ s.world.mappings → Inv row (record s { world = w })
  work-Inv w same = record {
    owned = owned;
    single = single;
    proper = proper;
    once = once;
    met = λ q l t n. met q l t (sym (find_mapping_cong q s.world w same) ∙ n);
  }

Inv-start : {U : Type 0} {row : ℕ → ℕ} (w : World U) → Inv row (nobody_in w)
unfolding times in_row nulls
Inv-start w = record {
  owned = λ i r h. absurd (h refl);
  single = λ i r. omega arith;
  proper = λ i. refl;
  once = λ p. omega arith;
  met = λ p l t n. absurd (t refl);
}

pub Reach-Inv :
    {U : Type 0} {row : ℕ → ℕ} (w : World U) {s : Threads U} (r : Reach row (nobody_in w) s)
    → NoRelock r
    → Inv row s
unfolding NoRelock
Reach-Inv w here plain = Inv-start w
Reach-Inv w (next r (lock i p live out free)) plain = lock-Inv (Reach-Inv w r plain) i p live free
Reach-Inv w (next r (relock i p live out mine)) plain = elim plain [ ]
Reach-Inv w (next r (found i p st at_i mapped mine)) plain =
    found-Inv (Reach-Inv w r plain) i p st at_i
Reach-Inv w (next r (call i p st at_i new)) plain = call-Inv (Reach-Inv w r plain) i p st at_i new
Reach-Inv w (next r (map_it i p c st at_i got mine)) plain =
    map_it-Inv (Reach-Inv w r plain) i p c st at_i got
Reach-Inv w (next r (work w' same)) plain = work-Inv (Reach-Inv w r plain) w' same
