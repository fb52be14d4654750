-- ===== src/Pool/Leaving.antt =====
-- How the threads of src/transform.c come to an end once the traversal is over.
use c_strider.Prelude.{
  ==_iff, subst, sym, ℕ, zero, suc, ◌<◌, ◌≤◌, ◌≡◌, ◌≢◌, ◌⊎◌, refl, inl, inr, ap, true, false, ◌==◌,
  Bool-cases, arith, update, update_self,
}
use c_strider.Queue.{QueueArray}
use c_strider.Queue.Array.{dequeue-empty_home}
use c_strider.Queue.Done.{allqempty_set}
use c_strider.Pool.{
  Pc, waiting, fetching, polling, working, left, System, launch_helpers, miss, poll_done, Reach,
  here, next, Reach-trans,
}
use c_strider.Pool.Inv.{Inv, busy_with}
use c_strider.Pool.Safety.{left-over, launch_helpers-Inv, Reach-Inv}

module _ {A : Type 0} (n : ℕ) where
  abbrev Calm : Pc A → Type 0
  Calm p = (p ≡ fetching) ⊎ ((p ≡ polling) ⊎ (p ≡ left))

  -- `allqdone` is set, all queues are empty, and no thread is about to start or at work.
  record Resting (s : System A) : Type 0 where
    set : s.allqdone ≡ true
    empty : (j : ℕ) → j < n → (s.queues j).count ≡ 0
    calm : (j : ℕ) → j < n → Calm (s.pc j)

  abbrev at : System A → ℕ → Pc A → System A
  at s j p = record s { pc = update s.pc j p }

  at-Resting : (s : System A) (j : ℕ) (p : Pc A) → Calm p → Resting s → Resting (at s j p)
  at-Resting s j p calm r = record {
    set = r.set;
    empty = r.empty;
    calm = λ i h. elim (Bool-cases (j == i)) [ inl e ↦ rw e calm | inr e ↦ rw e (r.calm i h) ];
  }

  keeps_left :
      (s : System A) (j i : ℕ) (p : Pc A)
      → p ≡ left ⊎ (i ≢ j)
      → s.pc i ≡ left
      → (at s j p).pc i ≡ left
  keeps_left s j i p (inl e) h = ground (arith, e)
  keeps_left s j i p (inr ne) h = ground arith

  -- `t` is reached from `s`, rests too, and thread `j` and all that had left have left.
  record Leaves (s : System A) (j : ℕ) (t : System A) : Type 0 where
    reach : Reach n s t
    rests : Resting t
    out : t.pc j ≡ left
    kept : (i : ℕ) → s.pc i ≡ left → t.pc i ≡ left

  polling-Leaves :
      (s : System A) (j : ℕ)
      → Resting s
      → j < n
      → s.pc j ≡ polling
      → Leaves s j (record (at s j left) { allqdone = true })
  polling-Leaves s j r h e = record {
    reach = next here (poll_done j h e (allqempty_set s.allqdone s.queues n r.set));
    rests = record {
      set = refl;
      empty = r.empty;
      calm = (at-Resting s j left (inr (inr refl)) r).calm;
    };
    out = update_self s.pc j left;
    kept = λ i l. keeps_left s j i left (inl refl) l;
  }

  Leaves-trans :
      {s u t : System A} {j : ℕ}
      → Reach n s u
      → ((i : ℕ) → s.pc i ≡ left → u.pc i ≡ left)
      → Leaves u j t
      → Leaves s j t
  Leaves-trans r keep l = record {
    reach = Reach-trans r l.reach;
    rests = l.rests;
    out = l.out;
    kept = λ i e. l.kept i (keep i e);
  }

  one-Leaves : (s : System A) (j : ℕ) → Resting s → j < n → (t : System A) × Leaves s j t
  one-Leaves s j r h = elim (r.calm j h) [
    | inl e ↦ (
      _,
      Leaves-trans (next here (miss j 0 h e (dequeue-empty_home n s.queues j (r.empty j h))))
          (λ i l. keeps_left s j i polling (inr (elsewhere s i j e l)) l)
          (polling-Leaves (at s j polling) j (at-Resting s j polling (inr (inl refl)) r) h
            (update_self s.pc j polling)),
    )
    | inr (inl e) ↦ (_, polling-Leaves s j r h e)
    | inr (inr e) ↦ (s, record { reach = here; rests = r; out = e; kept = λ i l. l })
  ]
    where
      elsewhere : (s : System A) (i j : ℕ) → s.pc j ≡ fetching → s.pc i ≡ left → i ≢ j
      elsewhere s i j e l q = let same : s.pc i ≡ s.pc j = ap s.pc q in cc

  -- The first `k` threads leave, one after the other.
  some_leave :
      (s : System A) (k : ℕ)
      → k ≤ n
      → Resting s
      → (t : System A) × Reach n s t × Resting t × ((j : ℕ) → j < k → t.pc j ≡ left)
  some_leave s zero h r = (s, here, r, λ j b. absurd (omega arith))
  some_leave s (suc k) h r =
      let (u, su, ru, out) = some_leave s k (omega arith) r in
      let (t, l) = one-Leaves u k ru (omega arith) in
      (
        t,
        Reach-trans su l.reach,
        l.rests,
        λ j b. elim (Bool-cases (j == k)) [
          | inl e ↦ subst (λ i. t.pc i ≡ left) (sym ((==_iff j k).0 e)) l.out
          | inr e ↦ l.kept j (out j (ground arith))
        ],
      )

  -- In a traversal that begins with `allqdone` clear, once one thread has left, all can: from that
  -- state there are steps after which every thread has left.
  pub all_can_leave :
      (qs : QueueArray A) {s : System A} (i : ℕ)
      → Reach n (launch_helpers false qs) s
      → s.pc i ≡ left
      → (t : System A) × Reach n s t × ((j : ℕ) → j < n → t.pc j ≡ left)
  all_can_leave qs {s} i r e =
      let inv : Inv n s = Reach-Inv (launch_helpers-Inv n qs) r in
      let (idle, quiet, all) = left-over n qs i r e in
      let rest : Resting s = record {
        set = inv.exited i e;
        empty = λ j h. (idle j h).empty;
        calm = λ j h. calm_of (s.pc j) (quiet j h).0 (quiet j h).1;
      } in
      let (t, reach, rests, out) = some_leave s n (omega arith) rest in (t, reach, out)
    where
      calm_of : (p : Pc A) → busy_with p ≡ 0 → p ≢ waiting → Calm p
      calm_of waiting b w = absurd (w refl)
      calm_of fetching b w = inl refl
      calm_of polling b w = inr (inl refl)
      calm_of (working x) b w = absurd (omega arith)
      calm_of left b w = inr (inr refl)
