-- ===== src/Traversal/Still.antt =====
-- What a traversal of src/transform.c that works in place, and only looks, leaves as it was.
use c_strider.Prelude.{
  ℕ, ◌≡◌, ◌≢◌, refl, sym, ap, ◌∙◌, subst, fun_ext, inl, inr, Bool-cases, ◌==◌, arith,
}
use c_strider.Outcome.{Outcome, done, fault, out_of_fuel}
use c_strider.Types.{get_size, get_out_size}
use c_strider.Traversal.State.{World, Task, Env, Visit, find_mapping, add_mapping, store}
use c_strider.Queue.Slots.{EachSlot}
use c_strider.Traversal.Grows.{After}
use c_strider.Traversal.Mappings.{
  find_mapping_cong, add_mapping-mem, add_mapping-user, add_mapping-queues, add_mapping-types,
  add_mapping_self, find_mapping-add_mapping_other, find_mapping_null,
}

-- A task that is to be worked on in place.
abbrev pub InPlace : Task → Type 0
InPlace t = t.input ≡ t.output

-- Each address that is mapped is mapped to itself, the new version of a type has the size of the old
-- one, and what the queues hold is to be worked on in place.
pub record Still {U : Type 0} (w : World U) : Type 0 where
  pub to_itself : (k : ℕ) → find_mapping k w ≢ 0 → find_mapping k w ≡ k
  pub same_size : (t : ℕ) → get_out_size w.types t ≡ get_size w.types t
  pub in_place : EachSlot InPlace w.queues

-- The memory, the types and what `kept` tells of the service's state are the same, and the state is
-- still.
pub record Stays {U K : Type 0} (kept : U → K) (w w' : World U) : Type 0 where
  pub same_mem : w'.mem ≡ w.mem
  pub same_types : w'.types ≡ w.types
  pub same_kept : kept w'.user ≡ kept w.user
  pub still : Still w'

module _ {U K : Type 0} (kept : U → K) where
  pub Stays-trans : {u v w : World U} → Stays kept u v → Stays kept v w → Stays kept u w
  Stays-trans a b = record {
    same_mem = b.same_mem ∙ a.same_mem;
    same_types = b.same_types ∙ a.same_types;
    same_kept = b.same_kept ∙ a.same_kept;
    still = b.still;
  }

  pub After-Stays :
      (u v : World U) (m : Outcome (World U))
      → Stays kept u v
      → After (Stays kept v) m
      → After (Stays kept u) m
  After-Stays u v (done w) a b = Stays-trans a b
  After-Stays u v fault a b = tt
  After-Stays u v out_of_fuel a b = tt

  -- The mappings are the same, too.
  pub same-Stays :
      (w w' : World U)
      → Still w
      → w'.mem ≡ w.mem
      → w'.types ≡ w.types
      → w'.mappings ≡ w.mappings
      → EachSlot InPlace w'.queues
      → kept w'.user ≡ kept w.user
      → Stays kept w w'
  same-Stays w w' s mem types mappings tasks user = record {
    same_mem = mem;
    same_types = types;
    same_kept = user;
    still = record {
      to_itself = λ k h.
          (let same : find_mapping k w' ≡ find_mapping k w = find_mapping_cong k w w' mappings in
            same ∙ s.to_itself k (λ z. h (same ∙ z)));
      same_size =
          λ t. subst (λ tbl. get_out_size tbl t ≡ get_size tbl t) (sym types) (s.same_size t);
      in_place = tasks;
    };
  }

  add_mapping-to_itself :
      (p k : ℕ) (w : World U)
      → Still w
      → find_mapping k (add_mapping p p w) ≢ 0
      → find_mapping k (add_mapping p p w) ≡ k
  add_mapping-to_itself p k w s h = elim (Bool-cases (k == p)) [
    | inr other ↦
        (let same : find_mapping k (add_mapping p p w) ≡ find_mapping k w =
            find_mapping-add_mapping_other k p p w (ground arith) in
          same ∙ s.to_itself k (λ z. h (same ∙ z)))
    | inl same ↦
        subst (λ q. find_mapping k (add_mapping q q w) ≡ k) (ground arith)
          (add_mapping_self k w
            (λ z. h (
              subst (λ j. find_mapping j (add_mapping p p w) ≡ 0) (sym z)
                (find_mapping_null (add_mapping p p w))))
            (elim (Bool-cases (find_mapping k w == 0)) [
              | inl new ↦ inl (ground arith)
              | inr known ↦ inr (s.to_itself k (ground arith))
            ]))
  ]

  -- An address is mapped to itself.
  pub add_mapping-Stays : (p : ℕ) (w : World U) → Still w → Stays kept w (add_mapping p p w)
  add_mapping-Stays p w s = record {
    same_mem = add_mapping-mem p p w;
    same_types = add_mapping-types p p w;
    same_kept = ap kept (add_mapping-user p p w);
    still = record {
      to_itself = λ k h. add_mapping-to_itself p k w s h;
      same_size = λ t.
          subst (λ tbl. get_out_size tbl t ≡ get_size tbl t) (sym (add_mapping-types p p w))
            (s.same_size t);
      in_place = subst (EachSlot InPlace) (sym (add_mapping-queues p p w)) s.in_place;
    };
  }

  -- A cell is written with what it holds.
  pub store-Stays : (a : ℕ) (w : World U) → Still w → Stays kept w (store a (w.mem a) w)
  store-Stays a w s =
      same-Stays w (store a (w.mem a) w) s (fun_ext (λ x. ground arith)) refl refl s.in_place refl

abbrev pub VisitStays : {U K : Type 0} → (U → K) → Visit U → Type 0
VisitStays {U} kept rec = (a t : ℕ) (w : World U) → Still w → After (Stays kept w) (rec a t a w)

-- The callbacks of a service look only, if the visits do that they make, where `in` is `out`.
pub record LooksOnly {U K : Type 0} (kept : U → K) (env : Env U) : Type 0 where
  pub prim_looks :
      (rec : Visit U)
      → VisitStays kept rec
      → (a t : ℕ) (w : World U) → Still w
      → After (Stays kept w) (env.perfaction_prim rec a t a w)
  pub struct_looks :
      (rec : Visit U)
      → VisitStays kept rec
      → (a t : ℕ) (w : World U) → Still w
      → After (λ r. Stays kept w (r.1)) (env.perfaction_struct rec a t a w)
  pub ptr_looks :
      (rec : Visit U)
      → VisitStays kept rec
      → (a t : ℕ) (w : World U) → Still w
      → After (λ r. Stays kept w (r.1)) (env.perfaction_ptr rec a t a w)
  pub mapped_looks :
      (rec : Visit U)
      → VisitStays kept rec
      → (a t : ℕ) (w : World U) → Still w
      → After
          (λ r. Stays kept w (r.1) × (r.0 ≡ w.mem a))
          (env.perfaction_ptr_mapped rec a t (w.mem a) w)
