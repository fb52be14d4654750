-- ===== src/Traversal/Mappings.antt =====
-- What `add_mapping` of src/cstrider_api.c leaves as it was, and what `find_mapping` finds after it.
use c_strider.Prelude.{
  ℕ, ◌≡◌, ◌≢◌, ◌⊎◌, inl, inr, refl, sym, ap, subst, ◌∙◌, ◌==◌, arith, Bool-cases,
}
use c_strider.Table.{find-add}
use c_strider.Traversal.State.{World, find_mapping, add_mapping}
use c_strider.Traversal.Grows.{add_mapping_lem}

module _ {U : Type 0} where
  -- `find_mapping` looks at nothing but the mapping table.
  pub find_mapping_cong :
      (k : ℕ) (w w' : World U) → w'.mappings ≡ w.mappings → find_mapping k w' ≡ find_mapping k w
  unfolding find_mapping
  find_mapping_cong k w w' e = rw e

  pub find_mapping_null : (w : World U) → find_mapping 0 w ≡ 0
  unfolding find_mapping
  find_mapping_null w = refl

  pub add_mapping-mem : (k x : ℕ) (w : World U) → (add_mapping k x w).mem ≡ w.mem
  unfolding add_mapping
  add_mapping-mem k x w = ground arith

  pub add_mapping-user : (k x : ℕ) (w : World U) → (add_mapping k x w).user ≡ w.user
  unfolding add_mapping
  add_mapping-user k x w = ground arith

  pub add_mapping-freelater : (k x : ℕ) (w : World U) → (add_mapping k x w).freelater ≡ w.freelater
  unfolding add_mapping
  add_mapping-freelater k x w = ground arith

  pub add_mapping-queues : (k x : ℕ) (w : World U) → (add_mapping k x w).queues ≡ w.queues
  unfolding add_mapping
  add_mapping-queues k x w = ground arith

  pub add_mapping-types : (k x : ℕ) (w : World U) → (add_mapping k x w).types ≡ w.types
  unfolding add_mapping
  add_mapping-types k x w = ground arith

  add_mapping_known : (k x : ℕ) (w : World U) → find_mapping k w ≢ 0 → add_mapping k x w ≡ w
  unfolding add_mapping
  add_mapping_known k x w h = ground arith

  pub find_mapping-add_mapping_other :
      (k p x : ℕ) (w : World U) → k ≢ p → find_mapping k (add_mapping p x w) ≡ find_mapping k w
  unfolding find_mapping add_mapping
  find_mapping-add_mapping_other k p x w h = ground (arith, find-add p k x w.mappings)

  -- An address that is mapped to itself, where at most it can be mapped to itself already.
  pub add_mapping_self :
      (c : ℕ) (w : World U)
      → c ≢ 0
      → (find_mapping c w ≡ 0) ⊎ (find_mapping c w ≡ c)
      → find_mapping c (add_mapping c c w) ≡ c
  add_mapping_self c w live (inl e) = add_mapping_lem c c w live e
  add_mapping_self c w live (inr e) =
      ap (find_mapping c) (add_mapping_known c c w (λ z. live (sym e ∙ z))) ∙ e

  pub add_mapping_cases :
      (p c : ℕ) (w : World U)
      → c ≢ 0
      → find_mapping c w ≡ 0
      → (find_mapping c (add_mapping p c w) ≡ 0) ⊎ (find_mapping c (add_mapping p c w) ≡ c)
  add_mapping_cases p c w live new = elim (Bool-cases (c == p)) [
    | inl e ↦ inr (
        subst (λ k. find_mapping c (add_mapping k c w) ≡ c) (ground arith)
          (add_mapping_lem c c w live new))
    | inr e ↦ inl (find_mapping-add_mapping_other c p c w (ground arith) ∙ new)
  ]
