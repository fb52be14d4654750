-- ===== src/Serial/Chain/Read.antt =====
-- What a traversal with `deser_funs` of examples/heap_serialize/serial.c makes of a chain that was
-- written.
use c_strider.Prelude.{
  ℕ, zero, suc, ◌+◌, ◌<◌, ◌≡◌, ◌≢◌, refl, sym, ap, ◌∙◌, subst, some, List, [], ◌∷◌, ◌++◌,
  append_assoc, arith, length, update_self, update_other,
}
use c_strider.Outcome.{done}
use c_strider.Types.Construct.{bytes}
use c_strider.Symbols.{Symbols}
use c_strider.Traversal.{visit}
use c_strider.Traversal.State.{World, Env, find_mapping, add_mapping}
use c_strider.Traversal.Steps.{counted_visit}
use c_strider.Traversal.Mappings.{
  find_mapping_cong, find_mapping-add_mapping_other, add_mapping-mem, add_mapping-user,
  add_mapping-types,
}
use c_strider.Serial.{Ser, Host, set_block, deserializer}
use c_strider.Serial.Strings.{left_to_read}
use c_strider.Types.{get_size-known}
use c_strider.Serial.Values.{visit-deserial_prim}
use c_strider.Serial.Chain.{
  Allocator, LeftOver, NotAmong, Tower, follow, chain_file, Plain, Apart, Unmapped, Unmapped-cong,
  add_mapping-Unmapped,
}
use c_strider.Serial.Chain.Cell.{Tower-Known, target, opened, read_pointer}

module _ {Ready : World Ser → Type 0} {Live : World Ser → ℕ → Type 0} (host : Host) (env : Env Ser)
    (malloc : Allocator host Ready Live) where
  -- What the visit of a target finds.
  record Opened (v v2 : World Ser) (b c : ℕ) (ps : List ℕ) : Type 0 where
    pub ready : Ready v2
    pub live : Live v2 c
    pub kept : (a : ℕ) → Live v a → Live v2 a
    pub junk : find_mapping (v2.mem c) v2 ≡ 0
    pub stored : v2.mem b ≡ c
    pub left_over : LeftOver Live ps v2
    pub other : (x : ℕ) → Live v x → (x ≢ c) × (x ≢ b → v2.mem x ≡ v.mem x)

  opened-Opened :
      (p b s : ℕ) (ps left : List ℕ) (v : World Ser)
      → Ready v
      → Live v b
      → p ≢ 0
      → find_mapping p v ≡ 0
      → LeftOver Live (p ∷ ps) v
      → Opened v (opened host env p left s b v) b (target host env v left s) ps
  opened-Opened p b s ps left v ready live proper new over =
      let v1 : World Ser = left_to_read left (counted_visit v) in
      let c : ℕ = host.malloc v1 s in
      let v2 : World Ser = opened host env p left s b v in
      let start = malloc.after_read v left (v.visitcalls + 1) ready in
      let new1 : find_mapping p v1 ≡ 0 = find_mapping_cong p v v1 refl ∙ new in
      let got = malloc.taken v1 s p b (start.0) (start.1 b live) proper new1 in
      let fresh : (x : ℕ) → Live v x → c ≢ x = λ x h. malloc.fresh v1 s x (start.0) (start.1 x h) in
      let mem2 : (x : ℕ) → x ≢ b → v2.mem x ≡ v.mem x = λ x h.
        update_other (add_mapping p c v1).mem b x c h ∙ ap (λ m. m x) (add_mapping-mem p c v1) in
      let kept : (a : ℕ) → Live v a → Live v2 a = λ a h. got.2 a (start.1 a h) in
      let unmapped : (x : ℕ) → ¬ Live v x → find_mapping (v2.mem x) v2 ≡ 0 = λ x dead.
        let at_x : v2.mem x ≡ v.mem x = mem2 x (λ e. dead (subst (Live v) (sym e) live)) in
        ap (λ k. find_mapping k v2) at_x
        ∙ find_mapping_cong (v.mem x) (add_mapping p c v1) v2 refl
        ∙ find_mapping-add_mapping_other (v.mem x) p c v1 (λ e. (over x dead).1.0 (sym e))
        ∙ find_mapping_cong (v.mem x) v v1 refl
        ∙ (over x dead).0 in
      record {
        ready = got.0;
        live = got.1;
        kept = kept;
        junk = unmapped c (λ h. fresh c h refl);
        stored = update_self (add_mapping p c v1).mem b c;
        left_over = λ x dead.
            let old : ¬ Live v x = λ h. dead (kept x h) in
            let at_x : v2.mem x ≡ v.mem x = mem2 x (λ e. old (subst (Live v) (sym e) live)) in
            (unmapped x old, subst (λ k. NotAmong k ps) (sym at_x) ((over x old).1.1));
        other = λ x h. (λ e. fresh x h (sym e), mem2 x);
      }

  -- The traversal reads as much of the file as was written of the chain, and builds a chain in
  -- memory that was not in use, with the value at its end.
  pub read_chain :
      (ps : List ℕ) (f t b size : ℕ) (value rest : List ℕ) (symbols : Symbols) (v : World Ser)
      → Tower env.program host v.types size (length ps) t
      → length ps < f
      → Ready v
      → Live v b
      → b ≢ 0
      → find_mapping (v.mem b) v ≡ 0
      → LeftOver Live ps v
      → Plain symbols ps
      → Apart ps
      → Unmapped v ps
      → length value ≡ size
      → v.user.file ≡ chain_file ps value ++ rest
      → (v' : World Ser) × (visit (deserializer host env) f b t b v ≡ done v')
        × (v'.user.file ≡ rest)
        × (v'.user.block (follow (length ps) v'.mem b) ≡ value)
        × ((x : ℕ) → Live v x → x ≢ b → v'.mem x ≡ v.mem x)
  read_chain ps zero t b size value rest symbols v ty h ready live place junk over plain apart new
        whole file =
      elim h [ ]
  read_chain [] (suc f) t b size value rest symbols v ty h ready live place junk over plain apart
        new whole file =
      (
        set_block b value (left_to_read rest (counted_visit v)),
        visit-deserial_prim (deserializer host env) f b t b size v ty.1.is_type ty.0
            (get_size-known v.types t ty.1.found ∙ ap some ty.1.sized) host value rest refl whole
            file,
        refl,
        update_self v.user.block b value,
        λ x _ _. refl,
      )
  read_chain (p ∷ ps) (suc f) t b size value rest symbols v (u, ptr, ty) h ready live place junk
        over plain apart new whole file =
      let left : List ℕ = chain_file ps value ++ rest in
      let next = Tower-Known host env (length ps) u size v.types ty in
      let s : ℕ = next.0 in
      let n : ℕ = length ps in
      let v1 : World Ser = left_to_read left (counted_visit v) in
      let c : ℕ = target host env v left s in
      let v2 : World Ser = opened host env p left s b v in
      let o : Opened v v2 b c ps =
        opened-Opened p b s ps left v ready live (plain.0) (new.0) over in
      let ih =
        read_chain ps f u c size value rest symbols v2
          (subst (λ k. Tower env.program host k size (length ps) u) (sym (add_mapping-types p c v1))
            ty)
          (omega arith) o.ready o.live (malloc.not_null v1 s) o.junk o.left_over (plain.4) (apart.1)
          (Unmapped-cong ps (add_mapping p c v1) v2 refl
            (add_mapping-Unmapped p c ps v1 (apart.0) (Unmapped-cong ps v v1 refl (new.1))))
          whole (ap (λ r. r.file) (add_mapping-user p c v1)) in
      let v3 : World Ser = ih.0 in
      let v4 : World Ser = add_mapping (v3.mem b) (v3.mem b) v3 in
      let mem4 : v4.mem ≡ v3.mem = add_mapping-mem (v3.mem b) (v3.mem b) v3 in
      let at_b : v3.mem b ≡ c = ih.4 b (o.kept b live) ((o.other b live).0) ∙ o.stored in
      (
        v4,
        read_pointer host env f p b t u s left v v3 ptr (next.1) (plain.0) (plain.1) (plain.2)
            (file ∙ append_assoc (bytes 8 p) (chain_file ps value) rest) (new.0) place junk (ih.1),
        ap (λ r. r.file) (add_mapping-user (v3.mem b) (v3.mem b) v3) ∙ ih.2,
        ap (λ k. k.block (follow (suc n) v4.mem b)) (add_mapping-user (v3.mem b) (v3.mem b) v3)
            ∙ ap (λ m. v3.user.block (follow (suc n) m b)) mem4
            ∙ ap (λ k. v3.user.block (follow n v3.mem k)) at_b
            ∙ ih.3,
        λ x alive other.
            ap (λ m. m x) mem4
            ∙ ih.4 x (o.kept x alive) ((o.other x alive).0)
            ∙ (o.other x alive).1 other,
      )
