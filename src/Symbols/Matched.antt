-- ===== src/Symbols/Matched.antt =====
-- The two symbol tables of src/cstrider_api.c agree.
use mathlib.Core.Option
use c_strider.Prelude.{
  ℕ, ◌⊎◌, ◌≡◌, ◌≢◌, refl, ap, sym, subst, ◌∙◌, inl, inr, Bool, true, Option, none, some, List, [],
  ◌∷◌, ◌==◌, Bool-cases, arith, ==_iff, ==_refl,
}
use c_strider.Table.{find, add, find-add}
use c_strider.Symbols.{
  HashEntry, Symbols, same_name, find_name, new_symbol, register_key, lookup_key, lookup_addr,
}

same_name_refl : (s : List ℕ) → same_name s s ≡ true
unfolding same_name
same_name_refl [] = refl
same_name_refl (c ∷ s) = rw (==_refl c, same_name_refl s)

same_name-eq : (s t : List ℕ) → same_name s t ≡ true → s ≡ t
unfolding same_name
same_name-eq [] [] h = refl
same_name-eq (c ∷ s) (d ∷ t) h = elim (Bool-cases (c == d)) [
  | inl e ↦
      let heads : c ≡ d = (==_iff c d).0 e in
      let tails : s ≡ t = same_name-eq s t (ground arith) in cc
  | inr e ↦ absurd (ground arith)
]
same_name-eq [] (d ∷ t) h = absurd (cc)
same_name-eq (c ∷ s) [] h = absurd (cc)

-- Each entry that a table has under a key has that key, and stands in the other table under its
-- other key.
pub record Matched (s : Symbols) : Type 0 where
  pub forth :
      (key : List ℕ) (e : HashEntry)
      → find_name key s.by_name ≡ some e
      → (e.name ≡ key) × (find e.addr s.by_addr ≡ some e)
  pub back :
      (addr : ℕ) (e : HashEntry)
      → find addr s.by_addr ≡ some e
      → (e.addr ≡ addr) × (find_name e.name s.by_name ≡ some e)

module _ (e : HashEntry) (s : Symbols) (new_name : find_name e.name s.by_name ≡ none)
    (new_addr : find e.addr s.by_addr ≡ none) where
  named : (key : List ℕ) → key ≢ e.name → find_name key (e ∷ s.by_name) ≡ find_name key s.by_name
  unfolding find_name
  named key ne = elim (Bool-cases (same_name e.name key)) [
    | inl same ↦ absurd (ne (sym (same_name-eq e.name key same)))
    | inr other ↦ rw other
  ]

  named_itself : find_name e.name (e ∷ s.by_name) ≡ some e
  unfolding find_name
  named_itself = rw (same_name_refl e.name)

  placed : (addr : ℕ) → addr ≢ e.addr → find addr (add e.addr e s.by_addr) ≡ find addr s.by_addr
  placed addr ne = ground (arith, find-add e.addr addr e s.by_addr)

  placed_itself : find e.addr (add e.addr e s.by_addr) ≡ some e
  placed_itself = ground (arith, find-add e.addr e.addr e s.by_addr)

  forth_new :
      Matched s
      → (key : List ℕ) (f : HashEntry) → find_name key (e ∷ s.by_name) ≡ some f
      → (f.name ≡ key) × (find f.addr (add e.addr e s.by_addr) ≡ some f)
  forth_new m key f at = elim (Bool-cases (same_name e.name key)) [
    | inl same ↦
        let here : e.name ≡ key = same_name-eq e.name key same in
        let found : find_name key (e ∷ s.by_name) ≡ some e =
          subst (λ k. find_name k (e ∷ s.by_name) ≡ some e) here named_itself in
        let it : e ≡ f = cc in
        subst (λ g. (g.name ≡ key) × (find g.addr (add e.addr e s.by_addr) ≡ some g)) it
          (here, placed_itself)
    | inr other ↦
        let apart : key ≢ e.name = λ q.
          (let same : same_name e.name key ≡ true =
              subst (λ k. same_name e.name k ≡ true) (sym q) (same_name_refl e.name) in
            cc) in
        let (own, there) = m.forth key f (sym (named key apart) ∙ at) in
        let far : f.addr ≢ e.addr = λ q.
          (let gone : find f.addr s.by_addr ≡ none = ap (λ a. find a s.by_addr) q ∙ new_addr in
            cc) in
        (own, placed f.addr far ∙ there)
  ]

  back_new :
      Matched s
      → (addr : ℕ) (f : HashEntry) → find addr (add e.addr e s.by_addr) ≡ some f
      → (f.addr ≡ addr) × (find_name f.name (e ∷ s.by_name) ≡ some f)
  back_new m addr f at = elim (Bool-cases (e.addr == addr)) [
    | inl same ↦
        let here : e.addr ≡ addr = (==_iff e.addr addr).0 same in
        let found : find addr (add e.addr e s.by_addr) ≡ some e =
          subst (λ a. find a (add e.addr e s.by_addr) ≡ some e) here placed_itself in
        let it : e ≡ f = cc in
        subst (λ g. (g.addr ≡ addr) × (find_name g.name (e ∷ s.by_name) ≡ some g)) it
          (here, named_itself)
    | inr other ↦
        let apart : addr ≢ e.addr = ground arith in
        let (own, there) = m.back addr f (sym (placed addr apart) ∙ at) in
        let far : f.name ≢ e.name = λ q.
          (let gone : find_name f.name s.by_name ≡ none =
              ap (λ k. find_name k s.by_name) q ∙ new_name in
            cc) in
        (own, named f.name far ∙ there)
  ]

  new_symbol-Matched : Matched s → Matched (new_symbol e s)
  new_symbol-Matched m = record { forth = forth_new m; back = back_new m }

module _ (key : List ℕ) (addr size : ℕ) (auto : Bool) (var_name : List ℕ) (s : Symbols) where
  -- If neither the name nor the address is registered, `cstrider_register_key` registers them: then
  -- each is found from the other, other names and addresses are found as before, and tables that
  -- match still match.
  pub register_key_lem :
      Matched s
      → lookup_key key s ≡ none
      → lookup_addr addr s ≡ none
      → (after : Symbols) × (register_key key addr size auto var_name s ≡ some after)
        × (lookup_key key after ≡ some addr)
        × (lookup_addr addr after ≡ some key)
        × ((k : List ℕ) → k ≢ key → lookup_key k after ≡ lookup_key k s)
        × ((a : ℕ) → a ≢ addr → lookup_addr a after ≡ lookup_addr a s)
        × Matched after
  unfolding register_key lookup_key lookup_addr
  register_key_lem m free_name free_addr =
      let e : HashEntry = record {
        name = key;
        addr = addr;
        size = size;
        auto_migrate = auto;
        var_name = var_name;
      } in
      let no_name : find_name key s.by_name ≡ none =
        map-none (λ e. e.addr) (find_name key s.by_name) free_name in
      let no_addr : find addr s.by_addr ≡ none =
        map-none (λ e. e.name) (find addr s.by_addr) free_addr in
      (
        new_symbol e s,
        rw (register_key, no_addr, no_name),
        ap (Option.map (λ e. e.addr)) (named_itself e s no_name no_addr),
        ap (Option.map (λ e. e.name)) (placed_itself e s no_name no_addr),
        (λ k ne. ap (Option.map (λ e. e.addr)) (named e s no_name no_addr k ne)),
        (λ a ne. ap (Option.map (λ e. e.name)) (placed e s no_name no_addr a ne)),
        new_symbol-Matched e s no_name no_addr m,
      )
    where
      map-none :
          {B : Type 0} (f : HashEntry → B) (o : Option HashEntry) → Option.map f o ≡ none → o ≡ none
      map-none f none h = refl
      map-none f (some e) h = absurd (cc)

  -- If the name and the address are both registered, `cstrider_register_key` returns and changes
  -- nothing, even if they are registered with others.
  pub register_key_again :
      {other_name : List ℕ} {other_addr : ℕ}
      → lookup_key key s ≡ some other_addr
      → lookup_addr addr s ≡ some other_name
      → register_key key addr size auto var_name s ≡ some s
  unfolding register_key lookup_key lookup_addr
  register_key_again known_name known_addr = ground arith

  -- If only one of the name and the address is registered, an assertion of `cstrider_register_key`
  -- fails.
  pub register_key_half :
      (lookup_key key s ≡ none) × (lookup_addr addr s ≢ none)
        ⊎ (lookup_key key s ≢ none) × (lookup_addr addr s ≡ none)
      → register_key key addr size auto var_name s ≡ none
  unfolding register_key lookup_key lookup_addr
  register_key_half h = ground arith
