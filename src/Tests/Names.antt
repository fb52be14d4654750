-- ===== src/Tests/Names.antt =====
-- The symbol tables of src/cstrider_api.c on concrete data.
use c_strider.Prelude.{ℕ, ◌≡◌, ◌≢◌, refl, true, none, some, List, [], ◌∷◌}
use c_strider.Table.{find}
use c_strider.Symbols.{
  HashEntry, Symbols, same_name, find_name, register_key, lookup_key, lookup_addr,
}
use c_strider.Symbols.Matched.{Matched, register_key_lem}

-- "ab" and "ac"
abbrev ab : List ℕ
ab = 97 ∷ 98 ∷ []

abbrev ac : List ℕ
ac = 97 ∷ 99 ∷ []

abbrev ab_entry : HashEntry
ab_entry = record { name = ab; addr = 4096; size = 8; auto_migrate = true; var_name = ab }

abbrev only_ab : Symbols
only_ab = record { by_name = ab_entry ∷ []; by_addr = (4096, ab_entry) ∷ [] }

abbrev no_symbols : Symbols
no_symbols = record { by_name = []; by_addr = [] }

no_symbols-Matched : Matched no_symbols
unfolding find find_name
no_symbols-Matched = record { forth = λ key e at. absurd (cc); back = λ addr e at. absurd (cc) }

unknown_name : lookup_key ac only_ab ≡ none
unfolding lookup_key find_name same_name
unknown_name = refl

known_name : lookup_key ab only_ab ≡ some 4096
unfolding lookup_key find_name same_name
known_name = refl

known_addr : lookup_addr 4096 only_ab ≡ some ab
unfolding lookup_addr find
known_addr = refl

no_names : lookup_key ac no_symbols ≡ none
unfolding lookup_key find_name
no_names = refl

no_addrs : lookup_addr 5000 no_symbols ≡ none
unfolding lookup_addr find
no_addrs = refl

register_key_lem_example :
    (after : Symbols) × (register_key ac 5000 4 true ac no_symbols ≡ some after)
    × (lookup_key ac after ≡ some 5000)
    × (lookup_addr 5000 after ≡ some ac)
    × ((k : List ℕ) → k ≢ ac → lookup_key k after ≡ lookup_key k no_symbols)
    × ((a : ℕ) → a ≢ 5000 → lookup_addr a after ≡ lookup_addr a no_symbols)
    × Matched after
register_key_lem_example =
    register_key_lem ac 5000 4 true ac no_symbols no_symbols-Matched no_names no_addrs
