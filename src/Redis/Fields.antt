-- ===== src/Redis/Fields.antt =====
-- Sequences of fields that examples/redis-2.0.2/perfaction.assert.c writes to a file and reads from it.
use c_strider.Prelude.{ℕ, ◌≡◌, refl, sym, ap, ◌∙◌, subst, some, List, [], ◌∷◌, ◌++◌, length, map}
use mathlib.Core.List.{append_assoc, append-nil}
use c_strider.Outcome.{done}
use c_strider.Traversal.State.{World}
use c_strider.Serial.{Ser, fwrite, set_block, take_bytes, take_bytes-append}
use c_strider.Serial.Strings.{left_to_read}
use c_strider.Redis.{write_fields, read_fields, read_local}

-- All bytes of some fields.
unfoldable pub joined : List (List ℕ) → List ℕ
joined [] = []
joined (b ∷ bs) = b ++ joined bs

-- The values have the sizes.
abbrev pub Sized : List ℕ → List (List ℕ) → Type 0
Sized [] [] = Unit
Sized (sz ∷ szs) (b ∷ bs) = (length b ≡ sz) × Sized szs bs
Sized [] (b ∷ bs) = ⊥
Sized (sz ∷ szs) [] = ⊥

-- The fields hold the values, which have their sizes.
abbrev pub Holds : List (ℕ × ℕ) → List (List ℕ) → (ℕ → List ℕ) → Type 0
Holds [] [] block = Unit
Holds ((sz, a) ∷ fs) (b ∷ bs) block = (length b ≡ sz) × ((block a ≡ b) × Holds fs bs block)
Holds [] (b ∷ bs) block = ⊥
Holds ((sz, a) ∷ fs) [] block = ⊥

-- The state after values have been read into fields.
abbrev pub stored : List (ℕ × ℕ) → List (List ℕ) → World Ser → World Ser
stored [] bs w = w
stored ((sz, a) ∷ fs) [] w = w
stored ((sz, a) ∷ fs) (b ∷ bs) w = stored fs bs (set_block a b w)

take_bytes-sized :
    (sz : ℕ) (b rest : List ℕ) → length b ≡ sz → take_bytes sz (b ++ rest) ≡ some (b, rest)
take_bytes-sized sz b rest e =
    subst (λ n. take_bytes n (b ++ rest) ≡ some (b, rest)) e (take_bytes-append b rest)

pub write_fields_lem :
    (fs : List (ℕ × ℕ)) (bs : List (List ℕ)) (w : World Ser)
    → Holds fs bs w.user.block
    → write_fields fs w ≡ done (fwrite (joined bs) w)
unfolding write_fields joined
write_fields_lem [] [] w h =
    ap (λ f. done (record w { user = record w.user { file = f } })) (sym (append-nil w.user.file))
write_fields_lem ((sz, a) ∷ fs) (b ∷ bs) w h =
    let head : take_bytes sz (w.user.block a) ≡ some (b, []) =
      ap (take_bytes sz) (h.1.0 ∙ sym (append-nil b)) ∙ take_bytes-sized sz b [] h.0 in
    rw head (
      write_fields_lem fs bs (fwrite b w) h.1.1
      ∙ ap (λ f. done (record w { user = record w.user { file = f } }))
          (append_assoc w.user.file b (joined bs)))
write_fields_lem [] (b ∷ bs) w h = absurd h
write_fields_lem ((sz, a) ∷ fs) [] w h = absurd h

pub read_fields_lem :
    (fs : List (ℕ × ℕ)) (bs : List (List ℕ)) (rest : List ℕ) (w : World Ser)
    → Sized (map (λ f. f.0) fs) bs
    → w.user.file ≡ joined bs ++ rest
    → read_fields fs w ≡ done (stored fs bs (left_to_read rest w))
unfolding read_fields joined
read_fields_lem [] [] rest w h e = ap (λ f. done (left_to_read f w)) e
read_fields_lem ((sz, a) ∷ fs) (b ∷ bs) rest w h e =
    let head : take_bytes sz w.user.file ≡ some (b, joined bs ++ rest) =
      ap (take_bytes sz) (e ∙ append_assoc b (joined bs) rest)
      ∙ take_bytes-sized sz b (joined bs ++ rest) h.0 in
    rw head
      (read_fields_lem fs bs rest (set_block a b (left_to_read (joined bs ++ rest) w)) h.1 refl)
read_fields_lem [] (b ∷ bs) rest w h e = absurd h
read_fields_lem ((sz, a) ∷ fs) [] rest w h e = absurd h

pub read_local_lem :
    (szs : List ℕ) (bs : List (List ℕ)) (rest : List ℕ) (w : World Ser)
    → Sized szs bs
    → w.user.file ≡ joined bs ++ rest
    → read_local szs w ≡ done (left_to_read rest w)
unfolding read_local joined
read_local_lem [] [] rest w h e = ap (λ f. done (left_to_read f w)) e
read_local_lem (sz ∷ szs) (b ∷ bs) rest w h e =
    let head : take_bytes sz w.user.file ≡ some (b, joined bs ++ rest) =
      ap (take_bytes sz) (e ∙ append_assoc b (joined bs) rest)
      ∙ take_bytes-sized sz b (joined bs ++ rest) h.0 in
    rw head (read_local_lem szs bs rest (left_to_read (joined bs ++ rest) w) h.1 refl)
read_local_lem [] (b ∷ bs) rest w h e = absurd h
read_local_lem (sz ∷ szs) [] rest w h e = absurd h
