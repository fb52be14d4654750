-- ===== src/Roots/Registered.antt =====
-- Registering and deregistering roots in src/cstrider_api.c, and the order of their visits.
use mathlib.Core.List.{reverse-append}
use c_strider.Prelude.{
  ℕ, zero, suc, ◌≡◌, ◌≢◌, refl, ap, ◌∙◌, none, some, List, [], ◌∷◌, ◌++◌, arith,
}
use c_strider.Table.{find, add, delete, iter, find-add}
use c_strider.Roots.{Registered, populate_upto, register_root, deregister_root}

-- A root that is neither registered nor holds the address of a registered root is registered, and
-- deregistering it gives back the table.
pub deregister_root-register_root :
    (mem : ℕ → ℕ) (input t : ℕ) (roots : Registered)
    → find (mem input) roots ≡ none
    → (find input (register_root mem input t roots) ≡ some t)
      × (deregister_root input (register_root mem input t roots) ≡ roots)
unfolding register_root deregister_root delete
deregister_root-register_root mem input t roots free =
    (ground (arith, find-add input input t roots), ground (arith, find-add input input t roots))

-- A root that is registered twice stays registered when it is deregistered once, unless it holds its
-- own address or that of a registered root: `register_root` looks for what the root holds, not for
-- the root.
pub register_root_twice :
    (mem : ℕ → ℕ) (input t u : ℕ) (roots : Registered)
    → find (mem input) roots ≡ none
    → mem input ≢ input
    → find input
        (deregister_root input (register_root mem input u (register_root mem input t roots)))
      ≡ some t
unfolding register_root deregister_root delete
register_root_twice mem input t u roots free other = ground (
  arith,
  find-add input (mem input) t roots,
  find-add input input t roots,
  find-add input input u (add input t roots),
)

-- After a root has been registered, one that holds its address is not registered any more.
pub register_root_shadowed :
    (mem : ℕ → ℕ) (input t input' t' : ℕ) (roots : Registered)
    → find (mem input) roots ≡ none
    → mem input' ≡ input
    → register_root mem input' t' (register_root mem input t roots)
      ≡ register_root mem input t roots
unfolding register_root
register_root_shadowed mem input t input' t' roots free held =
    ground (arith, find-add input (mem input') t roots)

-- The numbers of the first `n` generated root functions with what the array holds for them.
pub in_order : (ℕ → ℕ) → ℕ → List (ℕ × ℕ)
in_order visitalls zero = []
in_order visitalls (suc n) = in_order visitalls n ++ (visitalls n, n) ∷ []

-- `visit_all` calls the generated root functions in the order of the generated array.
pub iter-populate_upto :
    (visitalls : ℕ → ℕ) (n : ℕ) → iter (populate_upto visitalls n []) ≡ in_order visitalls n
unfolding populate_upto in_order
iter-populate_upto visitalls zero = refl
iter-populate_upto visitalls (suc n) =
    reverse-append ((visitalls n, n) ∷ []) (populate_upto visitalls n [])
    ∙ ap (λ l. l ++ (visitalls n, n) ∷ []) (iter-populate_upto visitalls n)
