-- ===== src/Traversal/Split.antt =====
-- The shares into which `transform_split_array` of src/transform.c divides an array.
use c_strider.Prelude.{
  ℕ, zero, suc, ◌+◌, ◌-◌, ◌*◌, ◌/◌, ◌≤◌, ◌≡◌, refl, ap, sym, ◌∙◌, Bool, true, false, not,
  if◌then◌else◌, some, List, [], ◌∷◌, ◌++◌, ltb, arith,
}
use c_strider.Outcome.{Outcome, done, ◌>>=◌}
use c_strider.Traversal.State.{Task, World, Env, Visit, addtoqueue, split}
use c_strider.Types.{TypeTable, get_num_array_elems, get_size, get_out_size, get_array_base_type}
use c_strider.Traversal.Arrays.{
  array_loop, transform_array, make_array_type, enqueue_shares, split_shares, transform_split_array,
}

-- The addresses of `count` elements in the input and in the output.
pub elements : ℕ → ℕ → ℕ → ℕ → ℕ → List (ℕ × ℕ)
elements sz_in sz_out zero input output = []
elements sz_in sz_out (suc count) input output =
    (input, output) ∷ elements sz_in sz_out count (input + sz_in) (output + sz_out)

-- Visits of one type at each address of a list, in order.
pub visit_each : {U : Type 0} → Visit U → ℕ → List (ℕ × ℕ) → World U → Outcome (World U)
visit_each rec type [] w = done w
visit_each rec type ((input, output) ∷ rest) w =
    rec input type output w >>= λ w'. visit_each rec type rest w'

-- The tasks of the rounds from `i` on.
unfoldable pub share_tasks : ℕ → ℕ → ℕ → ℕ → ℕ → ℕ → ℕ → ℕ → List Task
share_tasks splittype sz_in sz_out share zero i input output = []
share_tasks splittype sz_in sz_out share (suc rounds) i input output =
    record {
      input = input + sz_in * i * share;
      type = splittype;
      output = output + sz_out * i * share;
      issplit = true;
    }
    ∷ share_tasks splittype sz_in sz_out share rounds (i + 1) input output

unfoldable pub enqueue_each : {U : Type 0} → Env U → List Task → World U → Outcome (World U)
enqueue_each env [] w = done w
enqueue_each env (t ∷ rest) w =
    addtoqueue env t.input t.type t.output t.issplit w >>= λ w'. enqueue_each env rest w'

-- The elements of the arrays that tasks are about.
pub tasks_elements : ℕ → ℕ → ℕ → List Task → List (ℕ × ℕ)
tasks_elements sz_in sz_out share [] = []
tasks_elements sz_in sz_out share (t ∷ rest) =
    elements sz_in sz_out share t.input t.output ++ tasks_elements sz_in sz_out share rest

-- `transform_array` visits the elements' addresses in order.
pub array_loop-eq-visit_each :
    {U : Type 0} (rec : Visit U) (base si so count input output : ℕ) (w : World U)
    → array_loop rec base si so count input output w
      ≡ visit_each rec base (elements si so count input output) w
unfolding array_loop visit_each elements
array_loop-eq-visit_each rec base si so zero input output w = refl
array_loop-eq-visit_each rec base si so (suc count) input output w = λ i.
    rec input base output w >>= λ w'.
    array_loop-eq-visit_each rec base si so count (input + si) (output + so) w' i

pub enqueue_shares-eq-enqueue_each :
    {U : Type 0} (env : Env U) (st si so share rounds i input output : ℕ) (w : World U)
    → enqueue_shares env st si so share rounds i input output w
      ≡ enqueue_each env (share_tasks st si so share rounds i input output) w
unfolding enqueue_shares enqueue_each share_tasks
enqueue_shares-eq-enqueue_each env st si so share zero i input output w = refl
enqueue_shares-eq-enqueue_each env st si so share (suc rounds) i input output w = λ d.
    addtoqueue env (input + si * i * share) st (output + so * i * share) true w >>= λ w'.
    enqueue_shares-eq-enqueue_each env st si so share rounds (i + 1) input output w' d

elements_cong :
    (si so : ℕ) {m n a b c d : ℕ}
    → m ≡ n
    → a ≡ b
    → c ≡ d
    → elements si so m a c ≡ elements si so n b d
elements_cong si so e f g = cc

elements-add :
    (si so m n input output : ℕ)
    → elements si so (m + n) input output
      ≡ elements si so m input output ++ elements si so n (input + si * m) (output + so * m)
unfolding elements
elements-add si so zero n input output =
    elements_cong si so (omega arith) (omega arith) (omega arith)
elements-add si so (suc m) n input output =
    elements_cong si so {n = suc (m + n)} (omega arith) refl refl
    ∙ ap (λ l. (input, output) ∷ l)
        (elements-add si so m n (input + si) (output + so)
          ∙ ap (λ l. elements si so m (input + si) (output + so) ++ l)
              (elements_cong si so refl (omega arith) (omega arith)))

-- The shares of the rounds from `i` on hold the elements from the `i`th share on.
shares-elements :
    (st si so share rounds i input output : ℕ)
    → tasks_elements si so share (share_tasks st si so share rounds i input output)
      ≡ elements si so (rounds * share) (input + si * i * share) (output + so * i * share)
unfolding share_tasks tasks_elements elements
shares-elements st si so share zero i input output =
    elements_cong si so {m = 0} {n = 0 * share} (omega arith) refl refl
shares-elements st si so share (suc rounds) i input output =
    ap (λ l. elements si so share (input + si * i * share) (output + so * i * share) ++ l)
      (shares-elements st si so share rounds (i + 1) input output
        ∙ elements_cong si so refl (omega arith) (omega arith))
    ∙ sym (
        elements-add si so share (rounds * share) (input + si * i * share)
          (output + so * i * share))
    ∙ elements_cong si so (omega arith) refl refl

-- The shares and the rest are the whole array.
shares_cover :
    (st si so count input output : ℕ)
    → let share = count / split in
      let last = split - 1 in
      tasks_elements si so share (share_tasks st si so share last 0 input output)
        ++ elements si so
            (count - last * share)
            (input + si * last * share)
            (output + so * last * share)
      ≡ elements si so count input output
shares_cover st si so count input output =
    let share = count / split in
    ap
      (λ l.
        l ++ elements si so (count - 3 * share) (input + si * 3 * share) (output + so * 3 * share))
      (shares-elements st si so share 3 0 input output
        ∙ elements_cong si so refl (omega arith) (omega arith))
    ∙ ap (λ l. elements si so (3 * share) input output ++ l)
        (elements_cong si so refl (omega arith) (omega arith))
    ∙ sym (elements-add si so (3 * share) (count - 3 * share) input output)
    ∙ elements_cong si so (omega arith) refl refl

-- What the type table has of an array: the number of its elements, their sizes and their type.
pub record IsArray (tbl : TypeTable) (t count sz_in sz_out basetype : ℕ) : Type 0 where
  pub elems : get_num_array_elems tbl t ≡ some count
  pub in_size : get_size tbl t ≡ some sz_in
  pub out_size : get_out_size tbl t ≡ some sz_out
  pub base : get_array_base_type tbl t ≡ some basetype

if_not : {A : Type 0} {b : Bool} (x y : A) → b ≡ true → (if not b then x else y) ≡ y
if_not x y e = rw e refl

module _ {U : Type 0} (env : Env U) (rec : Visit U) where
  transform_array-eq-visit_each :
      (input t output count si so base : ℕ) (w : World U)
      → IsArray w.types t count si so base
      → transform_array rec input t output w
        ≡ visit_each rec base (elements si so count input output) w
  unfolding transform_array
  transform_array-eq-visit_each input t output count si so base w a =
      rw (a.elems, a.in_size, a.out_size, a.base)
        (array_loop-eq-visit_each rec base si so count input output w)

  transform_split_array-shares :
      (input t output count si so base : ℕ) (w : World U)
      → env.is_parallel ≡ true
      → split ≤ count
      → IsArray w.types t count si so base
      → transform_split_array env rec input t output w
        ≡ split_shares env rec count si so base input output w
  unfolding transform_split_array
  transform_split_array-shares input t output count si so base w parallel many a =
      let large : ltb count split ≡ false = ground arith in
      if_not _ _ parallel ∙ rw (a.elems, large, a.in_size, a.out_size, a.base) refl

  split_shares-rest :
      (count si so base input output st rt : ℕ) (w w1 w2 w3 : World U)
      → let share = count / split in
        let last = split - 1 in
        let rest = count - last * share in
        make_array_type env share base w ≡ done (st, w1)
        → enqueue_each env (share_tasks st si so share last 0 input output) w1 ≡ done w2
        → make_array_type env rest base w2 ≡ done (rt, w3)
        → IsArray w3.types rt rest si so base
        → split_shares env rec count si so base input output w
          ≡ visit_each rec base
              (elements si so rest (input + si * last * share) (output + so * last * share))
              w3
  unfolding split_shares
  split_shares-rest count si so base input output st rt w w1 w2 w3 made queued made' a' =
      let share = count / split in
      let shares : enqueue_shares env st si so share (split - 1) 0 input output w1 ≡ done w2 =
        enqueue_shares-eq-enqueue_each env st si so share (split - 1) 0 input output w1 ∙ queued in
      rw (made, shares, made')
        (transform_array-eq-visit_each (input + si * (split - 1) * share) rt
          (output + so * (split - 1) * share) (count - (split - 1) * share) si so base w3 a')

  -- A parallel traversal of an array of at least four elements: if the types of the shares can be made
  -- and the tasks be enqueued, one task for each share but the last, then `transform_split_array`
  -- enqueues these and visits the elements that are left itself, in order. The elements of the tasks
  -- and those that it visits are exactly the elements of the array, each once and in order. The type of
  -- the last share must have the number and the sizes of its elements, which it has unless the table
  -- already had it with others.
  pub split_covers :
      (input t output count si so base st rt : ℕ) (w w1 w2 w3 : World U)
      → let share = count / split in
        let last = split - 1 in
        let rest = count - last * share in
        let tasks = share_tasks st si so share last 0 input output in
        env.is_parallel ≡ true
        → split ≤ count
        → IsArray w.types t count si so base
        → make_array_type env share base w ≡ done (st, w1)
        → enqueue_each env tasks w1 ≡ done w2
        → make_array_type env rest base w2 ≡ done (rt, w3)
        → IsArray w3.types rt rest si so base
        → (handled : List (ℕ × ℕ)) × (transform_split_array env rec input t output w
            ≡ visit_each rec base handled w3)
          × (tasks_elements si so share tasks ++ handled ≡ elements si so count input output)
  split_covers input t output count si so base st rt w w1 w2 w3 parallel many a made queued made'
        a' =
      (
        elements si so (count - 3 * (count / 4)) (input + si * 3 * (count / 4))
            (output + so * 3 * (count / 4)),
        transform_split_array-shares input t output count si so base w parallel many a
            ∙ split_shares-rest count si so base input output st rt w w1 w2 w3 made queued made' a',
        shares_cover st si so count input output,
      )
