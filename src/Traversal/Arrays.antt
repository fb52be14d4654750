-- ===== src/Traversal/Arrays.antt =====
-- `transform_array` and `transform_split_array` of src/transform.c.
use c_strider.Prelude.{ℕ, zero, suc, ◌+◌, ◌-◌, ◌*◌, ◌/◌, true, not, if◌then◌else◌, ltb}
use c_strider.Outcome.{Outcome, done, or_fault, ◌>>=◌}
use c_strider.Types.{get_num_array_elems, get_size, get_out_size, get_array_base_type}
use c_strider.Types.Construct.{mktyparr}
use c_strider.Traversal.State.{World, Env, Visit, addtoqueue, split}

module _ {U : Type 0} (rec : Visit U) where
  -- The loop over the elements, with `count` of them left.
  unfoldable pub array_loop : ℕ → ℕ → ℕ → ℕ → ℕ → ℕ → World U → Outcome (World U)
  array_loop basetype sz_in sz_out zero input output w = done w
  array_loop basetype sz_in sz_out (suc count) input output w =
      rec input basetype output w >>= λ w'.
      array_loop basetype sz_in sz_out count (input + sz_in) (output + sz_out) w'

  unfoldable pub transform_array : Visit U
  transform_array input t output w = do
    count ← or_fault (get_num_array_elems w.types t)
    sz_in ← or_fault (get_size w.types t)
    sz_out ← or_fault (get_out_size w.types t)
    basetype ← or_fault (get_array_base_type w.types t)
    array_loop basetype sz_in sz_out count input output w

module _ {U : Type 0} (env : Env U) where
  -- `mktyparr`, on the state.
  unfoldable pub make_array_type : ℕ → ℕ → World U → Outcome (ℕ × World U)
  make_array_type arrlen type w =
      or_fault (mktyparr (env.stack_junk w) arrlen type w.types) >>= λ r.
      done (r.0, record w { types = r.1 })

  -- The rounds of the loop that enqueue a share, from round `i` on.
  unfoldable pub enqueue_shares : ℕ → ℕ → ℕ → ℕ → ℕ → ℕ → ℕ → ℕ → World U → Outcome (World U)
  enqueue_shares splittype sz_in sz_out share zero i input output w = done w
  enqueue_shares splittype sz_in sz_out share (suc rounds) i input output w =
      addtoqueue env (input + sz_in * i * share) splittype (output + sz_out * i * share) true w
      >>= λ w'. enqueue_shares splittype sz_in sz_out share rounds (i + 1) input output w'

module _ {U : Type 0} (env : Env U) (rec : Visit U) where
  -- The last round handles the elements that are left.
  unfoldable pub split_shares : ℕ → ℕ → ℕ → ℕ → ℕ → ℕ → World U → Outcome (World U)
  split_shares count sz_in sz_out basetype input output w =
      let share = count / split in
      let last = split - 1 in
      let remainder = count - last * share in
      do
        s ← make_array_type env share basetype w
        w1 ← enqueue_shares env (s.0) sz_in sz_out share last 0 input output (s.1)
        r ← make_array_type env remainder basetype w1
        transform_array rec (input + sz_in * last * share) (r.0) (output + sz_out * last * share)
            (r.1)

  unfoldable pub transform_split_array : Visit U
  transform_split_array input t output w =
      if not env.is_parallel then transform_array rec input t output w else do
        count ← or_fault (get_num_array_elems w.types t)
        if ltb count split then transform_array rec input t output w else do
          sz_in ← or_fault (get_size w.types t)
          sz_out ← or_fault (get_out_size w.types t)
          basetype ← or_fault (get_array_base_type w.types t)
          split_shares count sz_in sz_out basetype input output w
