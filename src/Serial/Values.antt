-- ===== src/Serial/Values.antt =====
-- A value that is no pointer, visited with the services of examples/heap_serialize/serial.c.
use c_strider.Prelude.{ℕ, suc, ◌≡◌, ◌≢◌, ap, ◌∙◌, subst, true, some, List, ◌++◌, length}
use c_strider.Outcome.{done}
use c_strider.Types.{no_type, get_size}
use c_strider.Traversal.{visit}
use c_strider.Traversal.State.{World, Env}
use c_strider.Traversal.Steps.{counted_visit, visit-prim}
use c_strider.Serial.Bytes.{take_bytes, take_bytes-append}
use c_strider.Serial.{Ser, Host, fwrite, set_block, serial_value, serial_prim, deserial_prim}
use c_strider.Serial.Strings.{left_to_read}

module _ (env : Env Ser) (f a t out size : ℕ) (w : World Ser) (is_type : t ≢ no_type)
    (prim : env.program.is_prim t ≡ true) (sized : get_size w.types t ≡ some size) where
  pub visit-serial_prim :
      (value more : List ℕ)
      → env.perfaction_prim ≡ serial_prim
      → take_bytes size (w.user.block a) ≡ some (value, more)
      → visit env (suc f) a t out w ≡ done (fwrite value (counted_visit w))
  unfolding serial_prim serial_value
  visit-serial_prim value more e bytes =
      visit-prim env f a t out w is_type prim ∙ rw (e, sized, bytes)

  pub visit-deserial_prim :
      (host : Host) (value left : List ℕ)
      → env.perfaction_prim ≡ deserial_prim host
      → length value ≡ size
      → w.user.file ≡ value ++ left
      → visit env (suc f) a t out w
        ≡ done (set_block out value (left_to_read left (counted_visit w)))
  unfolding deserial_prim
  visit-deserial_prim host value left e whole file =
      let head : take_bytes size w.user.file ≡ some (value, left) =
        ap (take_bytes size) file
        ∙ subst (λ n. take_bytes n (value ++ left) ≡ some (value, left)) whole
            (take_bytes-append value left) in
      visit-prim env f a t out w is_type prim ∙ rw (e, sized, head)
