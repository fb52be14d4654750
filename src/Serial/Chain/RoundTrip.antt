-- ===== src/Serial/Chain/RoundTrip.antt =====
-- The two services of examples/heap_serialize/serial.c, one after the other, on a chain of pointers.
use c_strider.Prelude.{
  ℕ, zero, suc, ◌<◌, ◌≡◌, ◌≢◌, refl, sym, ap, ◌∙◌, subst, some, List, ◌++◌, length, arith,
}
use c_strider.Outcome.{done}
use c_strider.Traversal.{visit}
use c_strider.Traversal.State.{World, Env, find_mapping}
use c_strider.Serial.Bytes.{length-take_bytes, take_bytes}
use c_strider.Serial.{Ser, Host, serializer, deserializer}
use c_strider.Serial.Chain.{
  Tower, trail, follow, chain_file, Plain, Apart, Unmapped, LeftOver, Allocator,
}
use c_strider.Serial.Chain.Write.{write_chain}
use c_strider.Serial.Chain.Read.{read_chain}

length-trail : (n : ℕ) (mem : ℕ → ℕ) (a : ℕ) → length (trail n mem a) ≡ n
length-trail zero mem a = refl
length-trail (suc n) mem a = omega (arith, length-trail n mem (mem a))

module _ {Ready : World Ser → Type 0} {Live : World Ser → ℕ → Type 0} (host host' : Host)
    (env env' : Env Ser) (malloc : Allocator host' Ready Live) where
  -- A cell `a` whose type is `n` pointers of 8 bytes deep, no strings and no functions, above a
  -- primitive type of `size` bytes, in a state `w` where the pointers of the chain are different,
  -- proper (not NULL, not SER_SYMBOL, of 64 bits, no registered symbols) and not mapped, and the
  -- memory at the end of the chain begins with the `size` bytes `value`. And a cell `b` of a type that
  -- is as deep in the reading program, whose malloc keeps the laws of Allocator, LeftOver, in a state `v` where
  -- the pointers are not mapped either, nor is what `b` holds, malloc works and `b` is in use. A visit
  -- of `a` with ser_funs, with any fuel above `n`, returns and has written the chain's pointers and
  -- `value`. A visit of `b` in place with deser_funs and such fuel, where the file begins with these
  -- bytes, returns, has read them and no more, has changed no other memory that was in use, and from
  -- `b`, `n` pointers on, is `value`.
  pub chain_roundtrip :
      (n f f' a b t t' size : ℕ) (value more rest : List ℕ) (w v : World Ser)
      → Tower env.program host w.types size n t
      → Tower env'.program host' v.types size n t'
      → n < f
      → n < f'
      → a ≢ 0
      → Plain w.user.symbols (trail n w.mem a)
      → Apart (trail n w.mem a)
      → Unmapped w (trail n w.mem a)
      → take_bytes size (w.user.block (follow n w.mem a)) ≡ some (value, more)
      → Ready v
      → Live v b
      → b ≢ 0
      → find_mapping (v.mem b) v ≡ 0
      → LeftOver Live (trail n w.mem a) v
      → Unmapped v (trail n w.mem a)
      → v.user.file ≡ chain_file (trail n w.mem a) value ++ rest
      → (w' v' : World Ser) × (visit (serializer host env) f a t a w ≡ done w')
        × (w'.user.file ≡ w.user.file ++ chain_file (trail n w.mem a) value)
        × (visit (deserializer host' env') f' b t' b v ≡ done v')
        × (v'.user.file ≡ rest)
        × (v'.user.block (follow n v'.mem b) ≡ value)
        × ((x : ℕ) → Live v x → x ≢ b → v'.mem x ≡ v.mem x)
  chain_roundtrip n f f' a b t t' size value more rest w v ty ty' h h' at plain apart new value_at
        ready live place junk over new' file =
      let ps : List ℕ = trail n w.mem a in
      let deep : length ps ≡ n = length-trail n w.mem a in
      let wrote = write_chain host env n f a t size value more w ty h at plain apart new value_at in
      let read =
        read_chain host' env' malloc ps f' t' b size value rest w.user.symbols v
          (subst (λ k. Tower env'.program host' v.types size k t') (sym deep) ty') (omega arith)
          ready live place junk over plain apart new'
          (length-take_bytes size (w.user.block (follow n w.mem a)) value_at) file in
      (
        wrote.0,
        read.0,
        wrote.1,
        wrote.2,
        read.1,
        read.2,
        ap (λ k. read.0.user.block (follow k read.0.mem b)) (sym deep) ∙ read.3,
        read.4,
      )
