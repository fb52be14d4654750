-- ===== src/Serial/Checkpoint.antt =====
-- `checkpoint` and `do_deserialize` of examples/heap_serialize/main.c: a program's heap is written to a
-- file, and read from it, by a traversal without helper threads.
use c_strider.Prelude.{
  ℕ, ◌≡◌, refl, sym, ap, ◌∙◌, some, Bool, true, false, not, List, [], ◌==◌, if◌then◌else◌,
}
use c_strider.Outcome.{Outcome, done, fault, ◌>>=◌}
use c_strider.Traversal.State.{World, Env}
use c_strider.Traversal.Grows.{After, After-bind, After-weaken}
use c_strider.Traversal.Still.{Still, Stays, same-Stays}
use c_strider.Traversal.LoopInPlace.{GeneratedLooks}
use c_strider.Lifecycle.{Runtime, RootCode, init, run_visit_all, finish}
use c_strider.Lifecycle.InPlace.{
  Untouched, init-Untouched, init-symbols, run_visit_all-Stays, finish-Untouched,
}
use c_strider.Serial.{Ser, Host, serializer, deserializer}
use c_strider.Serial.Looks.{unwritten, serializer-LooksOnly}

-- The tables of symbols are global: what init has registered is what the serializer finds.
abbrev pub share_symbols : Runtime Ser → Runtime Ser
share_symbols r = record r {
  world = record r.world { user = record r.world.user { symbols = r.symbols } };
}

-- `init(&funs, 0)`, `visit_all()` and `finish()`
abbrev pub traverse : Env Ser → RootCode Ser → ℕ → ℕ → Runtime Ser → Outcome (Runtime Ser)
traverse env code fuel depth r = init env code r >>= λ a.
    run_visit_all env code depth (share_symbols a) >>= λ b. finish env fuel depth b

-- `fopen`, with what the file has.
abbrev pub fopened : List ℕ → Runtime Ser → Runtime Ser
fopened file r = record r { world = record r.world { user = record r.world.user { file = file } } }

-- A service without helper threads.
abbrev pub one_thread : Env Ser → Env Ser
one_thread env = record env { is_parallel = false }

module _ (host : Host) (env : Env Ser) (code : RootCode Ser) (fuel depth : ℕ) where
  pub checkpoint : Runtime Ser → Outcome (Runtime Ser)
  checkpoint r = traverse (serializer host (one_thread env)) code fuel depth (fopened [] r)

  -- `initial` is the first character of the first argument.
  pub do_deserialize : ℕ → ℕ → List ℕ → Runtime Ser → Outcome (Bool × Runtime Ser)
  do_deserialize argc initial file r =
      if not (argc == 3)
      then fault
      else if initial == b'D'
      then (traverse (deserializer host (one_thread env)) code fuel depth (fopened file r) >>= λ r'.
          done (true, r'))
      else done (false, r)

  -- A checkpoint, where what the generated code of structs and roots does is to visit in place, and
  -- init leaves what is mapped mapped to itself, no type that changes its size, and nothing in the
  -- slots of the queues that is not to be worked on in place: whenever it returns, the program's
  -- pointers and its other memory are as they were before, and the symbols are those that
  -- `cstrider_register_init` has made of the ones before.
  pub checkpoint_keeps :
      (r r1 : Runtime Ser)
      → GeneratedLooks unwritten (serializer host (one_thread env))
      → ((key : ℕ) (w : World Ser) → Still w → After (Stays unwritten w) (code.run_root key w))
      → init (serializer host (one_thread env)) code (fopened [] r) ≡ done r1
      → Still r1.world
      → After
          (λ r'.
            (r'.world.mem ≡ r.world.mem)
            × (r'.world.user.block ≡ r.world.user.block)
            × (code.register_init r.symbols ≡ some r'.world.user.symbols))
          (checkpoint r)
  unfolding checkpoint
  checkpoint_keeps r r1 generated roots e s =
      let serial : Env Ser = serializer host (one_thread env) in
      let shared : Runtime Ser = share_symbols r1 in
      let first : Untouched (λ u. u.block) (fopened [] r).world r1.world =
        init-Untouched (λ u. u.block) serial code refl (fopened [] r) r1 e in
      let looks = serializer-LooksOnly host (one_thread env) in
      let s' : Still shared.world =
        (same-Stays (λ u. u.block) r1.world shared.world s refl refl refl s.in_place refl).still in
      let kept : Runtime Ser → Type 0 = λ r'.
        (r'.world.mem ≡ r.world.mem)
        × (r'.world.user.block ≡ r.world.user.block)
        × (code.register_init r.symbols ≡ some r'.world.user.symbols) in
      rw e (
        After-bind (λ b. Stays unwritten shared.world b.world) kept
          (run_visit_all serial code depth shared) _
          (run_visit_all-Stays unwritten serial code refl looks generated roots depth shared s')
          (λ b g.
            After-weaken (λ r'. Untouched unwritten b.world r'.world) kept
              (finish serial fuel depth b)
              (λ r' h.
                let same : unwritten r'.world.user ≡ unwritten shared.world.user =
                  h.same_kept ∙ g.same_kept in
                (
                  h.same_mem ∙ g.same_mem ∙ first.same_mem,
                  ap (λ k. k.0) same ∙ first.same_kept,
                  init-symbols unwritten serial code refl (fopened [] r) r1 e
                      ∙ ap some (sym (ap (λ k. k.1) same)),
                ))
              (finish-Untouched unwritten serial code refl looks generated roots fuel depth b
                g.still)))
