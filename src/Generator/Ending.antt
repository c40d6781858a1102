-- ===== src/Generator/Ending.antt =====
-- The end of a generator of src/generator.cpp: the command `STOP`, `join` and `try_join`.
use snakefish.Prelude.{
  if◌then◌else◌, ==_self, Result, runtime_error, pos, ok, err, ℕ, ◌≡◌, refl, Bool, true, false,
  ◌&&◌, List, [], ◌∷◌, arith,
}
use snakefish.Thread.Process.{Fork, Waited, exited}
use snakefish.Generator.{
  Generator, Item, next_command, stop_command, yields, Exhausted, start, run_round, join, try_join,
  get_exit_status,
}
use snakefish.Generator.Protocol.{running}

-- The generator after the join, with what is left in its channel.
abbrev pub over : {Obj : Type 0} → ℕ → Bool → Bool → List Obj → List (Item Obj) → Generator Obj
over pid merging next_sent objects gen = record {
  is_parent = true;
  child_pid = pid;
  started = true;
  joined = true;
  child_status = exited 0;
  channel = objects;
  cmd_channel = [];
  next_sent = next_sent;
  stop_sent = true;
  merging = merging;
  gen = gen;
  exited_run = true;
}

module _ {Obj G : Type 0} (ending : Exhausted Obj) (extract : G → Obj) where
  -- What the child does once it is asked to stop, a request that it has not answered before that.
  abbrev pub finish : G → Generator Obj → Generator Obj
  finish child_globals g =
      run_round ending extract child_globals (run_round ending extract child_globals g)

module _ {Obj G : Type 0} (ending : Exhausted Obj) (extract : G → Obj) (merge : G → Obj → G) where
  -- A generator that no answer is owed for is joined with status 0, wherever it stands: with merging the
  -- parent's globals are merged with what `extract` took of the child's, and the channel is empty;
  -- without they stay as they are. A `try_join` that finds the child running answers false, asks it to
  -- stop, and changes no globals; the next one that finds it ended does what `join` does.
  pub join-idle :
      (pid : ℕ) (merging : Bool) (gen : List (Item Obj)) (child_globals globals : G)
      → (let g = running pid merging false [] [] gen in
          let ended = Waited.ended pid (exited 0) in
          let merged = if merging then merge globals (extract child_globals) else globals in
          (join merge (finish ending extract child_globals) ended g globals
            ≡ ok (over pid merging false [] gen, merged))
          × (get_exit_status (over pid merging false [] gen) ≡ ok (pos 0))
          × ((g' : Generator Obj) × (try_join merge (λ c. c) Waited.running g globals
                ≡ ok (false, g', globals))
              × (try_join merge (finish ending extract child_globals) ended g' globals
                  ≡ ok (true, over pid merging false [] gen, merged))))
  unfolding join try_join run_round get_exit_status
  join-idle pid true gen child_globals globals = (
    rw (==_self pid) refl,
    refl,
    (
      record (running pid true false [] [] gen) {
        cmd_channel = stop_command ∷ [];
        stop_sent = true;
      },
      refl,
      rw (==_self pid) refl,
    ),
  )
  join-idle pid false gen child_globals globals = (
    rw (==_self pid) refl,
    refl,
    (
      record (running pid false false [] [] gen) {
        cmd_channel = stop_command ∷ [];
        stop_sent = true;
      },
      refl,
      rw (==_self pid) refl,
    ),
  )

  -- Where the parent has asked for a value that it has not received, answered already or not, `join` merges
  -- that value in place of what `extract` took, which stays in the channel.
  pub join-unread :
      (pid : ℕ) (v : Obj) (rest : List (Item Obj)) (child_globals globals : G)
      → (let ended = Waited.ended pid (exited 0) in
          let after : Result (Generator Obj × G) =
            ok (over pid true true (extract child_globals ∷ []) rest, merge globals v) in
          (join merge
              (finish ending extract child_globals)
              ended
              (running pid true true [] (v ∷ []) rest)
              globals
            ≡ after)
          × (join merge
                (λ g.
                  run_round ending extract child_globals (finish ending extract child_globals g))
                ended
                (running pid true true (next_command ∷ []) [] (yields v ∷ rest))
                globals
              ≡ after))
  unfolding join run_round
  join-unread pid v rest child_globals globals = (rw (==_self pid) refl, rw (==_self pid) refl)

module _ {Obj G : Type 0} (merge : G → Obj → G) where
  -- Out of turn: a second `start`, a `join` and `try_join` before the first, an exit status before the join.
  pub generator-out_of_turn :
      (fork : Fork) (child : Generator Obj → Generator Obj) (waited : Waited) (g : Generator Obj)
      (globals : G)
      → (g.started ≡ true → start fork g ≡ err runtime_error)
        × (g.started ≡ false
            → (join merge child waited g globals ≡ err runtime_error)
              × (try_join merge child waited g globals ≡ err runtime_error))
        × (g.started && g.joined ≡ false → get_exit_status g ≡ err runtime_error)
  unfolding start join try_join get_exit_status
  generator-out_of_turn fork child w g globals =
      (λ s. ground arith, λ s. (ground arith, ground arith), λ s. ground arith)
