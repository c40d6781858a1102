-- ===== src/Thread/Lifecycle.antt =====
-- A thread from `start` to `get_result`: what the parent gets is what the child computed.
use snakefish.Prelude.{
  if◌then◌else◌, Exc, Result, ◌>>=◌, ℤ, runtime_error, unspecified, pos, ok, err, ℕ, ◌≡◌, Bool,
  true, false, ◌&&◌, Option, none, some, arith,
}
use snakefish.Thread.{
  Thread, Outcome, returned, raised, Got, value, raises, init, start, run, join, try_join,
  get_result, get_exit_status,
}
use snakefish.Thread.Process.{Fork, Waited, Status, exited}

-- The parent's object, with the shared memory as the child left it.
abbrev pub share : {Obj : Type 0} → Thread Obj → Thread Obj → Thread Obj
share p c = record p { channel = c.channel; alive = c.alive }

module _ {Obj G : Type 0} (as_exception : Obj → Option Exc) (join_lines : Obj → Obj)
    (extract : G → Obj) (merge : G → Obj → G) where
  -- A thread that is started, and whose child has run to its end: `gc` are the child's globals then.
  abbrev pub run_to_end : Bool → ℕ → Outcome Obj → G → Result (Thread Obj)
  run_to_end merging pid out gc = start (Fork.parent pid) (init merging) >>= λ p.
      start Fork.child (init merging) >>= λ c.
      run as_exception join_lines extract merge out gc c >>= λ c'. ok (share p c')

  -- The calls of the parent after that: `join`, `get_exit_status` and `get_result`, in a process that has received
  -- an exception of a thread before, or has not.
  abbrev pub join_and_get : Bool → ℕ → Status → G → Thread Obj → Result (Got Obj × ℤ × G)
  join_and_get exc_received pid status g t =
      join as_exception join_lines extract merge (Waited.ended pid status) t g >>= λ (t', g').
      get_exit_status t' >>= λ code.
      get_result as_exception join_lines extract merge exc_received t' >>= λ (got, _, _).
      ok (got, code, g')

  -- A returned object that is no exception, a raised one that is.
  abbrev pub IsPlain : Outcome Obj → Type 0
  IsPlain (returned v) = as_exception v ≡ none
  IsPlain (raised v type lines) = (e : Exc) × (as_exception v ≡ some e)

  -- What `get_result` then does with it.
  abbrev pub got : Bool → Outcome Obj → Result (Got Obj)
  got exc_received (returned v) = ok (value v)
  got false (raised v type lines) = ok (raises (some type) v)
  got true (raised v type lines) = err unspecified

  -- The parent gets the value that `func` returned. Its exception is raised again with its type if no
  -- exception of a thread has been received in the process before; after one that has, `get_result` prints an
  -- empty object instead, and the call is `unspecified`. Where it is not, the exit status is 0, and with merging
  -- the parent's globals are merged with what `extract` took from the child's, exception or not; without
  -- merging they are untouched.
  pub join_and_get-run_to_end :
      (exc_received merging : Bool) (pid : ℕ) (out : Outcome Obj) (gc g : G)
      → IsPlain out
      → (run_to_end merging pid out gc >>= join_and_get exc_received pid (exited 0) g) ≡ (
          got exc_received out >>= λ r.
          ok (r, pos 0, (if merging then merge g (extract gc) else g)))
  unfolding run join start init get_result get_exit_status
  join_and_get-run_to_end exc_received merging pid (returned v) gc g h = ground arith
  join_and_get-run_to_end true merging pid (raised v type lines) gc g h = ground arith
  join_and_get-run_to_end false merging pid (raised v type lines) gc g h = ground arith

  -- Asking again gives the same answer and changes nothing more.
  pub get_result_again :
      (received : Bool) (t : Thread Obj) {a : Got Obj} {r : Bool} {t' : Thread Obj}
      → get_result as_exception join_lines extract merge received t ≡ ok (a, r, t')
      → get_result as_exception join_lines extract merge r t' ≡ ok (a, r, t')
  unfolding get_result
  get_result_again received t e = ground arith

  -- A thread that has been run to its end and joined, with the globals after.
  abbrev pub joined : Bool → ℕ → Outcome Obj → G → G → Result (Thread Obj × G)
  joined merging pid out gc g = run_to_end merging pid out gc >>= λ t.
      join as_exception join_lines extract merge (Waited.ended pid (exited 0)) t g

  -- The results of two joined threads, asked for in turn.
  abbrev pub both_results : Bool → Thread Obj → Thread Obj → Result (Got Obj × Result (Got Obj))
  both_results exc_received a b =
      get_result as_exception join_lines extract merge exc_received a >>= λ (first, r, _). ok (
        first,
        (get_result as_exception join_lines extract merge r b >>= λ (second, _, _). ok second),
      )

  -- Of two threads that have been run to their ends and joined, with merging or without, the first raised an
  -- exception, the first of the process: it is raised again with its type. The other's value is then returned as
  -- it is; but if it raised as well, its exception is not raised again: its type and traceback are never
  -- received, and `get_result` prints an empty object, which is `unspecified`.
  pub get_result-second_exception :
      (ma mb : Bool) (pa pb : ℕ) (v type lines : Obj) (out : Outcome Obj) (gca gcb g : G)
      → IsPlain (raised v type lines)
      → IsPlain out
      → (joined ma pa (raised v type lines) gca g >>= λ (a, g').
          joined mb pb out gcb g' >>= λ (b, _). both_results false a b)
        ≡ ok (raises (some type) v, got true out)
  unfolding run join start init get_result
  get_result-second_exception ma mb pa pb v type lines (returned w) gca gcb g (e, h) k =
      ground arith
  get_result-second_exception ma mb pa pb v type lines (raised w t l) gca gcb g (e, h) (x, k) =
      ground arith

  -- `try_join` answers false and does nothing while the child runs, and else does what `join` does.
  pub try_join-eq-join :
      (answer : Waited) (t : Thread Obj) (g : G)
      → t.started ≡ true
      → t.is_parent ≡ true
      → try_join as_exception join_lines extract merge answer t g ≡ elim answer [
        | Waited.running ↦ ok (false, t, g)
        | w ↦ join as_exception join_lines extract merge w t g >>= λ (t', g'). ok (true, t', g')
      ]
  unfolding try_join join
  try_join-eq-join Waited.failed t g s p = ground arith
  try_join-eq-join Waited.running t g s p = ground arith
  try_join-eq-join (Waited.ended pid status) t g s p = ground arith

  -- Out of turn the operations raise: a second `start`, a `join`, `try_join`, `get_exit_status` or
  -- `get_result` of a thread that was not started, and the last two before it was joined.
  pub out_of_turn :
      (fork : Fork) (answer : Waited) (received : Bool) (t : Thread Obj) (g : G)
      → (t.started ≡ true → start fork t ≡ err runtime_error)
        × (t.started ≡ false
            → (join as_exception join_lines extract merge answer t g ≡ err runtime_error)
              × (try_join as_exception join_lines extract merge answer t g ≡ err runtime_error))
        × (t.started && t.joined ≡ false
            → (get_exit_status t ≡ err runtime_error)
              × (get_result as_exception join_lines extract merge received t ≡ err runtime_error))
  unfolding start join try_join get_exit_status get_result
  out_of_turn fork answer received t g =
      (λ h. ground arith, λ h. (ground arith, ground arith), λ h. (ground arith, ground arith))
