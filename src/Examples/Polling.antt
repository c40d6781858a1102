-- ===== src/Examples/Polling.antt =====
-- The loop of examples/fork_tryjoin.py and examples/thread_exception.py around `try_join()`, and that of
-- the programs in examples/multiprocessing around `join(0)`. What the system answers in turn is a list.
use snakefish.Prelude.{
  if◌then◌else◌, replicate, Result, ◌>>=◌, >>=_assoc, blocked, ok, err, ℕ, zero, suc, ◌≡◌, Bool,
  true, false, Option, none, some, List, [], ◌∷◌, ◌++◌, arith,
}
use snakefish.Examples.{
  Object, Line, joined, not_joined, as_exception, join_lines, format_exc, extract, merge,
  extract_shared, merge_shared,
}
use snakefish.Thread
use snakefish.Thread.{Thread}
use snakefish.Thread.Lifecycle.{try_join-eq-join}
use snakefish.Thread.Process.{Waited, Status, exited}
use snakefish.Wrappers.Thread as Process

-- A loop that all answers leave running does not end.
unfoldable pub try_join_loop :
    List Waited → Thread Object → Object → Result (List Line × Thread Object × Object)
try_join_loop [] t a = err blocked
try_join_loop (w ∷ ws) t a =
    Thread.try_join as_exception join_lines extract merge w t a >>= λ (done, t', a').
    if done
    then ok (joined ∷ [], t', a')
    else (try_join_loop ws t' a' >>= λ (lines, t'', a''). ok (not_joined ∷ lines, t'', a''))

unfoldable pub join_loop :
    List (Option ℕ)
    → Process.Thread Object Object
    → Result (List Line × Process.Thread Object Object)
join_loop [] t = err blocked
join_loop (e ∷ es) t =
    Process.join as_exception format_exc extract_shared merge_shared e t >>= λ (done, t').
    if done
    then ok (joined ∷ [], t')
    else (join_loop es t' >>= λ (lines, t''). ok (not_joined ∷ lines, t''))

-- `n` answers that the child runs, and then that it has ended.
abbrev pub answers : ℕ → ℕ → Status → List Waited
answers n pid status = replicate n Waited.running ++ (Waited.ended pid status ∷ [])

abbrev pub exit_codes : ℕ → ℕ → List (Option ℕ)
exit_codes n status = replicate n none ++ (some status ∷ [])

abbrev pub polled : ℕ → List Line
polled n = replicate n not_joined ++ (joined ∷ [])

-- The loop does what one `join` does, and prints a line for each answer.
pub try_join_loop-answers :
    (n pid : ℕ) (status : Status) (t : Thread Object) (a : Object)
    → t.started ≡ true
    → t.is_parent ≡ true
    → try_join_loop (answers n pid status) t a ≡ (
        Thread.join as_exception join_lines extract merge (Waited.ended pid status) t a
        >>= λ (t', a'). ok (polled n, t', a'))
unfolding try_join_loop
try_join_loop-answers zero pid status t a s p =
    rw (try_join-eq-join as_exception join_lines extract merge (Waited.ended pid status) t a s p) (
      >>=_assoc (Thread.join as_exception join_lines extract merge (Waited.ended pid status) t a) _
        _)
try_join_loop-answers (suc n) pid status t a s p =
    rw
      (
        try_join-eq-join as_exception join_lines extract merge Waited.running t a s p,
        try_join_loop-answers n pid status t a s p,
      )
      (>>=_assoc (Thread.join as_exception join_lines extract merge (Waited.ended pid status) t a) _
        _)

pub join_loop-exit_codes :
    (n status : ℕ) (t : Process.Thread Object Object)
    → join_loop (exit_codes n status) t ≡ (
        Process.join as_exception format_exc extract_shared merge_shared (some status) t
        >>= λ (done, t'). ok (polled n, t'))
unfolding join_loop Process.join
join_loop-exit_codes zero status t = ground arith
join_loop-exit_codes (suc n) status t = ground (arith, join_loop-exit_codes n status t)

-- A started thread in the parent, its child at its end with `sent` in the channel, and a started process.
abbrev pub waiting : ℕ → Bool → List Object → Thread Object
waiting pid merging sent = record {
  is_parent = true;
  child_pid = pid;
  started = true;
  joined = false;
  alive = false;
  child_status = exited 0;
  ret_val = none;
  exc_type = none;
  exc_traceback = none;
  channel = sent;
  merging = merging;
}

abbrev pub waiting_process : Bool → Option Object → List Object → Process.Thread Object Object
waiting_process merging shared_vars sent = record {
  pipe = sent;
  has_merge = merging;
  shared_vars = shared_vars;
  ret_val = none;
  traceback = none;
  merging = merging;
  exitcode = none;
}
