-- ===== src/Examples/Raising.antt =====
-- examples/thread_exception.py and examples/multiprocessing/thread_exception.py. `raises` says if the random number
-- was below 0.9.
use snakefish.Prelude.{
  if◌then◌else◌, ==_self, Exc, Result, ◌>>=◌, assertion_error, pos, user, ok, err, ℕ, ◌≡◌, refl,
  Bool, true, false, Option, none, some, List, [], ◌∷◌, ◌++◌,
}
use snakefish.Examples.{
  Object, number, numbers, nested, exception, exception_type, traceback_lines, traceback, dict_of_a,
  Line, was, is, exit_status, result, raised_type, as_exception, join_lines, format_exc, extract,
  merge, extract_shared, merge_shared, print_caught, checked_status, print_status,
}
use snakefish.Examples.Polling.{
  try_join_loop, join_loop, answers, exit_codes, polled, waiting, waiting_process,
  try_join_loop-answers, join_loop-exit_codes,
}
use snakefish.Thread
use snakefish.Thread.{Thread}
use snakefish.Thread.Process.{Fork, Waited, exited}
use snakefish.Thread.Lifecycle.{share}
use snakefish.Wrappers.Thread as Process

-- `Exception("triggered")`
abbrev pub triggered : Exc
triggered = user 0

-- What becomes of the global `a` either way.
abbrev pub new_a : Object
new_a = nested ((42 ∷ []) ∷ [])

abbrev pub f : Bool → Thread.Outcome Object
f true = Thread.raised (exception triggered) (exception_type triggered) (traceback_lines triggered)
f false = Thread.returned (numbers (42 ∷ []))

unfoldable pub main : Bool → ℕ → List Waited → Result (List Line × Object)
unfolding Thread.init Thread.start Thread.run Thread.get_result checked_status
main raises pid waited =
    let a = number 1 in
    let t = Thread.init true in
    Thread.start (Fork.parent pid) t >>= λ p. Thread.start Fork.child t >>= λ c.
    Thread.run as_exception join_lines extract merge (f raises) new_a c >>= λ c'.
    try_join_loop waited (share p c') a >>= λ (polls, t', a'). checked_status t' >>= λ status.
    Thread.get_result as_exception join_lines extract merge false t' >>= λ (got, _, _).
    print_caught got >>= λ res. ok ((was a ∷ polls) ++ (status ∷ res ∷ is a' ∷ []), a')

abbrev pub process_f : Bool → Process.Outcome Object
process_f true = Process.raised (exception triggered)
process_f false = Process.returned (numbers (42 ∷ []))

-- `try: … get_result() … except Exception as e`
abbrev pub process_caught : Result (Option Object) → Result Line
process_caught (ok none) = err assertion_error
process_caught (ok (some v)) = ok (result v)
process_caught (err e) = ok (raised_type (exception e))

unfoldable pub process_main : Bool → List (Option ℕ) → Result (List Line × Option Object)
unfolding Process.init Process.wrapped_target Process.get_result print_status
process_main raises exitcodes =
    let a = number 1 in
    let t : Process.Thread Object Object = Process.init true true (some a) in
    let sent =
      Process.wrapped_target as_exception format_exc extract_shared merge_shared t
        (process_f raises) (some new_a) in
    join_loop exitcodes (record t { pipe = sent }) >>= λ (polls, t').
    print_status t'.exitcode >>= λ status.
    process_caught (Process.get_result as_exception format_exc extract_shared merge_shared t')
    >>= λ res.
        let a' : Object = elim t'.shared_vars [ none ↦ a | some new ↦ new ] in
        ok ((was a ∷ polls) ++ (status ∷ res ∷ is a' ∷ []), t'.shared_vars)

-- The lines of both programs.
abbrev pub printed : Bool → ℕ → List Line
printed raises n =
    (was (number 1) ∷ polled n)
    ++ (exit_status (pos 0)
        ∷ (if raises then raised_type (exception triggered) else result (numbers (42 ∷ [])))
        ∷ is new_a
        ∷ [])

-- Whether or not `f` raises, and however often the child is found running: the status is 0, the exception
-- arrives in the parent or the result does, and the parent's `a` is the child's.
pub thread_exception_lem :
    (raises : Bool) (pid n : ℕ)
    → (main raises pid (answers n pid (exited 0)) ≡ ok (printed raises n, new_a))
      × (process_main raises (exit_codes n 0) ≡ ok (printed raises n, some new_a))
unfolding main process_main Thread.join Process.join
thread_exception_lem true pid n = (
  rw
      (
        try_join_loop-answers n pid (exited 0)
            (waiting pid true (
              dict_of_a new_a
              ∷ exception triggered
              ∷ exception_type triggered
              ∷ traceback_lines triggered
              ∷ []))
            (number 1) refl refl,
        ==_self pid,
      )
      refl,
  rw
      (join_loop-exit_codes n 0 (
        waiting_process true (some (number 1))
          (exception triggered ∷ traceback triggered ∷ dict_of_a new_a ∷ [])))
      refl,
)
thread_exception_lem false pid n = (
  rw
      (
        try_join_loop-answers n pid (exited 0)
            (waiting pid true (dict_of_a new_a ∷ numbers (42 ∷ []) ∷ [])) (number 1) refl refl,
        ==_self pid,
      )
      refl,
  rw
      (join_loop-exit_codes n 0
        (waiting_process true (some (number 1)) (numbers (42 ∷ []) ∷ dict_of_a new_a ∷ [])))
      refl,
)
