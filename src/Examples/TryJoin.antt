-- ===== src/Examples/TryJoin.antt =====
-- examples/fork_tryjoin.py and examples/multiprocessing/fork_tryjoin.py. The pauses of the programs do nothing
-- to their state.
use snakefish.Prelude.{
  ==_self, Result, ◌>>=◌, assertion_error, pos, ok, err, ℕ, ◌≡◌, refl, false, Option, none, some,
  List, [], ◌∷◌, ◌++◌,
}
use snakefish.Examples.{
  Object, nothing, numbers, Line, exit_status, result, as_exception, join_lines, format_exc,
  extract, merge, extract_shared, merge_shared, range_from, print_result, checked_status,
  print_status,
}
use snakefish.Examples.Polling.{
  try_join_loop, join_loop, answers, exit_codes, polled, waiting, waiting_process,
  try_join_loop-answers, join_loop-exit_codes,
}
use snakefish.Thread
use snakefish.Thread.{Thread}
use snakefish.Thread.Process.{Fork, Waited, exited}
use snakefish.Thread.Lifecycle.{share}
use snakefish.Wrappers.Thread as Process

abbrev pub f : List ℕ
f = range_from 200 0

-- The program with the answers of `waitpid` to its polls. There is no global to merge.
unfoldable pub main : ℕ → List Waited → Result (List Line)
unfolding Thread.init Thread.start Thread.run Thread.get_result checked_status
main pid waited =
    let t = Thread.init false in
    Thread.start (Fork.parent pid) t >>= λ p. Thread.start Fork.child t >>= λ c.
    Thread.run as_exception join_lines extract merge (Thread.returned (numbers f)) nothing c
    >>= λ c'. try_join_loop waited (share p c') nothing >>= λ (polls, t', _).
        checked_status t' >>= λ status.
        Thread.get_result as_exception join_lines extract merge false t' >>= λ (got, _, _).
        print_result got >>= λ res. ok (polls ++ (status ∷ res ∷ []))

-- The same on `wrappers.Thread`, with the exit codes that `Process.join(0)` leaves.
unfoldable pub process_main : List (Option ℕ) → Result (List Line)
unfolding Process.init Process.wrapped_target Process.get_result print_status
process_main exitcodes =
    let t : Process.Thread Object Object = Process.init false false none in
    let sent =
      Process.wrapped_target as_exception format_exc extract_shared merge_shared t
        (Process.returned (numbers f)) none in
    join_loop exitcodes (record t { pipe = sent }) >>= λ (polls, t').
    print_status t'.exitcode >>= λ status.
    Process.get_result as_exception format_exc extract_shared merge_shared t' >>= λ got. elim got [
      | none ↦ err assertion_error
      | some v ↦ ok (polls ++ (status ∷ result v ∷ []))
    ]

-- However often the child is found running, both programs print a line for each poll, then the status 0
-- and the whole list that the child returned.
pub fork_tryjoin_lem :
    (pid n : ℕ)
    → (main pid (answers n pid (exited 0))
        ≡ ok (polled n ++ (exit_status (pos 0) ∷ result (numbers (range_from 200 0)) ∷ [])))
      × (process_main (exit_codes n 0)
          ≡ ok (polled n ++ (exit_status (pos 0) ∷ result (numbers (range_from 200 0)) ∷ [])))
unfolding main process_main Thread.join Process.join
fork_tryjoin_lem pid n = (
  rw
      (
        try_join_loop-answers n pid (exited 0) (waiting pid false (numbers f ∷ [])) nothing refl
            refl,
        ==_self pid,
      )
      refl,
  rw (join_loop-exit_codes n 0 (waiting_process false none (numbers f ∷ []))) refl,
)
