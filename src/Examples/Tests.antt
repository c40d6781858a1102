-- ===== src/Examples/Tests.antt =====
-- The programs of examples/, run.
use snakefish.Prelude.{Exc, pos, ok, ◌≡◌, refl, true, false, Option, some, [], ◌∷◌}
use snakefish.Examples.{number, numbers, was, is, alive, exit_status, result, range_from}
use snakefish.Examples.ForkJoin
use snakefish.Examples.ForkJoin.{after_line}
use snakefish.Examples.Polling.{answers, exit_codes}
use snakefish.Examples.Raising
use snakefish.Examples.Raising.{new_a, printed, thread_exception_lem}
use snakefish.Examples.Map
use snakefish.Job.{Value, results}
use snakefish.Thread.Process.{exited}

-- The child ends behind the second line about it.
fork_join_run :
    ForkJoin.main 7 after_line
    ≡ ok (
      was (number 1)
          ∷ alive false
          ∷ alive true
          ∷ alive false
          ∷ exit_status (pos 0)
          ∷ result (numbers (range_from 200 0))
          ∷ is (numbers (range_from 10 0))
          ∷ [],
      numbers (range_from 10 0),
    )
unfolding ForkJoin.main
fork_join_run = refl

process_fork_join_run :
    ForkJoin.process_main false true false
    ≡ ok (
      was (number 1)
          ∷ alive false
          ∷ alive true
          ∷ alive false
          ∷ exit_status (pos 0)
          ∷ result (numbers (range_from 200 0))
          ∷ is (numbers (range_from 10 0))
          ∷ [],
      some (numbers (range_from 10 0)),
    )
unfolding ForkJoin.process_main
process_fork_join_run = refl

thread_exception_lem_example :
    (Raising.main true 7 (answers 2 7 (exited 0)) ≡ ok (printed true 2, new_a))
    × (Raising.process_main true (exit_codes 2 0) ≡ ok (printed true 2, some new_a))
thread_exception_lem_example = thread_exception_lem true 7 2

abbrev no_object : Exc → Value Map.Object
no_object e = results []

abbrev same : Value Map.Object → Value Map.Object
same v = v

abbrev kept : Option Map.Dict → Value Map.Object → Option Map.Dict
kept d v = d
