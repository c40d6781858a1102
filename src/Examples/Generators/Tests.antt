-- ===== src/Examples/Generators/Tests.antt =====
-- The generator programs of examples/ run.
use snakefish.Prelude.{pos, user, ok, ◌≡◌, [], ◌∷◌}
use snakefish.Examples.{
  number, numbers, nested, exception, was, is, joined, not_joined, exit_status, raised_type, next,
  not_ready, exhausted,
}
use snakefish.Examples.Generators
use snakefish.Examples.Generators.Process
use snakefish.Examples.Generators.Printed.{generator_lem, generator_exception_lem}
use snakefish.Examples.Generators.Alike.{generators_alike}

generator_lem_example :
    Generators.main 7 (1 ∷ 2 ∷ 3 ∷ 4 ∷ 5 ∷ 6 ∷ 9 ∷ []) 0 2 1 1
    ≡ ok (
      was (number 1)
          ∷ next (number 1)
          ∷ next (number 2)
          ∷ next (number 3)
          ∷ next (number 4)
          ∷ not_ready
          ∷ not_ready
          ∷ next (number 5)
          ∷ not_ready
          ∷ next (number 6)
          ∷ not_joined
          ∷ joined
          ∷ exit_status (pos 0)
          ∷ is (numbers (42 ∷ []))
          ∷ [],
      numbers (42 ∷ []),
    )
generator_lem_example = generator_lem 7 1 2 3 4 5 6 0 2 1 1 (9 ∷ [])

generator_exception_lem_example :
    Generators.main_exception 7 5 4
    ≡ ok (
      was (number 1)
          ∷ next (number 5)
          ∷ raised_type (exception (user 0))
          ∷ exhausted
          ∷ exit_status (pos 0)
          ∷ is (nested ((42 ∷ []) ∷ []))
          ∷ [],
      nested ((42 ∷ []) ∷ []),
    )
generator_exception_lem_example = generator_exception_lem 7 5 1

generators_alike_example :
    (Process.main (1 ∷ 2 ∷ 3 ∷ 4 ∷ 5 ∷ 6 ∷ 9 ∷ []) 0 2 1 1
      ≡ Generators.main 7 (1 ∷ 2 ∷ 3 ∷ 4 ∷ 5 ∷ 6 ∷ 9 ∷ []) 0 2 1 1)
    × (Process.main_exception 5 3 ≡ Generators.main_exception 7 5 3)
generators_alike_example = generators_alike 7 1 2 3 4 5 6 0 2 1 1 (9 ∷ []) 5 0
