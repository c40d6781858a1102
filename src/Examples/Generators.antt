-- ===== src/Examples/Generators.antt =====
-- examples/generator.py and examples/generator_exception.py, on src/generator.cpp. A call of `next` that waits is a call that
-- finds nothing, a round of the child, and the call again.
pub mod Process
pub mod Printed
pub mod Alike
mod Tests
use snakefish.Prelude.{
  Result, ◌>>=◌, out_of_range, stop_iteration, assertion_error, crash, pos, blocked, user, ok, err,
  ℕ, zero, suc, Bool, true, false, List, [], ◌∷◌, ◌++◌, map,
}
use snakefish.Examples.{
  Object, number, numbers, nested, exception, exception_type, traceback_lines, Line, was, is,
  joined, not_joined, exit_status, raised_type, next, not_ready, exhausted, as_exception, extract,
  merge,
}
use snakefish.Thread.{Got, value, raises}
use snakefish.Thread.Process.{Fork, Waited, exited}
use snakefish.Generator
use snakefish.Generator.{Generator, Item, yields, throws, Exhausted}
use snakefish.Generator.Ending.{finish}

abbrev pub ending : Exhausted Object
ending = record {
  stop_value = exception stop_iteration;
  stop_type = exception_type stop_iteration;
  stop_traceback = traceback_lines stop_iteration;
}

-- The child's loop, with its global `a`.
abbrev pub child : Object → Generator Object → Generator Object
child a g = Generator.run_round ending extract a g

abbrev pub waiting_next : Object → Bool → Generator Object → Result (Got Object) × Generator Object
waiting_next a block g =
    Generator.next as_exception block (child a (Generator.next as_exception block g).1)

-- `print("next:", g.next(…))`
abbrev pub print_next : Result (Got Object) × Generator Object → Result (Line × Generator Object)
print_next (ok (value v), g) = ok (next v, g)
print_next (ok (raises type (exception e)), g) = err e
print_next (ok (raises type v), g) = err crash
print_next (err e, g) = err e

-- `for i in range(n)`: calls that block.
unfoldable pub blocking : Object → ℕ → Generator Object → Result (List Line × Generator Object)
unfolding Generator.next Generator.run_round
blocking a zero g = ok ([], g)
blocking a (suc n) g = print_next (waiting_next a true g) >>= λ (line, g').
    blocking a n g' >>= λ (lines, g''). ok (line ∷ lines, g'')

-- The inner `while True`, for a child that answers after so many polls. An `IndexError` is waited for.
unfoldable pub poll : Object → ℕ → Generator Object → Result (List Line × Generator Object)
unfolding Generator.next Generator.run_round
poll a zero g = print_next (waiting_next a false g) >>= λ (line, g'). ok (line ∷ [], g')
poll a (suc n) g =
    let (r, g') = Generator.next as_exception false g in
    let rest = poll a n g' in
    elim r [
      | ok got ↦ print_next (ok got, g') >>= λ (line, g''). ok (line ∷ [], g'')
      | err e ↦ elim e [
        | out_of_range ↦ rest >>= λ (lines, g''). ok (not_ready ∷ lines, g'')
        | other ↦ err other
      ]
    ]

-- The outer `for`, by the polls that each value takes.
unfoldable pub polling : Object → List ℕ → Generator Object → Result (List Line × Generator Object)
polling a [] g = ok ([], g)
polling a (n ∷ ns) g =
    poll a n g >>= λ (lines, g'). polling a ns g' >>= λ (lines', g''). ok (lines ++ lines', g'')

-- `while True: if g.try_join() …`, for a child that ends after so many polls.
unfoldable pub try_join_loop :
    Object → ℕ → ℕ → Generator Object → Object → Result (List Line × Generator Object × Object)
unfolding Generator.try_join
try_join_loop a pid zero g globals =
    Generator.try_join merge (finish ending extract a) (Waited.ended pid (exited 0)) g globals
    >>= λ (_, g', globals'). ok (joined ∷ [], g', globals')
try_join_loop a pid (suc n) g globals =
    Generator.try_join merge (λ c. c) Waited.running g globals >>= λ (_, g', globals').
    try_join_loop a pid n g' globals' >>= λ (lines, g'', globals'').
    ok (not_joined ∷ lines, g'', globals'')

unfoldable pub checked_status : Generator Object → Result Line
unfolding Generator.get_exit_status
checked_status g = Generator.get_exit_status g >>= λ code. elim code [
  | pos zero ↦ ok (exit_status (pos 0))
  | _ ↦ err assertion_error
]

-- examples/generator.py, for random numbers that begin with `xs`, and a child that answers the three requests
-- polled for after `p1`, `p2` and `p3` polls, and ends after `n`.
unfoldable pub main : ℕ → List ℕ → ℕ → ℕ → ℕ → ℕ → Result (List Line × Object)
unfolding Generator.init Generator.start checked_status
main pid xs p1 p2 p3 n =
    let a = number 1 in
    let new_a = numbers (42 ∷ []) in
    Generator.init true true (map (λ x. yields (number x)) xs) >>= λ g.
    Generator.start (Fork.parent pid) g >>= λ g1. blocking new_a 3 g1 >>= λ (lines, g2).
    polling new_a (p1 ∷ p2 ∷ p3 ∷ []) g2 >>= λ (lines', g3).
    try_join_loop new_a pid n g3 a >>= λ (lines'', g4, a'). checked_status g4 >>= λ status.
    ok (was a ∷ (lines ++ (lines' ++ (lines'' ++ (status ∷ is a' ∷ [])))), a')

-- The loop of examples/generator_exception.py, with so many rounds at most.
unfoldable pub until_stop : Object → ℕ → Generator Object → Result (List Line × Generator Object)
unfolding Generator.next Generator.run_round
until_stop a zero g = err blocked
until_stop a (suc n) g =
    let (r, g') = waiting_next a true g in
    let more = until_stop a n g' in
    elim r [
      | err e ↦ err e
      | ok got ↦ elim got [
        | value v ↦ more >>= λ (lines, g''). ok (next v ∷ lines, g'')
        | raises type v ↦ elim v [
          | exception e ↦ elim e [
            | stop_iteration ↦ ok (exhausted ∷ [], g')
            | other ↦ more >>= λ (lines, g''). ok (raised_type (exception other) ∷ lines, g'')
          ]
          | _ ↦ err crash
        ]
      ]
    ]

-- What `f` of that program does: one random number, then `Exception("triggered")`.
abbrev pub f_exception : ℕ → List (Item Object)
f_exception x =
    yields (number x)
    ∷ throws (exception (user 0)) (exception_type (user 0)) (traceback_lines (user 0))
    ∷ []

unfoldable pub main_exception : ℕ → ℕ → ℕ → Result (List Line × Object)
unfolding Generator.init Generator.start checked_status
main_exception pid x rounds =
    let a = number 1 in
    let new_a = nested ((42 ∷ []) ∷ []) in
    Generator.init true true (f_exception x) >>= λ g. Generator.start (Fork.parent pid) g >>= λ g1.
    until_stop new_a rounds g1 >>= λ (lines, g2).
    Generator.join merge (finish ending extract new_a) (Waited.ended pid (exited 0)) g2 a
    >>= λ (g3, a').
        checked_status g3 >>= λ status. ok (was a ∷ (lines ++ (status ∷ is a' ∷ [])), a')
