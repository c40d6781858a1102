-- ===== src/Examples/ForkJoin.antt =====
-- examples/fork_join.py and examples/multiprocessing/fork_join.py.
use snakefish.Prelude.{
  Result, ◌>>=◌, assertion_error, ok, err, ℕ, Bool, true, false, Option, none, some, List, [], ◌∷◌,
}
use snakefish.Examples.{
  Object, number, numbers, Line, was, is, alive, result, as_exception, join_lines, format_exc,
  extract, merge, extract_shared, merge_shared, range_from, print_result, checked_status,
  print_status,
}
use snakefish.Thread
use snakefish.Thread.{Thread, mark_alive}
use snakefish.Thread.Process.{Fork, Waited, exited}
use snakefish.Thread.Lifecycle.{share}
use snakefish.Wrappers.Thread as Process

-- The outcome of `f`, and the global `a` behind it.
abbrev pub f : Thread.Outcome Object × Object
f = (Thread.returned (numbers (range_from 200 0)), numbers (range_from 10 0))

-- When the child ends, on the parent's clock: before the last step of `start`, which marks the thread alive,
-- after it and before the second line about it, or after that line.
pub data ChildEnds : Type 0 where
  before_mark before_line after_line : ChildEnds

-- The program, with the child that `fork` gave the number `pid`. The child's exit status is 0.
unfoldable pub main : ℕ → ChildEnds → Result (List Line × Object)
unfolding Thread.init Thread.start Thread.run Thread.join Thread.get_result Thread.is_alive
    checked_status
main pid ends =
    let a = number 1 in
    let t = Thread.init true in
    Thread.start (Fork.parent pid) t >>= λ p. Thread.start Fork.child t >>= λ c.
    Thread.run as_exception join_lines extract merge f.0 f.1 c >>= λ c'.
    let over : Thread Object = elim ends [
      | before_mark ↦ mark_alive (share p c')
      | _ ↦ share p c'
    ] in
    let shown : Thread Object = elim ends [ after_line ↦ p | _ ↦ over ] in
    Thread.join as_exception join_lines extract merge (Waited.ended pid (exited 0)) over a
    >>= λ (t', a'). checked_status t' >>= λ status.
        Thread.get_result as_exception join_lines extract merge false t' >>= λ (got, _, _).
        print_result got >>= λ res. ok (
          was a
              ∷ alive (Thread.is_alive t)
              ∷ alive (Thread.is_alive shown)
              ∷ alive (Thread.is_alive t')
              ∷ status
              ∷ res
              ∷ is a'
              ∷ [],
          a',
        )

-- examples/multiprocessing/fork_join.py: the same on `wrappers.Thread`; `Process.is_alive` is the standard
-- library's, so what the three calls of it answer is an argument.
unfoldable pub process_main : Bool → Bool → Bool → Result (List Line × Option Object)
unfolding Process.init Process.wrapped_target Process.join Process.get_result print_status
process_main alive_before alive_started alive_joined =
    let a = number 1 in
    let t : Process.Thread Object Object = Process.init true true (some a) in
    let sent =
      Process.wrapped_target as_exception format_exc extract_shared merge_shared t
        (Process.returned (numbers (range_from 200 0))) (some f.1) in
    Process.join as_exception format_exc extract_shared merge_shared (some 0)
      (record t { pipe = sent })
    >>= λ (joined, t'). print_status t'.exitcode >>= λ status.
        Process.get_result as_exception format_exc extract_shared merge_shared t' >>= λ got.
        elim got [
          | none ↦ err assertion_error
          | some v ↦ ok (
            was a
                ∷ alive alive_before
                ∷ alive alive_started
                ∷ alive alive_joined
                ∷ status
                ∷ result v
                ∷ is (elim t'.shared_vars [ none ↦ a | some a' ↦ a' ])
                ∷ [],
            t'.shared_vars,
          )
        ]
