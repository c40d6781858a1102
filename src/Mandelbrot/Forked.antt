-- ===== src/Mandelbrot/Forked.antt =====
-- benchmark/snakefish/mandelbrot.py: the rows are made by generators of src/generator.cpp, which are polled in turn.
-- What it has in common with the sequential program is a copy there.
use snakefish.Prelude.{
  ◌==◌, if◌then◌else◌, Exc, Result, ◌>>=◌, stop_iteration, out_of_range, assertion_error,
  runtime_error, crash, pos, ok, err, ℤ, ℕ, Bool, true, false, Option, none, some, List, map,
}
use snakefish.Thread.{Got, value, raises}
use snakefish.Thread.Process.{Fork, Waited, exited}
use snakefish.Generator
use snakefish.Generator.{Generator, Item, yields, throws, Exhausted}
use snakefish.Generator.Ending.{finish}
use snakefish.Mandelbrot
use snakefish.Mandelbrot.Loop.{Client, Answer}
use snakefish.Mandelbrot.{Plane, Row, Written, row_jobs, compute_row, ordered_rows}

-- What goes through the channel: a row, an exception, or the type and the traceback of one.
pub data Object : Type 0 where
  row : Row → Object
  exception : Exc → Object
  text : Object

abbrev pub as_exception : Object → Option Exc
as_exception (exception e) = some e
as_exception o = none

abbrev pub ending : Exhausted Object
ending = record { stop_value = exception stop_iteration; stop_type = text; stop_traceback = text }

-- No globals are handed over.
abbrev pub extract : Unit {0} → Object
extract g = text

abbrev pub merge : Unit {0} → Object → Unit {0}
merge g o = g

abbrev pub child : Generator Object → Generator Object
child = Generator.run_round ending extract tt

-- `generators[i].next(False)`: the child has answered by then, or has not.
unfoldable pub poll : Bool → Generator Object → Result (Got Object) × Generator Object
unfolding Generator.ask Generator.receive_next Generator.run_round
poll answered g = elim (Generator.ask g) [
  | err e ↦ (err e, g)
  | ok g' ↦ Generator.receive_next as_exception false (if answered then child g' else g')
]

-- `generators[i].join()` and the test of the status; the child ends in between.
abbrev pub is_zero : ℤ → Bool
is_zero (pos n) = n == 0
is_zero z = false

unfoldable pub end_generator : Generator Object → Result (Unit {0})
unfolding Generator.join Generator.get_exit_status Generator.run_round
end_generator g =
    Generator.join merge (finish ending extract tt) (Waited.ended g.child_pid (exited 0)) g tt
    >>= λ (g', globals). Generator.get_exit_status g' >>= λ status.
        if is_zero status then ok tt else err assertion_error

-- What a call of `next` is for the loop: `except StopIteration`, and `except IndexError`, also where the
-- generator raised that.
abbrev pub on_raised : Object → Answer
on_raised (exception stop_iteration) = Answer.exhausted
on_raised (exception out_of_range) = Answer.not_ready
on_raised (exception e) = Answer.raised e
on_raised o = Answer.raised crash

abbrev pub on_next : Result (Got Object) → Answer
on_next (ok (value (row r))) = Answer.row r
on_next (ok (value o)) = Answer.raised runtime_error
on_next (ok (raises type o)) = on_raised o
on_next (err out_of_range) = Answer.not_ready
on_next (err e) = Answer.raised e

-- How `yield compute_row(j)` ends.
abbrev pub item : Result Row → Item Object
item (ok r) = yields (row r)
item (err e) = throws (exception e) text text

module _ {C : Type 0} (plane : Plane C) (pids : ℕ → ℕ) where
  -- `Generator(f)` and `g.start()`
  unfoldable pub start_generator : ℕ → List (ℕ × ℕ) → Result (Generator Object)
  unfolding Generator.init Generator.start Mandelbrot.compute_row
  start_generator k jobs =
      Generator.init true false (map (λ j. item (compute_row plane j)) jobs) >>= λ g.
      Generator.start (Fork.parent (pids k)) g

  unfoldable pub client : Client (Generator Object)
  unfolding poll start_generator end_generator
  client = record {
    start = start_generator;
    poll = λ answered g. let (r, g') = poll answered g in (on_next r, g');
    end_generator = end_generator;
  }
