-- ===== src/Mandelbrot/Process.antt =====
-- benchmark/multiprocessing/mandelbrot.py: the rows are made by generators of wrappers.py. What it has in common with
-- the sequential program is a copy there.
use snakefish.Prelude.{
  Result, ◌>>=◌, stop_iteration, out_of_range, runtime_error, assertion_error, ok, err, ℕ, zero,
  Bool, false, Option, some, if◌then◌else◌, List, map,
}
use snakefish.Wrappers.Generator
use snakefish.Wrappers.Generator.{Message, Generator, yielded}
use snakefish.Mandelbrot
use snakefish.Mandelbrot.{Plane, Row, compute_row}
use snakefish.Mandelbrot.Loop.{Client, Answer}

-- No variables are shared.
abbrev pub RowGenerator : Type 0
RowGenerator = Generator Row (Unit {0}) (Unit {0})

abbrev pub extract : Unit {0} → Unit {0}
extract vars = vars

abbrev pub merge : Unit {0} → Message Row (Unit {0}) → Unit {0}
merge vars m = vars

abbrev pub child : RowGenerator → RowGenerator
child = Generator.wrapped_target extract

-- `generators[i].next(False)`: a child that has answered by then did so behind the request.
unfoldable pub poll : Bool → RowGenerator → Result (Message Row (Unit {0})) × RowGenerator
unfolding Generator.next Generator.wrapped_target
poll answered g = Generator.next false (if answered then child (Generator.next false g).1 else g)

-- `generators[i].join()` and the test of the status; the child ends in between.
abbrev pub checked_status : Option ℕ → Result (Unit {0})
checked_status (some zero) = ok tt
checked_status status = err assertion_error

unfoldable pub end_generator : RowGenerator → Result (Unit {0})
unfolding Generator.send_stop Generator.wrapped_target Generator.join Generator.get_exit_status
end_generator g = Generator.join merge (child (Generator.send_stop g)) >>= λ (done, g').
    checked_status (Generator.get_exit_status g')

-- What a call of `next` is for the loop. The loop's `out_of_range` is `queue.Empty`, and an `IndexError` of the
-- generator, which is none, cannot be told from it here.
abbrev pub on_next : Result (Message Row (Unit {0})) → Answer
on_next (ok (yielded r)) = Answer.row r
on_next (ok m) = Answer.raised runtime_error
on_next (err stop_iteration) = Answer.exhausted
on_next (err out_of_range) = Answer.not_ready
on_next (err e) = Answer.raised e

module _ {C : Type 0} (plane : Plane C) where
  -- `Generator(target=f)` and `g.start()`
  unfoldable pub start_generator : ℕ → List (ℕ × ℕ) → Result RowGenerator
  unfolding Generator.init Mandelbrot.compute_row
  start_generator k jobs = ok (Generator.init false tt (map (compute_row plane) jobs))

  unfoldable pub client : Client RowGenerator
  unfolding poll start_generator end_generator
  client = record {
    start = start_generator;
    poll = λ answered g. let (r, g') = poll answered g in (on_next r, g');
    end_generator = end_generator;
  }
