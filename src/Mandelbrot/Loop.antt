-- ===== src/Mandelbrot/Loop.antt =====
-- `compute_rows` of benchmark/snakefish/mandelbrot.py and benchmark/multiprocessing/mandelbrot.py: generators make the rows,
-- and are polled in turn. The class `Generator` is an interface, which Mandelbrot/Forked and Mandelbrot/Process fill.
use snakefish.Prelude.{
  ltb, ◌==◌, if◌then◌else◌, length, get_elem?, set, take, drop, Exc, Result, ◌>>=◌, value_error,
  zero_division, ◌/◌, out_of_range, blocked, ok, err, ℕ, zero, suc, ◌+◌, Bool, none, some, List, [],
  ◌∷◌, ◌++◌,
}
use snakefish.Mandelbrot
use snakefish.Mandelbrot.{Row, Written, row_jobs, ordered_rows}

-- How `generators[i].next(False)` ends for the loop: a row, the exception that says that there is none yet,
-- `StopIteration`, or another exception.
pub data Answer : Type 0 where
  row : Row → Answer
  not_ready exhausted : Answer
  raised : Exc → Answer

-- `start` builds and starts the generator of some jobs, `k` of them being started before. In `poll` the child
-- has answered by then, or has not. `end_generator` joins, and tests the exit status.
pub record Client (G : Type 0) : Type 0 where
  pub start : ℕ → List (ℕ × ℕ) → Result G
  pub poll : Bool → G → Answer × G
  pub end_generator : G → Result (Unit {0})

-- `math.ceil(n / cpu_count())`. The float quotient is exact enough for n below 2^53; above it the size may be
-- another, and is still above 0.
unfoldable pub ceil_div : ℕ → ℕ → Result ℕ
ceil_div n zero = err zero_division
ceil_div n (suc cpus) = ok ((n + cpus) / suc cpus)

-- `generators.pop(i)`
abbrev pub pop {ℓ} : {A : Type ℓ} → List A → ℕ → List A
pop [] i = []
pop (x ∷ xs) zero = xs
pop (x ∷ xs) (suc i) = x ∷ pop xs i

-- `for i in range(0, n, size)` from `i` on, with the rounds left: the parts of the jobs.
unfoldable pub parts {ℓ} : {A : Type ℓ} → ℕ → ℕ → ℕ → ℕ → List A → List (List A)
parts zero size n i jobs = []
parts (suc rounds) size n i jobs =
    let more = parts rounds size n (i + size) jobs in
    if ltb i n then take size (drop i jobs) ∷ more else []

module _ {G : Type 0} (client : Client G) where
  -- The loops' `i`, the generators, and `unordered_rows`.
  abbrev pub Polled : Type 0
  Polled = ℕ × List G × List Row

  -- The cases of `try`.
  abbrev pub on_answer : ℕ → List G → List Row → Answer × G → Result Polled
  on_answer i gens rows (row r, g) = ok (i + 1, set gens i g, rows ++ (r ∷ []))
  on_answer i gens rows (not_ready, g) = ok (i + 1, set gens i g, rows)
  on_answer i gens rows (exhausted, g) = client.end_generator g >>= λ _. ok (0, pop gens i, rows)
  on_answer i gens rows (raised e, g) = err e

  -- The body of `for i in range(len(generators))`.
  unfoldable pub visit : Bool → ℕ → List G → List Row → Result Polled
  visit answered i gens rows = elim (get_elem? gens i) [
    | none ↦ err out_of_range
    | some g ↦ on_answer i gens rows (client.poll answered g)
  ]

  -- `while len(generators) != 0` with the loop in it, which begins again behind the last generator. The list says of each poll
  -- whether the child has answered; a loop that it does not bring to an end goes on.
  unfoldable pub poll_all : List Bool → ℕ → List G → List Row → Result (List Row)
  unfolding visit
  poll_all answers i [] rows = ok rows
  poll_all [] i (g ∷ gens) rows = err blocked
  poll_all (answered ∷ answers) i (g ∷ gens) rows =
      visit answered (if ltb i (length (g ∷ gens)) then i else 0) (g ∷ gens) rows
      >>= λ (i', gens', rows'). poll_all answers i' gens' rows'

  unfoldable pub start_all : ℕ → List (List (ℕ × ℕ)) → Result (List G)
  start_all k [] = ok []
  start_all k (jobs ∷ rest) =
      client.start k jobs >>= λ g. start_all (k + 1) rest >>= λ gens. ok (g ∷ gens)

  -- `compute_rows(n, f)`. A step of 0 is a `ValueError`.
  unfoldable pub compute_rows : ℕ → List Bool → ℕ → Result (List Row)
  unfolding start_all poll_all parts Mandelbrot.ordered_rows ceil_div
  compute_rows cpu_count answers n = ceil_div n cpu_count >>= λ size.
      if size == 0
      then err value_error
      else (start_all 0 (parts n size n 0 (row_jobs n)) >>= λ generators.
          poll_all answers 0 generators [] >>= λ rows. ordered_rows rows n)

  unfoldable pub mandelbrot : ℕ → List Bool → ℕ → Result (List Written)
  unfolding compute_rows Mandelbrot.mandelbrot
  mandelbrot cpu_count answers n = Mandelbrot.mandelbrot n (compute_rows cpu_count answers n)
