-- ===== src/Wrappers/Map.antt =====
-- `map` and `starmap` of examples/multiprocessing/wrappers.py: the arguments are cut into chunks, each
-- chunk is a job for a `Thread`, and the jobs of a batch run at the same time. `starmap` is `map`
-- with `f(*arg)` for `f(arg)`, which is the same function of the argument here.
pub mod Correct
pub mod Limits
use snakefish.Prelude.{
  ℕ, zero, suc, ◌+◌, ◌*◌, ◌/◌, Bool, Option, none, some, List, [], ◌∷◌, ◌++◌, length, take, drop,
  Exc, Result, ok, err, zero_division, blocked, unspecified, ◌^◌, ltb, ◌&&◌, ◌>>=◌, if◌then◌else◌,
  ◌==◌,
}
use snakefish.Job.{Value, results, exception, run_all}
use snakefish.Wrappers.Thread
use snakefish.Wrappers.Thread.{Thread, Outcome, returned, raised}

-- `math.ceil(a / b)`. Below these bounds the float quotient is no whole number that `a / b` is not, and is not 0
-- for a > 0. Past them it may round, and is `unspecified` here.
unfoldable pub ceil_div : ℕ → ℕ → Result ℕ
ceil_div a zero = err zero_division
ceil_div a (suc b) =
    if ltb a (2 ^ 53) && ltb (suc b) (2 ^ 1022) then ok ((a + b) / suc b) else err unspecified

module _ {B : Type 0} where
  -- `isinstance(_, Exception)`
  abbrev pub as_exception : Value B → Option Exc
  as_exception (results bs) = none
  as_exception (exception e) = some e

  -- How the call of the comprehension ends.
  abbrev pub outcome : Result (List B) → Outcome (Value B)
  outcome (ok bs) = returned (results bs)
  outcome (err e) = raised (exception e)

  -- `results.extend(t.get_result())`: an exception object cannot be iterated over, and is raised.
  abbrev pub extend_result : List B → Option (Value B) → List B
  extend_result acc (some (results bs)) = acc ++ bs
  extend_result acc _ = acc

module _ {G A B : Type 0} (f : A → G → Result B × G) (g : G) (format_exc : Value B → Value B)
    (extract : Option G → Value B) (merge : Option G → Value B → Option G) where
  -- `map` hands no `shared_vars` to `Thread`; they would be of the type of the globals.
  abbrev pub Job : Type 0
  Job = Thread (Value B) G

  -- A child of the batch: built, started and run in a copy `g` of the parent's globals, with all that it sends.
  unfoldable pub run_job : Bool → Bool → List A → Job
  unfolding Thread.init Thread.wrapped_target
  run_job has_extract has_merge thread_args =
      let t : Job = Thread.init has_extract has_merge none in
      record t {
        pipe =
            Thread.wrapped_target as_exception format_exc extract merge t
              (outcome (run_all f thread_args g).0) none;
      }

  module _ (has_extract has_merge : Bool) (args : List A) (concurrency chunksize : ℕ) where
    -- `for j in range(concurrency)` from `j` on, with the rounds left.
    unfoldable pub spawn : ℕ → ℕ → ℕ → List Job
    unfolding run_job
    spawn zero i j = []
    spawn (suc n) i j =
        let more = spawn n i (j + 1) in
        let thread_args = take chunksize (drop ((i * concurrency + j) * chunksize) args) in
        elim thread_args [ [] ↦ [] | x ∷ xs ↦ run_job has_extract has_merge (x ∷ xs) ∷ more ]

  -- Whether objects fit a pipe that nobody reads from.
  module _ (fits : List (Value B) → Bool) where
    -- `for t in threads: t.join(); results.extend(t.get_result())`. `join` waits for the child's end before it
    -- receives, and a child waits until what it sends fits the pipe.
    unfoldable pub collect : List Job → List B → Result (List B)
    unfolding Thread.join Thread.get_result
    collect [] acc = ok acc
    collect (t ∷ ts) acc =
        (if fits t.pipe
          then Thread.join as_exception format_exc extract merge (some 0) t
          else err blocked)
        >>= λ (_, t'). Thread.get_result as_exception format_exc extract merge t' >>= λ v.
            collect ts (extend_result acc v)

    module _ (has_extract has_merge : Bool) (args : List A) (concurrency chunksize : ℕ) where
      -- `for i in range(n_batch)` from `i` on, with the rounds left.
      unfoldable pub batches : ℕ → ℕ → List B → Result (List B)
      unfolding spawn collect
      batches zero i acc = ok acc
      batches (suc n) i acc =
          collect (spawn has_extract has_merge args concurrency chunksize concurrency i 0) acc
          >>= λ acc'. batches n (i + 1) acc'

    -- `map(f, args, extract, merge, concurrency, chunksize)`; `cpu_count` is `os.cpu_count()`.
    unfoldable pub map : Bool → Bool → ℕ → List A → ℕ → ℕ → Result (List B)
    unfolding batches ceil_div
    map has_extract has_merge cpu_count args concurrency chunksize =
        let c = if concurrency == 0 then cpu_count else concurrency in
        (if chunksize == 0 then ceil_div (length args) c else ok chunksize) >>= λ k.
        ceil_div (length args) (c * k) >>= λ n_batch.
        batches has_extract has_merge args c k n_batch 0 []
