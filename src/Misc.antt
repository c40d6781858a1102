-- ===== src/Misc.antt =====
-- src/misc.cpp: `map` and `starmap` on forked threads, with and without merging of globals. `starmap` is
-- `map` with `f(*arg)` for `f(arg)`, the same function of the argument here.
--
-- Every `fork` succeeds and every `waitpid` reports the child that it was called for, with status 0.
pub mod Correct
pub mod Total
mod Tests
use snakefish.Prelude.{
  ◌==◌, if◌then◌else◌, length, Exc, Result, ◌>>=◌, crash, unspecified, ok, err, ℕ, zero, suc, ◌+◌,
  ◌-◌, ◌*◌, ◌/◌, ◌%◌, ◌^◌, Bool, Option, none, some, List, [], ◌∷◌, ◌++◌,
}
use snakefish.Job.{Value, results, exception, run_all}
use snakefish.Thread
use snakefish.Thread.{Thread, Outcome, returned, raised, Got, value, raises}
use snakefish.Thread.Process.{Fork, Waited, exited}

-- `a / b` on unsigned integers: a division by zero kills the process.
abbrev pub div : ℕ → ℕ → Result ℕ
div a b = if b == 0 then err crash else ok (a / b)

-- `(size + d - 1) / d`, computed in `size_t` and stored in a `uint`.
unfoldable pub round_up_div : ℕ → ℕ → Result ℕ
round_up_div size d = div ((size + d + 2 ^ 64 - 1) % 2 ^ 64) d >>= λ q. ok (q % 2 ^ 32)

module _ {B : Type 0} where
  -- The test for an instance of `Exception`; a list is none.
  abbrev pub as_exception : Value B → Option Exc
  as_exception (results bs) = none
  as_exception (exception e) = some e

  -- How the call of a thread's function ends.
  abbrev pub outcome : (Exc → Value B) → (Exc → Value B) → Result (List B) → Outcome (Value B)
  outcome type_of traceback_of (ok bs) = returned (results bs)
  outcome type_of traceback_of (err e) = raised (exception e) (type_of e) (traceback_of e)

  -- `std::move(…, std::back_inserter(results))`, or the exception that `get_result` throws: with an empty type
  -- `PyErr_SetObject` is `unspecified`.
  abbrev pub append_results : List B → Got (Value B) → Result (List B)
  append_results acc (value (results bs)) = ok (acc ++ bs)
  append_results acc (value (exception e)) = err e
  append_results acc (raises none v) = err unspecified
  append_results acc (raises (some type) (exception e)) = err e
  append_results acc (raises (some type) (results bs)) = err crash

-- `for k < chunksize`: up to `chunksize` arguments are taken from the iterator.
unfoldable pub split_args {ℓ} : {A : Type ℓ} → ℕ → List A → List A × List A
split_args zero iter = ([], iter)
split_args (suc k) [] = ([], [])
split_args (suc k) (x ∷ iter) = let (args, rest) = split_args k iter in (x ∷ args, rest)

-- `type_of` and `traceback_of` give the objects that describe an exception, `pid` is a child's, and
-- `exc_received` the static variable of `thread::get_result`.
module _ {G A B : Type 0} (f : A → G → Result B × G) (type_of traceback_of : Exc → Value B)
    (join_lines : Value B → Value B) (extract : G → Value B) (merge : G → Value B → G)
    (merging : Bool) (pid : ℕ) (exc_received : Bool) where
  -- A thread built for a chunk of the arguments and started in globals `g`, its child run to its end.
  unfoldable pub spawn_thread : List A → G → Result (Thread (Value B))
  unfolding Thread.start Thread.init Thread.run
  spawn_thread thread_args g =
      let (r, child_globals) = run_all f thread_args g in
      Thread.start (Fork.parent pid) (Thread.init merging) >>= λ p.
      Thread.start Fork.child (Thread.init merging) >>= λ c.
      Thread.run as_exception join_lines extract merge (outcome type_of traceback_of r)
        child_globals c
      >>= λ c'. ok (record p { channel = c'.channel; alive = c'.alive })

  -- `for j < concurrency`: the threads of a batch, and what is left of the arguments.
  unfoldable pub spawn : ℕ → ℕ → List A → G → Result (List (Thread (Value B)) × List A)
  spawn chunksize zero iter g = ok ([], iter)
  spawn chunksize (suc j) iter g =
      let (thread_args, rest) = split_args chunksize iter in
      elim thread_args [
        | [] ↦ ok ([], rest)
        | x ∷ xs ↦ spawn_thread (x ∷ xs) g >>= λ t.
            spawn chunksize j rest g >>= λ (ts, rest'). ok (t ∷ ts, rest')
      ]

  -- `for (thread &t : threads)`: join, and concatenate the results.
  unfoldable pub join_all : List (Thread (Value B)) → List B → G → Result (List B × G)
  unfolding Thread.join Thread.get_result
  join_all [] acc g = ok (acc, g)
  join_all (t ∷ ts) acc g =
      Thread.join as_exception join_lines extract merge (Waited.ended pid (exited 0)) t g
      >>= λ (t', g').
          Thread.get_result as_exception join_lines extract merge exc_received t' >>= λ (got, _, _).
          append_results acc got >>= λ acc'. join_all ts acc' g'

  -- `for i < n_batch`
  unfoldable pub batches : ℕ → ℕ → ℕ → List A → List B → G → Result (List B × G)
  unfolding spawn join_all
  batches concurrency chunksize zero iter acc g = ok (acc, g)
  batches concurrency chunksize (suc n) iter acc g =
      spawn chunksize concurrency iter g >>= λ (ts, rest).
      join_all ts acc g >>= λ (acc', g'). batches concurrency chunksize n rest acc' g'

  -- `_map`; `hardware` is `std::thread::hardware_concurrency()`. The product of the two `uint`s wraps.
  unfoldable pub map : ℕ → List A → ℕ → ℕ → G → Result (List B × G)
  map hardware args concurrency chunksize g =
      let c = if concurrency == 0 then hardware else concurrency in
      (if chunksize == 0 then round_up_div (length args) c else ok chunksize) >>= λ k.
      round_up_div (length args) ((c * k) % 2 ^ 32) >>= λ n_batch. batches c k n_batch args [] g
