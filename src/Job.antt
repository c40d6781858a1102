-- ===== src/Job.antt =====
-- What one process does with its share of the arguments: `map_thread_func` of src/misc.cpp, and
-- `[f(arg) for arg in thread_args]` of wrappers.py, in a process with its own copy of the globals.
use snakefish.Prelude.{◌≡◌, refl, List, [], ◌∷◌, Exc, Result, ok, err, ◌>>=◌, map_result, arith}

-- A Python object as far as a job's result is concerned: the list that the comprehension builds, or
-- an exception.
pub data Value (B : Type 0) : Type 0 where
  results : List B → Value B
  exception : Exc → Value B

module _ {G A B : Type 0} (f : A → G → Result B × G) where
  -- The globals are threaded through; the first exception ends the comprehension.
  unfoldable pub run_all : List A → G → Result (List B) × G
  run_all [] g = (ok [], g)
  run_all (x ∷ xs) g =
      let (r, g') = f x g in
      elim r [
        | err e ↦ (err e, g')
        | ok y ↦ let (rs, g'') = run_all xs g' in (rs >>= λ ys. ok (y ∷ ys), g'')
      ]

  -- Where the result of `f` does not hang on the globals, a job computes the plain map.
  pub run_all-eq-map_result :
      (h : A → Result B)
      → ((a : A) (g : G) → (f a g).0 ≡ h a)
      → (xs : List A) (g : G) → (run_all xs g).0 ≡ map_result h xs
  unfolding run_all
  run_all-eq-map_result h e [] g = refl
  run_all-eq-map_result h e (x ∷ xs) g =
      rw (← e x g) (ground (arith, run_all-eq-map_result h e xs (f x g).1))
