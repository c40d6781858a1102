-- ===== src/Bench/Maps.antt =====
-- The maps of src/misc.cpp and wrappers.py as the benchmark programs call them: with a function that
-- raises nothing and keeps no globals, and with the default concurrency and chunk size.
use snakefish.Prelude.{
  Exc, Result, ◌>>=◌, map_result_total, ok, ℕ, ◌^◌, ◌<◌, refl, ◌∙◌, Bool, true, false, List, Option,
  arith,
}
use snakefish.Bench.{Mapper, IsMap, sequential}
use snakefish.Job.{Value}
use snakefish.Misc
use snakefish.Misc.Total.{map-eq-map_result}
use snakefish.Wrappers.Map
use snakefish.Wrappers.Map.Correct.{process_map-eq-map_result}

module _ {A B : Type 0} (f : A → B) where
  -- `f` as a call that may raise and update globals.
  abbrev call : A → Unit {0} → Result B × Unit {0}
  call a g = (ok (f a), g)

  module _ (type_of traceback_of : Exc → Value B) (join_lines : Value B → Value B)
      (extract : Unit {0} → Value B) (merge : Unit {0} → Value B → Unit {0}) (pid : ℕ)
      (exc_received : Bool) (hardware : ℕ) where
    -- `snakefish.map(f, args)`
    abbrev pub forked_map : Mapper A B
    forked_map = record {
      f = f;
      run = λ args.
          Misc.map call type_of traceback_of join_lines extract merge false pid exc_received
            hardware args 0 0 tt
          >>= λ (bs, g). ok bs;
    }

    pub forked_map-IsMap : 0 < hardware → hardware < 2 ^ 31 → IsMap forked_map
    forked_map-IsMap h_pos h_small args (some_left, few) =
        let (g', e, same) =
          map-eq-map_result call type_of traceback_of join_lines extract merge false pid
            exc_received (λ a. ok (f a)) (λ a g. refl) hardware args 0 0 tt
            (h_pos, omega arith, some_left) in
        rw (e, map_result_total (λ a. ok (f a)) f (λ a. refl) args) refl

  module _ (format_exc : Value B → Value B) (extract : Option (Unit {0}) → Value B)
      (merge : Option (Unit {0}) → Value B → Option (Unit {0})) (cpu_count : ℕ) where
    -- What is sent in the programs is taken to fit a pipe.
    abbrev all_fit : List (Value B) → Bool
    all_fit sent = true

    -- `wrappers.map(f, args)`
    abbrev pub process_map : Mapper A B
    process_map = record {
      f = f;
      run = λ args. Map.map call tt format_exc extract merge all_fit false false cpu_count args 0 0;
    }

    pub process_map-IsMap : 0 < cpu_count → cpu_count < 2 ^ 1000 → IsMap process_map
    process_map-IsMap h_pos h_small args (some_left, few) =
        process_map-eq-map_result call tt format_exc extract merge all_fit (λ a. ok (f a))
          (λ a g. refl) false false cpu_count args 0 0 h_pos (omega arith) (omega arith)
          (omega arith, omega arith) (λ chunk short. refl)
        ∙ map_result_total (λ a. ok (f a)) f (λ a. refl) args

  pub sequential-IsMap : IsMap (sequential f)
  sequential-IsMap args served = refl
