-- ===== src/Spectralnorm/Process.antt =====
-- benchmark/multiprocessing/spectralnorm.py: the program on `wrappers.starmap`. What it has in common with
-- the sequential one is a copy there.
use snakefish.Prelude.{Result, ℕ, ◌^◌, ◌<◌, ◌≡◌, refl, sym, ◌∙◌, Option, List}
use snakefish.Bench.{Mapper, sequential}
use snakefish.Bench.Maps.{process_map, process_map-IsMap, sequential-IsMap}
use snakefish.Job.{Value}
use snakefish.Spectralnorm
use snakefish.Spectralnorm.{Arithmetic}
use snakefish.Spectralnorm.Correct.{main-norm}

module _ {F : Type 0} (num : Arithmetic F) where
  abbrev eval_A : ℕ → ℕ → F
  eval_A = Spectralnorm.eval_A num

  abbrev A_sum : List F × ℕ → F
  A_sum = Spectralnorm.A_sum num

  abbrev At_sum : List F × ℕ → F
  At_sum = Spectralnorm.At_sum num

module _ {F : Type 0} (num : Arithmetic F) (format_exc : Value F → Value F)
    (extract : Option (Unit {0}) → Value F)
    (merge : Option (Unit {0}) → Value F → Option (Unit {0})) (cpu_count : ℕ) where
  abbrev A_map : Mapper (List F × ℕ) F
  A_map = process_map (A_sum num) format_exc extract merge cpu_count

  abbrev At_map : Mapper (List F × ℕ) F
  At_map = process_map (At_sum num) format_exc extract merge cpu_count

  unfoldable pub multiply_AtAv : List F → Result (List F)
  multiply_AtAv = Spectralnorm.multiply_AtAv num A_map At_map

  unfoldable pub main : ℕ → Result F
  main = Spectralnorm.main num A_map At_map

  -- For 0 < n < 2^31 and at least one core, and fewer than 2^1000, the program on `wrappers.starmap` prints what the sequential
  -- one prints.
  pub processes-norm :
      0 < cpu_count
      → cpu_count < 2 ^ 1000
      → (n : ℕ) → 0 < n
      → n < 2 ^ 31
      → main n ≡ Spectralnorm.main num (sequential (A_sum num)) (sequential (At_sum num)) n
  unfolding main
  processes-norm some_core few_cores n some_left few =
      main-norm num A_map At_map
        (process_map-IsMap (A_sum num) format_exc extract merge cpu_count some_core few_cores)
        (process_map-IsMap (At_sum num) format_exc extract merge cpu_count some_core few_cores)
        (λ a. refl) (λ a. refl) n some_left few
      ∙ sym (
          main-norm num (sequential (A_sum num)) (sequential (At_sum num))
            (sequential-IsMap (A_sum num)) (sequential-IsMap (At_sum num)) (λ a. refl) (λ a. refl) n
            some_left few)
