-- ===== src/Spectralnorm/Pooled.antt =====
-- benchmark/benchmarksgame/spectralnorm.py: the program on `pool.starmap`, a parameter. What it has in common with
-- the sequential one is a copy there.
use snakefish.Prelude.{Result, ℕ, ◌^◌, ◌<◌, ◌≡◌, refl, sym, ◌∙◌, List}
use snakefish.Bench.{Mapper, IsMap, sequential}
use snakefish.Bench.Maps.{sequential-IsMap}
use snakefish.Spectralnorm
use snakefish.Spectralnorm.{Arithmetic}
use snakefish.Spectralnorm.Correct.{main-norm}

module _ {F : Type 0} (num : Arithmetic F) where
  abbrev eval_A : ℕ → ℕ → F
  eval_A = Spectralnorm.eval_A num

  abbrev A_sum : List F × ℕ → F
  A_sum = Spectralnorm.A_sum num

  abbrev At_sum : List F × ℕ → F
  At_sum = Spectralnorm.At_sum num

module _ {F : Type 0} (num : Arithmetic F)
    (A_starmap At_starmap : List (List F × ℕ) → Result (List F)) where
  abbrev A_map : Mapper (List F × ℕ) F
  A_map = record { f = A_sum num; run = A_starmap }

  abbrev At_map : Mapper (List F × ℕ) F
  At_map = record { f = At_sum num; run = At_starmap }

  unfoldable pub multiply_AtAv : List F → Result (List F)
  multiply_AtAv = Spectralnorm.multiply_AtAv num A_map At_map

  unfoldable pub main : ℕ → Result F
  main = Spectralnorm.main num A_map At_map

  -- For 0 < n < 2^31 and a pool whose `starmap` gives the results of the calls in order, the program
  -- prints what the sequential one prints.
  pub pooled-norm :
      IsMap A_map
      → IsMap At_map
      → (n : ℕ) → 0 < n
      → n < 2 ^ 31
      → main n ≡ Spectralnorm.main num (sequential (A_sum num)) (sequential (At_sum num)) n
  unfolding main
  pooled-norm A_is_map At_is_map n some_left few =
      main-norm num A_map At_map A_is_map At_is_map (λ a. refl) (λ a. refl) n some_left few
      ∙ sym (
          main-norm num (sequential (A_sum num)) (sequential (At_sum num))
            (sequential-IsMap (A_sum num)) (sequential-IsMap (At_sum num)) (λ a. refl) (λ a. refl) n
            some_left few)
