-- ===== src/Spectralnorm/Forked.antt =====
-- benchmark/snakefish/spectralnorm.py: the program on `snakefish.starmap`. What it has in common with
-- the sequential one is a copy there.
use snakefish.Prelude.{
  Exc, Result, zero_division, crash, ok, err, ℕ, ◌^◌, ◌<◌, ◌≡◌, refl, sym, ◌∙◌, Bool, true, false,
  List, arith,
}
use snakefish.Bench.{Mapper, sequential}
use snakefish.Bench.Maps.{forked_map, forked_map-IsMap, sequential-IsMap}
use snakefish.Job.{Value}
use snakefish.Misc.Total.{map-nil}
use snakefish.Spectralnorm
use snakefish.Spectralnorm.{Arithmetic}
use snakefish.Spectralnorm.Correct.{main-norm, main-no_rows}

module _ {F : Type 0} (num : Arithmetic F) where
  abbrev eval_A : ℕ → ℕ → F
  eval_A = Spectralnorm.eval_A num

  abbrev A_sum : List F × ℕ → F
  A_sum = Spectralnorm.A_sum num

  abbrev At_sum : List F × ℕ → F
  At_sum = Spectralnorm.At_sum num

module _ {F : Type 0} (num : Arithmetic F) (type_of traceback_of : Exc → Value F)
    (join_lines : Value F → Value F) (extract : Unit {0} → Value F)
    (merge : Unit {0} → Value F → Unit {0}) (pid : ℕ) (exc_received : Bool) (hardware : ℕ) where
  abbrev A_map : Mapper (List F × ℕ) F
  A_map =
      forked_map (A_sum num) type_of traceback_of join_lines extract merge pid exc_received hardware

  abbrev At_map : Mapper (List F × ℕ) F
  At_map =
      forked_map (At_sum num) type_of traceback_of join_lines extract merge pid exc_received
        hardware

  unfoldable pub multiply_AtAv : List F → Result (List F)
  multiply_AtAv = Spectralnorm.multiply_AtAv num A_map At_map

  unfoldable pub main : ℕ → Result F
  main = Spectralnorm.main num A_map At_map

  -- For 0 < n < 2^31 and at least one and fewer than 2^31 cores the program on `snakefish.starmap` prints
  -- what the sequential one prints.
  pub forked-norm :
      0 < hardware
      → hardware < 2 ^ 31
      → (n : ℕ) → 0 < n
      → n < 2 ^ 31
      → main n ≡ Spectralnorm.main num (sequential (A_sum num)) (sequential (At_sum num)) n
  unfolding main
  forked-norm some_core few_cores n some_left few =
      main-norm num A_map At_map
        (forked_map-IsMap (A_sum num) type_of traceback_of join_lines extract merge pid exc_received
          hardware some_core few_cores)
        (forked_map-IsMap (At_sum num) type_of traceback_of join_lines extract merge pid
          exc_received hardware some_core few_cores)
        (λ a. refl) (λ a. refl) n some_left few
      ∙ sym (
          main-norm num (sequential (A_sum num)) (sequential (At_sum num))
            (sequential-IsMap (A_sum num)) (sequential-IsMap (At_sum num)) (λ a. refl) (λ a. refl) n
            some_left few)

  -- For n = 0 the program on `snakefish.starmap` is killed, where the sequential one raises: both divide
  -- by zero, one in C++.
  pub forked-no_rows :
      hardware < 2 ^ 32
      → num.is_zero (num.of_int 0) ≡ true
      → (main 0 ≡ err crash)
        × (Spectralnorm.main num (sequential (A_sum num)) (sequential (At_sum num)) 0
            ≡ err zero_division)
  unfolding main Spectralnorm.main Spectralnorm.multiply_AtAv
  forked-no_rows few_cores z = (
    rw
        (map-nil (λ a g. (ok (A_sum num a), g)) type_of traceback_of join_lines extract merge false
          pid exc_received (λ a. ok (A_sum num a)) (λ a g. refl) hardware 0 tt few_cores
          (omega arith))
        refl,
    main-no_rows num (sequential (A_sum num)) (sequential (At_sum num)) refl refl z,
  )
