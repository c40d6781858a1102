-- ===== src/Regexredux/Forked.antt =====
-- benchmark/snakefish/regexredux.py: the program on `snakefish.map`. What it has in common with
-- the sequential one is a copy there.
use Prim.Native.String.{String}
use snakefish.Prelude.{Exc, Result, ℕ, ◌^◌, ◌<◌, ◌≡◌, refl, sym, ◌∙◌, Bool, List}
use snakefish.Bench.{Mapper, sequential}
use snakefish.Bench.Maps.{forked_map, forked_map-IsMap, sequential-IsMap}
use snakefish.Job.{Value}
use snakefish.Regexredux
use snakefish.Regexredux.{Re, Line, clean}
use snakefish.Regexredux.Correct.{main-lines}

abbrev var_find : Re → String → String → ℕ
var_find = Regexredux.var_find

abbrev variants : List String
variants = Regexredux.variants

module _ (re : Re) (type_of traceback_of : Exc → Value ℕ) (join_lines : Value ℕ → Value ℕ)
    (extract : Unit {0} → Value ℕ) (merge : Unit {0} → Value ℕ → Unit {0}) (pid : ℕ)
    (exc_received : Bool) (hardware : ℕ) where
  abbrev chunkmap : String → Mapper String ℕ
  chunkmap seq =
      forked_map (var_find re seq) type_of traceback_of join_lines extract merge pid exc_received
        hardware

  unfoldable pub main : String → Result (List Line)
  main = Regexredux.main re chunkmap

  -- With at least one and fewer than 2^31 cores the program on `snakefish.map` writes what the
  -- sequential one writes.
  pub forked-lines :
      0 < hardware
      → hardware < 2 ^ 31
      → (text : String) → main text ≡ Regexredux.main re (λ seq. sequential (var_find re seq)) text
  unfolding main
  forked-lines some_core few_cores text =
      main-lines re chunkmap text
        (forked_map-IsMap (var_find re (clean re text)) type_of traceback_of join_lines extract
          merge pid exc_received hardware some_core few_cores)
        (λ f. refl)
      ∙ sym (
          main-lines re (λ seq. sequential (var_find re seq)) text
            (sequential-IsMap (var_find re (clean re text))) (λ f. refl))
