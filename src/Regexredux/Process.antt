-- ===== src/Regexredux/Process.antt =====
-- benchmark/multiprocessing/regexredux.py: the program on `wrappers.map`. What it has in common with
-- the sequential one is a copy there.
use Prim.Native.String.{String}
use snakefish.Prelude.{Result, ℕ, ◌^◌, ◌<◌, ◌≡◌, refl, sym, ◌∙◌, Option, List}
use snakefish.Bench.{Mapper, sequential}
use snakefish.Bench.Maps.{process_map, process_map-IsMap, sequential-IsMap}
use snakefish.Job.{Value}
use snakefish.Regexredux
use snakefish.Regexredux.{Re, Line, clean}
use snakefish.Regexredux.Correct.{main-lines}

abbrev var_find : Re → String → String → ℕ
var_find = Regexredux.var_find

abbrev variants : List String
variants = Regexredux.variants

module _ (re : Re) (format_exc : Value ℕ → Value ℕ) (extract : Option (Unit {0}) → Value ℕ)
    (merge : Option (Unit {0}) → Value ℕ → Option (Unit {0})) (cpu_count : ℕ) where
  abbrev chunkmap : String → Mapper String ℕ
  chunkmap seq = process_map (var_find re seq) format_exc extract merge cpu_count

  unfoldable pub main : String → Result (List Line)
  main = Regexredux.main re chunkmap

  -- With at least one core, and fewer than 2^1000, the program on `wrappers.map` writes what the sequential one writes.
  pub processes-lines :
      0 < cpu_count
      → cpu_count < 2 ^ 1000
      → (text : String) → main text ≡ Regexredux.main re (λ seq. sequential (var_find re seq)) text
  unfolding main
  processes-lines some_core few_cores text =
      main-lines re chunkmap text
        (process_map-IsMap (var_find re (clean re text)) format_exc extract merge cpu_count
          some_core few_cores)
        (λ f. refl)
      ∙ sym (
          main-lines re (λ seq. sequential (var_find re seq)) text
            (sequential-IsMap (var_find re (clean re text))) (λ f. refl))
