-- ===== src/Regexredux/Pooled.antt =====
-- benchmark/benchmarksgame/regexredux.py: the program on `pool.imap`, a parameter. What it has in common with
-- the sequential one is a copy there.
use Prim.Native.String.{String}
use snakefish.Prelude.{Result, ℕ, ◌≡◌, refl, sym, ◌∙◌, List}
use snakefish.Bench.{Mapper, IsMap, sequential}
use snakefish.Bench.Maps.{sequential-IsMap}
use snakefish.Regexredux
use snakefish.Regexredux.{Re, Line, clean}
use snakefish.Regexredux.Correct.{main-lines}

abbrev var_find : Re → String → String → ℕ
var_find = Regexredux.var_find

abbrev variants : List String
variants = Regexredux.variants

module _ (re : Re) (imap : String → List String → Result (List ℕ)) where
  abbrev chunkmap : String → Mapper String ℕ
  chunkmap seq = record { f = var_find re seq; run = imap seq }

  unfoldable pub main : String → Result (List Line)
  main = Regexredux.main re chunkmap

  -- With a pool whose `imap` gives the results of the calls in order the program writes what the
  -- sequential one writes.
  pub pooled-lines :
      ((seq : String) → IsMap (chunkmap seq))
      → (text : String) → main text ≡ Regexredux.main re (λ seq. sequential (var_find re seq)) text
  unfolding main
  pooled-lines is_map text =
      main-lines re chunkmap text (is_map (clean re text)) (λ f. refl)
      ∙ sym (
          main-lines re (λ seq. sequential (var_find re seq)) text
            (sequential-IsMap (var_find re (clean re text))) (λ f. refl))
