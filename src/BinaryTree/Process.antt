-- ===== src/BinaryTree/Process.antt =====
-- benchmark/multiprocessing/binary_tree.py: the program on `wrappers.map`. What it has in common with the
-- sequential one is a copy there.
use snakefish.Prelude.{Result, ℕ, ◌^◌, ◌<◌, ◌≡◌, refl, sym, ◌∙◌, Option, List}
use snakefish.Bench.{sequential}
use snakefish.Bench.Maps.{process_map, process_map-IsMap, sequential-IsMap}
use snakefish.Job.{Value}
use snakefish.BinaryTree
use snakefish.BinaryTree.{Tree, Line}
use snakefish.BinaryTree.Correct.{main-Holds}

abbrev make_tree : ℕ → Tree
make_tree = BinaryTree.make_tree

abbrev check_tree : Tree → ℕ
check_tree = BinaryTree.check_tree

abbrev make_check : ℕ × ℕ → ℕ
make_check = BinaryTree.make_check

abbrev get_argchunks : ℕ → ℕ → ℕ → Result (List (List (ℕ × ℕ)))
get_argchunks = BinaryTree.get_argchunks

module _ (format_exc : Value ℕ → Value ℕ) (extract : Option (Unit {0}) → Value ℕ)
    (merge : Option (Unit {0}) → Value ℕ → Option (Unit {0})) (cpu_count : ℕ) where
  unfoldable pub main : ℕ → ℕ → Result (List Line)
  main = BinaryTree.main (process_map make_check format_exc extract merge cpu_count)

  -- On a machine with at least one core, and fewer than 2^1000, the program on `wrappers.map` prints what the sequential one
  -- prints.
  pub processes-eq-sequential :
      0 < cpu_count
      → cpu_count < 2 ^ 1000
      → (n min_depth : ℕ) → main n min_depth ≡ BinaryTree.main (sequential make_check) n min_depth
  unfolding main
  processes-eq-sequential some_core few_cores n min_depth =
      main-Holds (process_map make_check format_exc extract merge cpu_count)
        (process_map-IsMap make_check format_exc extract merge cpu_count some_core few_cores)
        (λ a. refl) n min_depth
      ∙ sym
          (main-Holds (sequential make_check) (sequential-IsMap make_check) (λ a. refl) n min_depth)
