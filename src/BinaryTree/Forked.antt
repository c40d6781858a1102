-- ===== src/BinaryTree/Forked.antt =====
-- benchmark/snakefish/binary_tree.py: the program on `snakefish.map`. What it has in common with the
-- sequential one is a copy there.
use snakefish.Prelude.{Exc, Result, ℕ, ◌^◌, ◌<◌, ◌≡◌, refl, sym, ◌∙◌, Bool, List}
use snakefish.Bench.{sequential}
use snakefish.Bench.Maps.{forked_map, forked_map-IsMap, sequential-IsMap}
use snakefish.Job.{Value}
use snakefish.BinaryTree
use snakefish.BinaryTree.{Tree, Line}
use snakefish.BinaryTree.Correct.{main-Holds}

abbrev make_tree : ℕ → Tree
make_tree = BinaryTree.make_tree

abbrev check_tree : Tree → ℕ
check_tree = BinaryTree.check_tree

abbrev make_check : ℕ × ℕ → ℕ
make_check = BinaryTree.make_check

abbrev get_argchunks : ℕ → ℕ → ℕ → Result (List (List (ℕ × ℕ)))
get_argchunks = BinaryTree.get_argchunks

module _ (type_of traceback_of : Exc → Value ℕ) (join_lines : Value ℕ → Value ℕ)
    (extract : Unit {0} → Value ℕ) (merge : Unit {0} → Value ℕ → Unit {0}) (pid : ℕ)
    (exc_received : Bool) (hardware : ℕ) where
  unfoldable pub main : ℕ → ℕ → Result (List Line)
  main = BinaryTree.main (
      forked_map make_check type_of traceback_of join_lines extract merge pid exc_received hardware)

  -- On a machine with at least one and fewer than 2^31 cores the program on `snakefish.map` prints
  -- what the sequential one prints.
  pub forked-eq-sequential :
      0 < hardware
      → hardware < 2 ^ 31
      → (n min_depth : ℕ) → main n min_depth ≡ BinaryTree.main (sequential make_check) n min_depth
  unfolding main
  forked-eq-sequential some_core few n min_depth =
      main-Holds
        (forked_map make_check type_of traceback_of join_lines extract merge pid exc_received
          hardware)
        (forked_map-IsMap make_check type_of traceback_of join_lines extract merge pid exc_received
          hardware some_core few)
        (λ a. refl) n min_depth
      ∙ sym
          (main-Holds (sequential make_check) (sequential-IsMap make_check) (λ a. refl) n min_depth)
