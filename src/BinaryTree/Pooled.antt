-- ===== src/BinaryTree/Pooled.antt =====
-- benchmark/benchmarksgame/binary_tree.py: the program on `multiprocessing.Pool.map`, a parameter, where
-- there is more than one core. What it has in common with the sequential one is a copy there.
use snakefish.Prelude.{
  ltb, if◌then◌else◌, Bool-cases, Result, ℕ, ◌≡◌, refl, sym, ◌∙◌, inl, inr, List,
}
use snakefish.Bench.{Mapper, IsMap, sequential}
use snakefish.Bench.Maps.{sequential-IsMap}
use snakefish.BinaryTree
use snakefish.BinaryTree.{Tree, Line}
use snakefish.BinaryTree.Correct.{main-Holds}

abbrev make_tree : ℕ → Tree
make_tree = BinaryTree.make_tree

abbrev check_tree : Tree → ℕ
check_tree = BinaryTree.check_tree

abbrev make_check : ℕ × ℕ → ℕ
make_check = BinaryTree.make_check

abbrev get_argchunks : ℕ → ℕ → ℕ → Result (List (List (ℕ × ℕ)))
get_argchunks = BinaryTree.get_argchunks

module _ (pool_map : List (ℕ × ℕ) → Result (List ℕ)) (cpu_count : ℕ) where
  abbrev pool : Mapper (ℕ × ℕ) ℕ
  pool = record { f = make_check; run = pool_map }

  unfoldable pub main : ℕ → ℕ → Result (List Line)
  main = BinaryTree.main (if ltb 1 cpu_count then pool else sequential make_check)

  -- With a pool whose `map` gives the results of the calls in order, the program prints what the
  -- sequential one prints, whether or not the machine has more than one core.
  pub pooled-eq-sequential :
      IsMap pool
      → (n min_depth : ℕ) → main n min_depth ≡ BinaryTree.main (sequential make_check) n min_depth
  unfolding main
  pooled-eq-sequential is_map n min_depth = elim (Bool-cases (ltb 1 cpu_count)) [
    | inl many ↦ rw many (
        main-Holds pool is_map (λ a. refl) n min_depth
        ∙ sym (
            main-Holds (sequential make_check) (sequential-IsMap make_check) (λ a. refl) n
              min_depth))
    | inr one ↦ rw one refl
  ]
