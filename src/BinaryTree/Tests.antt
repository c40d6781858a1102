-- ===== src/BinaryTree/Tests.antt =====
-- benchmark/sequential/binary_tree.py and its variants, run on small depths.
use snakefish.Prelude.{assertion_error, ok, err, ◌≡◌, refl, [], ◌∷◌}
use snakefish.Bench.{sequential}
use snakefish.BinaryTree
use snakefish.BinaryTree.{
  Line, stretch, trees, long_lived, make_tree, check_tree, make_check, get_argchunks,
}

chunks_of_two :
    get_argchunks 5 3 2 ≡ ok (((1, 3) ∷ (2, 3) ∷ []) ∷ ((3, 3) ∷ (4, 3) ∷ []) ∷ ((5, 3) ∷ []) ∷ [])
unfolding get_argchunks
chunks_of_two = refl

odd_chunks : get_argchunks 5 3 3 ≡ err assertion_error
unfolding get_argchunks
odd_chunks = refl

main_run :
    BinaryTree.main (sequential make_check) 1 1
    ≡ ok (stretch 4 31 ∷ trees 8 1 24 ∷ trees 2 3 30 ∷ long_lived 3 15 ∷ [])
unfolding BinaryTree.main make_check
main_run = refl
