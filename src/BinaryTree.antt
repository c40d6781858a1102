-- ===== src/BinaryTree.antt =====
-- benchmark/sequential/binary_tree.py; the other three variants of the program differ in the map that
-- they call, which is a parameter of `main` here.
pub mod Correct
pub mod Forked
pub mod Process
pub mod Pooled
mod Tests
use snakefish.Prelude.{
  ltb, ◌==◌, if◌then◌else◌, length, Result, ◌>>=◌, assertion_error, ok, err, ℕ, zero, suc, ◌+◌, ◌-◌,
  ◌/◌, ◌%◌, ◌^◌, max, List, [], ◌∷◌, ◌++◌,
}
use snakefish.Bench.{Mapper, sum}

-- `(None, None)` and pairs of trees.
pub data Tree : Type 0 where
  leaf : Tree
  node : Tree → Tree → Tree

unfoldable pub make_tree : ℕ → Tree
make_tree zero = leaf
make_tree (suc d) = node (make_tree d) (make_tree d)

unfoldable pub check_tree : Tree → ℕ
check_tree leaf = 1
check_tree (node l r) = 1 + check_tree l + check_tree r

unfoldable pub make_check : ℕ × ℕ → ℕ
unfolding make_tree check_tree
make_check (i, d) = check_tree (make_tree d)

-- `for k in range(1, i + 1)` from `k` on, with the rounds left and the chunk so far.
unfoldable pub argchunks_from : ℕ → ℕ → ℕ → ℕ → List (ℕ × ℕ) → List (List (ℕ × ℕ))
argchunks_from d chunksize zero k chunk = if ltb 0 (length chunk) then chunk ∷ [] else []
argchunks_from d chunksize (suc n) k chunk =
    let longer = chunk ++ ((k, d) ∷ []) in
    let full = length longer == chunksize in
    let more = argchunks_from d chunksize n (k + 1) (if full then [] else longer) in
    if full then longer ∷ more else more

-- What `get_argchunks` yields, consumed in full.
unfoldable pub get_argchunks : ℕ → ℕ → ℕ → Result (List (List (ℕ × ℕ)))
unfolding argchunks_from
get_argchunks i d chunksize =
    if chunksize % 2 == 0 then ok (argchunks_from d chunksize i 1 []) else err assertion_error

-- The lines that `main` prints, by their numbers.
pub data Line : Type 0 where
  stretch : ℕ → ℕ → Line
  trees : ℕ → ℕ → ℕ → Line
  long_lived : ℕ → ℕ → Line

module _ (chunkmap : Mapper (ℕ × ℕ) ℕ) where
  -- `for argchunk in …: cs += sum(chunkmap(make_check, argchunk))`
  unfoldable pub sum_chunks : List (List (ℕ × ℕ)) → ℕ → Result ℕ
  sum_chunks [] cs = ok cs
  sum_chunks (chunk ∷ chunks) cs = chunkmap.run chunk >>= λ rs. sum_chunks chunks (cs + sum rs)

  -- `for d in range(min_depth, stretch_depth, 2)` from `d` on, with the rounds left.
  unfoldable pub depths : ℕ → ℕ → ℕ → Result (List Line)
  unfolding sum_chunks get_argchunks
  depths mmd zero d = ok []
  depths mmd (suc n) d =
      let i = 2 ^ (mmd - d) in
      get_argchunks i d 5000 >>= λ chunks.
      sum_chunks chunks 0 >>= λ cs. depths mmd n (d + 2) >>= λ lines. ok (trees i d cs ∷ lines)

  unfoldable pub main : ℕ → ℕ → Result (List Line)
  unfolding depths make_check check_tree make_tree
  main n min_depth =
      let max_depth = max (min_depth + 2) n in
      let stretch_depth = max_depth + 1 in
      let mmd = max_depth + min_depth in
      depths mmd ((stretch_depth - min_depth + 1) / 2) min_depth >>= λ lines. ok (
        stretch stretch_depth (make_check (0, stretch_depth))
        ∷ (lines ++ (long_lived max_depth (check_tree (make_tree max_depth)) ∷ [])))
