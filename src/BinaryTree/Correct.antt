-- ===== src/BinaryTree/Correct.antt =====
-- The checks of benchmark/sequential/binary_tree.py in closed form.
use snakefish.Prelude.{
  ltb, ◌==◌, Bool-cases, length, length-append, ok, ℕ, zero, suc, ◌+◌, ◌-◌, ◌*◌, ◌/◌, ◌^◌, ◌<◌, max,
  ◌≡◌, refl, ap, ◌∙◌, inl, inr, List, [], ◌∷◌, ◌++◌, map, arith,
}
use mathlib.Core.Path.{fun_ext}
use mathlib.Core.List.{map-append}
use native.Mathlib.Nat.{pow-succ'}
use snakefish.Bench.{Mapper, IsMap, sum}
use snakefish.BinaryTree.{main}
use snakefish.BinaryTree.{
  Line, stretch, trees, long_lived, make_tree, check_tree, make_check, argchunks_from,
  get_argchunks, sum_chunks, depths,
}

-- The number of nodes of a full tree.
abbrev pub full_size : ℕ → ℕ
full_size d = 2 ^ (d + 1) - 1

pow_add : (d : ℕ) → 2 ^ (d + 1) ≡ 2 * 2 ^ d
pow_add d = ap (λ t. 2 ^ t) e ∙ pow-succ' 2 d
  where
    e : d + 1 ≡ suc d
    e = omega arith

pow_pos : (d : ℕ) → 0 < 2 ^ d
pow_pos zero = omega arith
pow_pos (suc d) = omega (arith, pow_pos d, pow-succ' 2 d)

pub check_tree-make_tree : (d : ℕ) → check_tree (make_tree d) ≡ full_size d
unfolding check_tree make_tree
check_tree-make_tree zero = refl
check_tree-make_tree (suc d) =
    rw (check_tree-make_tree d)
      (omega (arith, pow-succ' 2 d, pow_add d, pow_add (suc d), pow_pos d))

-- The check that `make_check` makes hangs only on the depth.
abbrev HasChecks : (d : ℕ) → List (ℕ × ℕ) → Type 0
HasChecks d chunk = sum (map make_check chunk) ≡ length chunk * full_size d

sum-append : (xs ys : List ℕ) → sum (xs ++ ys) ≡ sum xs + sum ys
sum-append [] ys = omega arith
sum-append (x ∷ xs) ys = omega (arith, sum-append xs ys)

longer-HasChecks :
    (d k : ℕ) (chunk : List (ℕ × ℕ)) → HasChecks d chunk → HasChecks d (chunk ++ ((k, d) ∷ []))
unfolding make_check
longer-HasChecks d k chunk h =
    ap sum (map-append make_check chunk ((k, d) ∷ []))
    ∙ sum-append (map make_check chunk) (make_check (k, d) ∷ [])
    ∙ rw (h, check_tree-make_tree d, length-append chunk ((k, d) ∷ [])) (grind arith)

in_full :
    (cs m m' n size : ℕ) → m' ≡ m + 1 → cs + m' * size + (0 + n) * size ≡ cs + (m + suc n) * size
in_full cs m m' n size e = rw e (grind arith)

module _ (chunkmap : Mapper (ℕ × ℕ) ℕ) (is_map : IsMap chunkmap)
    (calls : (a : ℕ × ℕ) → chunkmap.f a ≡ make_check a) where
  mapped :
      (args : List (ℕ × ℕ))
      → 0 < length args
      → length args < 2 ^ 31
      → chunkmap.run args ≡ ok (map make_check args)
  mapped args h k = is_map args (h, k) ∙ ap (λ f. ok (map f args)) (fun_ext calls)

  sum_chunks-argchunks_from :
      (d chunksize n k : ℕ) (chunk : List (ℕ × ℕ)) (cs : ℕ)
      → HasChecks d chunk
      → length chunk < chunksize
      → chunksize < 2 ^ 31
      → sum_chunks chunkmap (argchunks_from d chunksize n k chunk) cs
        ≡ ok (cs + (length chunk + n) * full_size d)
  unfolding sum_chunks argchunks_from
  sum_chunks-argchunks_from d chunksize zero k chunk cs h lt small =
      elim (Bool-cases (ltb 0 (length chunk))) [
        | inl some_left ↦
            rw (some_left, mapped chunk (ground arith) (omega arith), h) (ap ok (grind arith))
        | inr none_left ↦ rw none_left (ap ok (grind arith))
      ]
  sum_chunks-argchunks_from d chunksize (suc n) k chunk cs h lt small =
      elim (Bool-cases (length (chunk ++ ((k, d) ∷ [])) == chunksize)) [
        | inl full ↦
            rw
              (
                full,
                mapped (chunk ++ ((k, d) ∷ [])) (omega (arith, length-append chunk ((k, d) ∷ [])))
                    (ground arith),
                longer-HasChecks d k chunk h,
              )
              (sum_chunks-argchunks_from d chunksize n (k + 1) [] _ (grind arith) (omega arith)
                  small
                ∙ ap ok (
                    in_full cs (length chunk) _ n (full_size d)
                      (length-append chunk ((k, d) ∷ []))))
        | inr not_full ↦ rw not_full (
            sum_chunks-argchunks_from d chunksize n (k + 1) (chunk ++ ((k, d) ∷ [])) cs
              (longer-HasChecks d k chunk h) (ground (arith, length-append chunk ((k, d) ∷ [])))
              small
            ∙ ap ok
                (ap (λ t. cs + t * full_size d) (omega (arith, length-append chunk ((k, d) ∷ [])))))
      ]

  -- The lines for the depths from `d` on.
  abbrev tree_lines : ℕ → ℕ → ℕ → List Line
  tree_lines mmd zero d = []
  tree_lines mmd (suc n) d =
      trees (2 ^ (mmd - d)) d (2 ^ (mmd - d) * full_size d) ∷ tree_lines mmd n (d + 2)

  all_chunks :
      (i d : ℕ) → sum_chunks chunkmap (argchunks_from d 5000 i 1 []) 0 ≡ ok (i * full_size d)
  all_chunks i d =
      sum_chunks-argchunks_from d 5000 i 1 [] 0 (omega arith) (omega arith) (omega arith)
      ∙ ap ok (grind arith)

  depths-eq-tree_lines : (mmd n d : ℕ) → depths chunkmap mmd n d ≡ ok (tree_lines mmd n d)
  unfolding depths get_argchunks
  depths-eq-tree_lines mmd zero d = refl
  depths-eq-tree_lines mmd (suc n) d =
      rw (all_chunks (2 ^ (mmd - d)) d, depths-eq-tree_lines mmd n (d + 2)) refl

  -- With any map that gives the results of the calls in order, on however many processes, `main` prints
  -- the sizes of full trees: `2 ^ (d + 1) - 1` nodes for depth `d`, and for the `i` trees of a depth `i`
  -- times that.
  pub main-Holds :
      (n min_depth : ℕ)
      → (let max_depth = max (min_depth + 2) n in
          main chunkmap n min_depth
          ≡ ok (
              stretch (max_depth + 1) (full_size (max_depth + 1))
              ∷ (tree_lines (max_depth + min_depth) ((max_depth + 1 - min_depth + 1) / 2) min_depth
                  ++ (long_lived max_depth (full_size max_depth) ∷ []))))
  unfolding main make_check
  main-Holds n min_depth =
      rw
        (
          depths-eq-tree_lines (max (min_depth + 2) n + min_depth)
              ((max (min_depth + 2) n + 1 - min_depth + 1) / 2) min_depth,
          check_tree-make_tree (max (min_depth + 2) n + 1),
          check_tree-make_tree (max (min_depth + 2) n),
        )
        refl
