-- ===== src/Spectralnorm.antt =====
-- benchmark/sequential/spectralnorm.py; the other three variants of the program differ in the `starmap`
-- that they call, a parameter here: `A_sum` and `At_sum` over the indices.
pub mod Correct
pub mod Forked
pub mod Process
pub mod Pooled
mod Tests
use snakefish.Prelude.{
  if◌then◌else◌, length, replicate, Result, ◌>>=◌, zero_division, ok, err, ℕ, zero, suc, ◌+◌, ◌*◌,
  Bool, List, [], ◌∷◌, map,
}
use snakefish.Bench.{Mapper}

-- Python's numbers, integers and floats, with the operations that the program uses. `quotient` is `/` by
-- a number that is not 0.
pub record Arithmetic (F : Type 0) : Type 0 where
  pub of_int : ℕ → F
  pub plus : F → F → F
  pub times : F → F → F
  pub quotient : F → F → F
  pub is_zero : F → Bool
  pub sqrt : F → F

-- `range(n)` from `i` on, with the rounds left.
abbrev pub indices : ℕ → ℕ → List ℕ
indices zero i = []
indices (suc n) i = i ∷ indices n (i + 1)

module _ {F : Type 0} (num : Arithmetic F) where
  -- The divisor is at least 1.
  unfoldable pub eval_A : ℕ → ℕ → F
  eval_A i j =
      let ij = i + j in
      num.quotient (num.of_int 1) (
        num.plus
          (num.plus (num.quotient (num.of_int (ij * (ij + 1))) (num.of_int 2)) (num.of_int i))
          (num.of_int 1))

  -- `for j, u_j in enumerate(u)` from `j` on, with the sum so far.
  unfoldable pub A_sum_from : ℕ → ℕ → F → List F → F
  A_sum_from i j x [] = x
  A_sum_from i j x (u_j ∷ u) = A_sum_from i (j + 1) (num.plus x (num.times (eval_A i j) u_j)) u

  unfoldable pub A_sum : List F × ℕ → F
  A_sum (u, i) = A_sum_from i 0 (num.of_int 0) u

  unfoldable pub At_sum_from : ℕ → ℕ → F → List F → F
  At_sum_from i j x [] = x
  At_sum_from i j x (u_j ∷ u) = At_sum_from i (j + 1) (num.plus x (num.times (eval_A j i) u_j)) u

  unfoldable pub At_sum : List F × ℕ → F
  At_sum (u, i) = At_sum_from i 0 (num.of_int 0) u

  -- `zip(repeat(u), r)`
  abbrev pub rows : List F → List ℕ → List (List F × ℕ)
  rows u r = map (λ i. (u, i)) r

  -- `for ue, ve in zip(u, v)`, with `vBv` and `vv` so far.
  unfoldable pub products : F → F → List F → List F → F × F
  products vBv vv [] v = (vBv, vv)
  products vBv vv (ue ∷ u) [] = (vBv, vv)
  products vBv vv (ue ∷ u) (ve ∷ v) =
      products (num.plus vBv (num.times ue ve)) (num.plus vv (num.times ve ve)) u v

  module _ (A_map At_map : Mapper (List F × ℕ) F) where
    unfoldable pub multiply_AtAv : List F → Result (List F)
    multiply_AtAv u =
        let r = indices (length u) 0 in A_map.run (rows u r) >>= λ tmp. At_map.run (rows tmp r)

    -- `for _ in range(10)`, with the rounds left behind this one: `u` and `v` after it.
    unfoldable pub iterate : ℕ → List F → Result (List F × List F)
    unfolding multiply_AtAv
    iterate zero u = multiply_AtAv u >>= λ v. multiply_AtAv v >>= λ u'. ok (u', v)
    iterate (suc n) u = multiply_AtAv u >>= λ v. multiply_AtAv v >>= λ u'. iterate n u'

    -- What `main` prints.
    unfoldable pub main : ℕ → Result F
    unfolding iterate
    main n = iterate 9 (replicate n (num.of_int 1)) >>= λ (u, v).
        let (vBv, vv) = products (num.of_int 0) (num.of_int 0) u v in
        if num.is_zero vv then err zero_division else ok (num.sqrt (num.quotient vBv vv))
