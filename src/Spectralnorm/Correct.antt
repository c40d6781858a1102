-- ===== src/Spectralnorm/Correct.antt =====
-- The programs of benchmark/*/spectralnorm.py against the plain maps of `A_sum` and `At_sum`.
use mathlib.Core.Path.{fun_ext}
use snakefish.Prelude.{
  if◌then◌else◌, length, replicate, length-replicate, length-map, Result, zero_division, ok, err, ℕ,
  zero, suc, ◌+◌, ◌^◌, ◌<◌, ◌≡◌, refl, ap, ◌∙◌, true, List, [], map, arith,
}
use snakefish.Bench.{Mapper, IsMap}
use snakefish.Spectralnorm.{
  Arithmetic, indices, A_sum, At_sum, rows, products, multiply_AtAv, iterate, main,
}

length-indices : (n i : ℕ) → length (indices n i) ≡ n
length-indices zero i = refl
length-indices (suc n) i = ap suc (length-indices n (i + 1))

module _ {F : Type 0} (num : Arithmetic F) where
  -- The product as one list for each factor.
  abbrev pub times_A : List F → List F
  times_A u = map (A_sum num) (rows num u (indices (length u) 0))

  abbrev pub times_At : ℕ → List F → List F
  times_At n tmp = map (At_sum num) (rows num tmp (indices n 0))

  length-rows : (u : List F) (n : ℕ) → length (rows num u (indices n 0)) ≡ n
  length-rows u n = length-map (λ i. (u, i)) (indices n 0) ∙ length-indices n 0

  length-times_At : (n : ℕ) (u : List F) → length (times_At n u) ≡ n
  length-times_At n u = length-map (At_sum num) (rows num u (indices n 0)) ∙ length-rows u n

  -- Both products for a list of the same length.
  abbrev pub times_AtA : List F → List F
  times_AtA u = times_At (length u) (times_A u)

  length-times_AtA : (u : List F) → length (times_AtA u) ≡ length u
  length-times_AtA u = length-times_At (length u) (times_A u)

  -- `u` and `v` after the rounds, by the plain product.
  abbrev pub power : ℕ → List F → List F × List F
  power zero u = (times_AtA (times_AtA u), times_AtA u)
  power (suc n) u = power n (times_AtA (times_AtA u))

  -- The square root of the quotient of the products, by the plain product of lists.
  abbrev pub norm : List F × List F → Result F
  norm (u, v) =
      let (vBv, vv) = products num (num.of_int 0) (num.of_int 0) u v in
      if num.is_zero vv then err zero_division else ok (num.sqrt (num.quotient vBv vv))

  module _ (A_map At_map : Mapper (List F × ℕ) F) (A_is_map : IsMap A_map)
      (At_is_map : IsMap At_map) (A_calls : (a : List F × ℕ) → A_map.f a ≡ A_sum num a)
      (At_calls : (a : List F × ℕ) → At_map.f a ≡ At_sum num a) where
    multiplied :
        (u : List F)
        → 0 < length u
        → length u < 2 ^ 31
        → multiply_AtAv num A_map At_map u ≡ ok (times_AtA u)
    unfolding multiply_AtAv
    multiplied u some_left few =
        rw
          (
            A_is_map (rows num u (indices (length u) 0))
                (omega (arith, length-rows u (length u)), omega (arith, length-rows u (length u))),
            fun_ext A_calls,
          )
          (At_is_map (rows num (times_A u) (indices (length u) 0)) (
            omega (arith, length-rows (times_A u) (length u)),
            omega (arith, length-rows (times_A u) (length u)),
          )
            ∙ ap (λ f. ok (map f (rows num (times_A u) (indices (length u) 0)))) (fun_ext At_calls))

    round :
        (u : List F)
        → 0 < length u
        → length u < 2 ^ 31
        → (multiply_AtAv num A_map At_map u ≡ ok (times_AtA u))
          × (multiply_AtAv num A_map At_map (times_AtA u) ≡ ok (times_AtA (times_AtA u)))
          × (length (times_AtA (times_AtA u)) ≡ length u)
    round u some_left few =
        let same = length-times_AtA u in
        (
          multiplied u some_left few,
          multiplied (times_AtA u) (omega arith) (omega arith),
          length-times_AtA (times_AtA u) ∙ same,
        )

    iterated :
        (n : ℕ) (u : List F)
        → 0 < length u
        → length u < 2 ^ 31
        → iterate num A_map At_map n u ≡ ok (power n u)
    unfolding iterate
    iterated zero u some_left few =
        let (first, second, same) = round u some_left few in rw (first, second) refl
    iterated (suc n) u some_left few =
        let (first, second, same) = round u some_left few in
        rw (first, second) (iterated n (times_AtA (times_AtA u)) (omega arith) (omega arith))

    -- For 0 < n < 2^31 and with any two maps that give the results of the calls in order, `main` prints
    -- the norm that ten rounds of the plain product of lists with the matrix and its transpose give.
    pub main-norm :
        (n : ℕ)
        → 0 < n
        → n < 2 ^ 31
        → main num A_map At_map n ≡ norm (power 9 (replicate n (num.of_int 1)))
    unfolding main
    main-norm n some_left few =
        rw
          (iterated 9 (replicate n (num.of_int 1))
            (omega (arith, length-replicate n (num.of_int 1)))
            (omega (arith, length-replicate n (num.of_int 1))))
          refl

  multiply_AtAv-nil :
      (A_map At_map : Mapper (List F × ℕ) F)
      → A_map.run [] ≡ ok []
      → At_map.run [] ≡ ok []
      → multiply_AtAv num A_map At_map [] ≡ ok []
  unfolding multiply_AtAv
  multiply_AtAv-nil A_map At_map A_nil At_nil = rw (A_nil, At_nil) refl

  iterate-nil :
      (A_map At_map : Mapper (List F × ℕ) F) (n : ℕ)
      → multiply_AtAv num A_map At_map [] ≡ ok []
      → iterate num A_map At_map n [] ≡ ok ([], [])
  unfolding iterate
  iterate-nil A_map At_map zero e = rw (e, e) refl
  iterate-nil A_map At_map (suc n) e = rw (e, e) (iterate-nil A_map At_map n e)

  -- With maps that return for no arguments, n = 0 ends in Python's division by zero.
  pub main-no_rows :
      (A_map At_map : Mapper (List F × ℕ) F)
      → A_map.run [] ≡ ok []
      → At_map.run [] ≡ ok []
      → num.is_zero (num.of_int 0) ≡ true
      → main num A_map At_map 0 ≡ err zero_division
  unfolding main products
  main-no_rows A_map At_map A_nil At_nil z =
      rw (iterate-nil A_map At_map 9 (multiply_AtAv-nil A_map At_map A_nil At_nil), z) refl
