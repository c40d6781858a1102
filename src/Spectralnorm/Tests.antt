-- ===== src/Spectralnorm/Tests.antt =====
-- benchmark/*/spectralnorm.py on whole numbers in place of floats.
use snakefish.Prelude.{◌==◌, ok, ℕ, ◌+◌, ◌*◌, ◌/◌, ◌≡◌, refl, List, [], ◌∷◌}
use snakefish.Bench.{Mapper, sequential}
use snakefish.Spectralnorm
use snakefish.Spectralnorm.{Arithmetic, eval_A, A_sum, At_sum, multiply_AtAv}

-- Twelve for one, so that the first quotients are whole.
abbrev whole : Arithmetic ℕ
whole = record {
  of_int = λ n. n * 12;
  plus = λ a b. a + b;
  times = λ a b. a * b / 12;
  quotient = λ a b. a * 12 / b;
  is_zero = λ a. a == 0;
  sqrt = λ a. a;
}

abbrev A : Mapper (List ℕ × ℕ) ℕ
A = sequential (A_sum whole)

abbrev At : Mapper (List ℕ × ℕ) ℕ
At = sequential (At_sum whole)

-- The matrix starts with 1, 1/2, 1/4 in its first row, 1/3 below.
entries : eval_A whole 0 0 ∷ eval_A whole 0 1 ∷ eval_A whole 1 0 ∷ [] ≡ 12 ∷ 6 ∷ 4 ∷ []
unfolding eval_A
entries = refl

product_run : multiply_AtAv whole A At (12 ∷ 12 ∷ []) ≡ ok (20 ∷ 10 ∷ [])
unfolding multiply_AtAv A_sum Spectralnorm.A_sum_from At_sum Spectralnorm.At_sum_from eval_A
product_run = refl
