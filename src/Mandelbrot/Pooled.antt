-- ===== src/Mandelbrot/Pooled.antt =====
-- benchmark/benchmarksgame/mandelbrot.py: the rows are made by `pool.imap_unordered`, a parameter. What it has in common
-- with the sequential program is a copy there.
use snakefish.Prelude.{
  ltb, if◌then◌else◌, Result, ◌>>=◌, ok, ℕ, ◌<◌, ◌≡◌, refl, sym, ◌∙◌, List, map, Bool-cases, inl,
  inr,
}
use snakefish.Mandelbrot
use snakefish.Mandelbrot.{Plane, Row, row_jobs, compute_row, ordered_rows, indices}
use snakefish.Mandelbrot.Rows.{compute_row-Bytes}
use snakefish.Mandelbrot.Ordering.{IsOrder, ordered_rows_lem}
use snakefish.Mandelbrot.Equal.{map_result-ok}

module _ {C : Type 0} (plane : Plane C)
    (imap_unordered : (ℕ × ℕ → Result Row) → List (ℕ × ℕ) → Result (List Row)) where
  unfoldable pub compute_rows : ℕ → ℕ → Result (List Row)
  unfolding Mandelbrot.compute_rows ordered_rows compute_row
  compute_rows cpu_count n =
      if ltb cpu_count 2
      then Mandelbrot.compute_rows plane n
      else (imap_unordered (compute_row plane) (row_jobs n) >>= λ rows. ordered_rows rows n)

  -- For n > 0, where `imap_unordered` gives the results of calls that do not raise in some order, each once, the
  -- rows are those of the sequential program.
  pub pooled-eq-sequential_rows :
      (n cpu_count : ℕ)
      → 0 < n
      → ((bytes : ℕ → List ℕ)
          → ((y : ℕ) → compute_row plane (y, n) ≡ ok (y, bytes y))
          → (ys : List ℕ) × (IsOrder n ys
              × (imap_unordered (compute_row plane) (row_jobs n)
                  ≡ ok (map (λ y. (y, bytes y)) ys))))
      → compute_rows cpu_count n ≡ Mandelbrot.compute_rows plane n
  unfolding compute_rows Mandelbrot.compute_rows
  pooled-eq-sequential_rows n cpu_count some_row unordered =
      let bytes : ℕ → List ℕ = λ y. (compute_row-Bytes plane y n some_row).0 in
      let computes : (y : ℕ) → compute_row plane (y, n) ≡ ok (y, bytes y) =
        λ y. (compute_row-Bytes plane y n some_row).1.0 in
      let (ys, (order, e)) = unordered bytes computes in
      elim (Bool-cases (ltb cpu_count 2)) [
        | inl few ↦ rw few refl
        | inr many ↦
            rw (many, e)
              (ordered_rows_lem bytes n ys order
                ∙ sym (
                    map_result-ok (compute_row plane) (λ y. (y, n)) (λ y. (y, bytes y)) computes
                      (indices n 0)))
      ]
