-- ===== src/Mandelbrot/Tests.antt =====
-- benchmark/*/mandelbrot.py on numbers that stop at 4, with two rows on two cores, three in the wrong order, and a row of
-- nine pixels.
use snakefish.Prelude.{
  leb, length, take, value_error, ok, err, ℕ, ◌+◌, ◌-◌, ◌*◌, min, ◌≡◌, refl, Bool, true, false,
  List, [], ◌∷◌, ◌++◌, map, arith,
}
use snakefish.Mandelbrot
use snakefish.Mandelbrot.{
  Plane, Row, Written, header, row_bytes, pixels, stays, pixel_from, and_last, compute_row,
  ordered_rows, ordered_from, compute_rows, indices,
}
use snakefish.Mandelbrot.Forked
use snakefish.Mandelbrot.Process
use snakefish.Mandelbrot.Loop
use snakefish.Mandelbrot.Rows.{Bytes, Ends, compute_row-Bytes, compute_row-wiped}
use snakefish.Mandelbrot.Ordering.{IsOrder, ordered_rows_lem}
use snakefish.Mandelbrot.Equal.{generators-eq-sequential, compute_rows-none}

abbrev line : Plane ℕ
line = record {
  imaginary = 0;
  minus_3_halves = 0;
  of_int = λ n. n;
  plus = λ a b. min 4 (a + b);
  minus = λ a b. a - b;
  times = λ a b. min 4 (a * b);
  quotient = λ a b. 1;
  is_far = λ a. leb 2 a;
}

-- Only 0 + 0 x stays, the first pixel.
nine_pixels : compute_row line (1, 9) ≡ ok (1, 128 ∷ 0 ∷ [])
unfolding compute_row pixels pixel_from stays Mandelbrot.orbit and_last Mandelbrot.c1 Mandelbrot.c0
nine_pixels = refl

-- It is lost where the row has eight.
eight_pixels : compute_row line (1, 8) ≡ ok (1, 0 ∷ [])
unfolding compute_row pixels pixel_from stays Mandelbrot.orbit and_last Mandelbrot.c1 Mandelbrot.c0
eight_pixels = refl

compute_row-Bytes_example :
    (bytes : List ℕ) × ((compute_row line (1, 9) ≡ ok (1, bytes))
      × ((length bytes ≡ 2) × (Bytes bytes × Ends 128 bytes)))
compute_row-Bytes_example = compute_row-Bytes line 1 9 (omega arith)

compute_row-wiped_example :
    compute_row line (1, 16) ≡ ok (1, take 1 (pixels line 1 16 2 0) ++ (0 ∷ []))
compute_row-wiped_example = compute_row-wiped line 1 1

abbrev one_byte : ℕ → List ℕ
one_byte y = (y + 64) ∷ []

ordered_rows_lem_example :
    ordered_rows ((2, 66 ∷ []) ∷ (0, 64 ∷ []) ∷ (1, 65 ∷ []) ∷ []) 3
    ≡ ok ((0, 64 ∷ []) ∷ (1, 65 ∷ []) ∷ (2, 66 ∷ []) ∷ [])
unfolding IsOrder
ordered_rows_lem_example = ordered_rows_lem one_byte 3 (2 ∷ 0 ∷ 1 ∷ []) (refl, λ k. ground arith)

-- The second generator is the first to answer.
abbrev answers : List Bool
answers = false ∷ true ∷ true ∷ false ∷ true ∷ true ∷ []

abbrev pids : ℕ → ℕ
pids k = k + 100

drawn :
    Loop.mandelbrot (Forked.client line pids) 2 answers 2
    ≡ ok (header 2 ∷ row_bytes (128 ∷ []) ∷ row_bytes (128 ∷ []) ∷ [])
unfolding Loop.mandelbrot Loop.compute_rows Forked.client Forked.start_generator
    Mandelbrot.mandelbrot compute_row pixels pixel_from stays Mandelbrot.orbit and_last
    Mandelbrot.c1 Mandelbrot.c0 Loop.start_all Loop.parts Loop.poll_all Loop.visit Forked.poll
    Forked.end_generator ordered_rows ordered_from
drawn = refl

generators-eq-sequential_example :
    (rows : List (List ℕ)) × ((length rows ≡ 2)
      × ((Mandelbrot.mandelbrot 2 (compute_rows line 2) ≡ ok (header 2 ∷ map row_bytes rows))
          × ((Loop.mandelbrot (Forked.client line pids) 2 answers 2
                ≡ ok (header 2 ∷ map row_bytes rows))
              × (Loop.mandelbrot (Process.client line) 2 answers 2
                  ≡ ok (header 2 ∷ map row_bytes rows)))))
generators-eq-sequential_example =
    generators-eq-sequential line pids 2 2 answers (omega arith) (omega arith) (omega arith)

compute_rows-none_example :
    (compute_rows line 0 ≡ ok [])
    × (Loop.compute_rows (Forked.client line pids) 2 answers 0 ≡ err value_error)
    × (Loop.compute_rows (Process.client line) 2 answers 0 ≡ err value_error)
compute_rows-none_example = compute_rows-none line pids 2 answers (omega arith)
