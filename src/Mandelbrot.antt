-- ===== src/Mandelbrot.antt =====
-- benchmark/sequential/mandelbrot.py, and what its variants have in common with it. Python's numbers are a parameter
-- with their operations; a picture is its rows of bytes.
pub mod Rows
pub mod Ordering
pub mod Loop
pub mod Totals
pub mod Served
pub mod Forked
pub mod Process
pub mod Polling
pub mod Parts
pub mod Equal
pub mod Pooled
mod Tests
use Prim.Native.Nat.{bit_and}
use snakefish.Prelude.{
  map_result, ltb, leb, ◌==◌, if◌then◌else◌, length, get_elem?, set, replicate, Result, ◌>>=◌,
  blocked, out_of_range, runtime_error, value_error, ok, err, ℕ, zero, suc, ◌+◌, ◌-◌, ◌*◌, ◌/◌, ◌%◌,
  ◌^◌, Bool, true, false, Option, none, some, List, [], ◌∷◌, ◌++◌, map,
}

-- Floats and complex numbers: `1j`, -1.5, the integers, `+`, `-`, `*`, `/`, and the test `abs(z) >= 2.`
pub record Plane (C : Type 0) : Type 0 where
  pub imaginary : C
  pub minus_3_halves : C
  pub of_int : ℕ → C
  pub plus : C → C → C
  pub minus : C → C → C
  pub times : C → C → C
  pub quotient : C → C → C
  pub is_far : C → Bool

-- `bytearray(128 >> pos for pos in range(8))`
abbrev pub pixel_bits : List ℕ
pixel_bits = 128 ∷ 64 ∷ 32 ∷ 16 ∷ 8 ∷ 4 ∷ 2 ∷ 1 ∷ []

-- A row: its number and its bytes.
abbrev pub Row : Type 0
Row = ℕ × List ℕ

module _ {C : Type 0} (plane : Plane C) where
  -- The inner `for _ in range7`, with the rounds left.
  unfoldable pub orbit : ℕ → C → C → C
  orbit zero z c = z
  orbit (suc k) z c = orbit k (plane.plus (plane.times z z) c) c

  -- The outer one: true where it is not left by `break`.
  unfoldable pub stays : ℕ → C → C → Bool
  unfolding orbit
  stays zero z c = true
  stays (suc k) z c =
      let z' = orbit 7 z c in let rest = stays k z' c in if plane.is_far z' then false else rest

  -- `for pixel_bit in pixel_bits`, with `pixel` so far; `c` moves on by `c1`.
  unfoldable pub pixel_from : List ℕ → C → C → ℕ → ℕ
  unfolding stays
  pixel_from [] c1 c pixel = pixel
  pixel_from (bit ∷ bits) c1 c pixel =
      pixel_from bits c1 (plane.plus c c1) (if stays 7 c c then pixel + bit else pixel)

  unfoldable pub c1 : ℕ → C
  c1 n = plane.quotient (plane.of_int 2) (plane.of_int n)

  unfoldable pub c0 : ℕ → ℕ → C
  c0 y n =
      plane.minus
        (plane.plus plane.minus_3_halves
          (plane.times (plane.times plane.imaginary (plane.of_int y)) (c1 n)))
        plane.imaginary

  -- The first `k` values of `pixels(y, n, abs)` from `x` on.
  unfoldable pub pixels : ℕ → ℕ → ℕ → ℕ → List ℕ
  unfolding pixel_from
  pixels y n zero x = []
  pixels y n (suc k) x =
      pixel_from pixel_bits (c1 n) (plane.plus (plane.times (plane.of_int x) (c1 n)) (c0 y n)) 0
      ∷ pixels y n k (x + 8)

-- `bytearray(…)`: a number that is no byte is a `ValueError`.
abbrev pub bytearray : List ℕ → Result (List ℕ)
bytearray [] = ok []
bytearray (b ∷ bs) = if ltb b 256 then (bytearray bs >>= λ rest. ok (b ∷ rest)) else err value_error

-- `result[-1] &= mask`; nothing has no last byte.
unfoldable pub and_last : List ℕ → ℕ → Result (List ℕ)
and_last [] mask = err out_of_range
and_last (b ∷ []) mask = ok (bit_and b mask ∷ [])
and_last (b ∷ b' ∷ bs) mask = and_last (b' ∷ bs) mask >>= λ rest. ok (b ∷ rest)

module _ {C : Type 0} (plane : Plane C) where
  -- `compute_row((y, n))`
  unfoldable pub compute_row : ℕ × ℕ → Result Row
  unfolding pixels
  compute_row (y, n) = bytearray (pixels plane y n ((n + 7) / 8) 0) >>= λ result.
      and_last result (0xff * 2 ^ (8 - n % 8)) >>= λ masked. ok (y, masked)

-- `ordered_rows(rows, n)` from `i` on, with the rounds left: `order` are the rows that came early, `j` are those
-- to come. A `StopIteration` of `rows` in this generator is a `RuntimeError`.
abbrev pub put_row : List (Option Row) → Row → Result (List (Option Row))
put_row order row =
    if ltb row.0 (length order) then ok (set order row.0 (some row)) else err out_of_range

abbrev pub next_row : List (Option Row) → ℕ → List Row → Result (List (Option Row) × ℕ × List Row)
next_row order zero rows = ok (order, zero, rows)
next_row order (suc j) [] = err runtime_error
next_row order (suc j) (row ∷ rows) = put_row order row >>= λ order'. ok (order', j, rows)

unfoldable pub ordered_from : ℕ → List (Option Row) → ℕ → ℕ → List Row → Result (List Row)
ordered_from zero order i j rows = err blocked
ordered_from (suc rounds) order i j rows =
    if leb (length order) i
    then ok []
    else (next_row order j rows >>= λ (order', j', rows'). elim (get_elem? order' i) [
      | none ↦ err out_of_range
      | some early ↦ elim early [
        | none ↦ ordered_from rounds order' i j' rows'
        | some row ↦
            ordered_from rounds (set order' i none) (i + 1) j' rows' >>= λ more. ok (row ∷ more)
      ]
    ])

unfoldable pub ordered_rows : List Row → ℕ → Result (List Row)
unfolding ordered_from
ordered_rows rows n = ordered_from (2 * n + 1) (replicate n none) 0 n rows

-- `range(n)` from `i` on.
abbrev pub indices : ℕ → ℕ → List ℕ
indices zero i = []
indices (suc n) i = i ∷ indices n (i + 1)

-- What is written into the file: `"P4\n{0} {0}\n"`, and the bytes of a row.
pub data Written : Type 0 where
  header : ℕ → Written
  row_bytes : List ℕ → Written

-- `mandelbrot(n)` on the rows that `compute_rows` yields: the file, where nothing raises.
unfoldable pub mandelbrot : ℕ → Result (List Row) → Result (List Written)
mandelbrot n compute_rows =
    compute_rows >>= λ rows. ok (header n ∷ map (λ row. row_bytes row.1) rows)

-- `row_jobs`
abbrev pub row_jobs : ℕ → List (ℕ × ℕ)
row_jobs n = map (λ y. (y, n)) (indices n 0)

module _ {C : Type 0} (plane : Plane C) where
  -- `compute_rows(n, compute_row)` of the sequential program.
  unfoldable pub compute_rows : ℕ → Result (List Row)
  unfolding compute_row
  compute_rows n = map_result (compute_row plane) (row_jobs n)
