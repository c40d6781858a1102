-- ===== src/Mandelbrot/Equal.antt =====
-- benchmark/snakefish/mandelbrot.py, benchmark/multiprocessing/mandelbrot.py and benchmark/sequential/mandelbrot.py write the same
-- file.
use snakefish.Prelude.{
  ◌==◌, length, Result, ◌>>=◌, map_result, ok, err, value_error, ℕ, ◌+◌, ◌*◌, ◌≤◌, ◌<◌, ◌≡◌, refl,
  ap, ◌∙◌, Bool, false, List, [], ◌∷◌, map, length-map, length-append, arith,
}
use snakefish.Mandelbrot
use snakefish.Mandelbrot.{
  Plane, Row, header, row_bytes, compute_row, compute_rows, indices, row_jobs, ordered_rows,
}
use snakefish.Mandelbrot.Loop
use snakefish.Mandelbrot.Loop.{ceil_div, Client, parts, start_all, poll_all}
use snakefish.Mandelbrot.Forked
use snakefish.Mandelbrot.Process
use snakefish.Mandelbrot.Served.{forked_generator, forked-Serves, process_generator, process-Serves}
use snakefish.Mandelbrot.Rows.{compute_row-Bytes}
use snakefish.Mandelbrot.Ordering.{count, IsOrder, ordered_rows_lem}
use snakefish.Mandelbrot.Totals.{total}
use snakefish.Mandelbrot.Polling.{
  Source, Serves, left, polls, times, answered, count-append, Read, poll_all-Read,
}
use snakefish.Mandelbrot.Parts.{
  ceil_div-pos, ceil_div-zero, concat, concat-parts, length-parts, parts-map, indices-IsOrder,
}

pub map_result-ok {ℓ κ ι} :
    {A : Type ℓ} {B : Type κ} {D : Type ι} (f : B → Result D) (j : A → B) (g : A → D)
    → ((a : A) → f (j a) ≡ ok (g a))
    → (xs : List A) → map_result f (map j xs) ≡ ok (map g xs)
map_result-ok f j g e [] = refl
map_result-ok f j g e (x ∷ xs) = rw (e x, map_result-ok f j g e xs) refl

-- The generators as they are started.
sources : ℕ → List (List ℕ) → List Source
sources k [] = []
sources k (ys ∷ yss) = (k, false, ys) ∷ sources (k + 1) yss

total-left : (k : ℕ) (yss : List (List ℕ)) → total left (sources k yss) ≡ length (concat yss)
unfolding sources total
total-left k [] = refl
total-left k (ys ∷ yss) = omega (arith, total-left (k + 1) yss, length-append ys (concat yss))

total-polls :
    (k : ℕ) (yss : List (List ℕ)) → total polls (sources k yss) ≡ length yss + length (concat yss)
unfolding sources total
total-polls k [] = omega arith
total-polls k (ys ∷ yss) = omega (arith, total-polls (k + 1) yss, length-append ys (concat yss))

total-times :
    (j k : ℕ) (yss : List (List ℕ)) → total (times j) (sources k yss) ≡ count j (concat yss)
unfolding sources total
total-times j k [] = refl
total-times j k (ys ∷ yss) =
    omega (arith, total-times j (k + 1) yss, count-append j ys (concat yss))

written :
    (bytes : ℕ → List ℕ) (ys : List ℕ)
    → map (λ (row : Row). row_bytes row.1) (map (λ y. (y, bytes y)) ys)
      ≡ map row_bytes (map bytes ys)
written bytes [] = refl
written bytes (y ∷ ys) = ap (λ t. row_bytes (bytes y) ∷ t) (written bytes ys)

module _ {G : Type 0} (client : Client G) (n : ℕ) (bytes : ℕ → List ℕ) where
  abbrev make : ℕ → Row
  make y = (y, bytes y)

  job : ℕ → ℕ × ℕ
  job y = (y, n)

  module _ (generator : Source → G) (serves : Serves client n make generator) where
    start_all-sources :
        (k : ℕ) (yss : List (List ℕ))
        → start_all client k (map (map job) yss) ≡ ok (map generator (sources k yss))
    unfolding start_all sources job
    start_all-sources k [] = refl
    start_all-sources k (ys ∷ yss) = rw (serves.starts k ys, start_all-sources (k + 1) yss) refl

    -- The parts of the jobs, polled until they have ended, and put in order.
    polled-in_order :
        (size : ℕ) (answers : List Bool)
        → 0 < size
        → 2 * n ≤ answered answers
        → (start_all client 0 (parts n size n 0 (row_jobs n)) >>= λ generators.
            poll_all client answers 0 generators [] >>= λ rows. ordered_rows rows n)
          ≡ ok (map make (indices n 0))
    unfolding Read IsOrder job
    polled-in_order size answers pos enough =
        let yss = parts n size n 0 (indices n 0) in
        let (all, once) = indices-IsOrder n in
        let joined = concat-parts n size n 0 (indices n 0) pos all (omega arith) in
        let few = length-parts n size n 0 (indices n 0) in
        let (rows, (read, (size', each))) =
          poll_all-Read client n make generator serves answers 0 (sources 0 yss) []
            (omega (arith, total-polls 0 yss, ap length joined, all, few)) in
        rw (parts-map job n size n 0 (indices n 0), start_all-sources 0 yss, read)
          (ordered_rows_lem bytes n rows (
            omega (arith, size', total-left 0 yss, ap length joined, all),
            λ j. omega (arith, each j, total-times j 0 yss, ap (count j) joined, once j),
          ))

    -- For n > 0, at least one core, and 2 n polls that find an answer.
    mandelbrot-rows :
        (cpu_count : ℕ) (answers : List Bool)
        → 0 < n
        → 0 < cpu_count
        → 2 * n ≤ answered answers
        → Loop.mandelbrot client cpu_count answers n
          ≡ ok (header n ∷ map row_bytes (map bytes (indices n 0)))
    unfolding Loop.mandelbrot Loop.compute_rows Mandelbrot.mandelbrot
    mandelbrot-rows cpu_count answers some_row some_core enough =
        let (size, (e, pos)) = ceil_div-pos n cpu_count some_row some_core in
        let step : size == 0 ≡ false = ground arith in
        rw (e, step, polled-in_order size answers pos enough)
          (ap (λ t. ok (header n ∷ t)) (written bytes (indices n 0)))

module _ {C : Type 0} (plane : Plane C) (pids : ℕ → ℕ) where
  -- For n > 0, at least one core, and 2 n polls that find an answer, whatever the others find: the programs
  -- on `snakefish.Generator` and on the `Generator` of wrappers.py end without an exception and write the file that
  -- the sequential one writes, a header and n rows.
  pub generators-eq-sequential :
      (n cpu_count : ℕ) (answers : List Bool)
      → 0 < n
      → 0 < cpu_count
      → 2 * n ≤ answered answers
      → (rows : List (List ℕ)) × ((length rows ≡ n)
          × ((Mandelbrot.mandelbrot n (compute_rows plane n) ≡ ok (header n ∷ map row_bytes rows))
              × ((Loop.mandelbrot (Forked.client plane pids) cpu_count answers n
                    ≡ ok (header n ∷ map row_bytes rows))
                  × (Loop.mandelbrot (Process.client plane) cpu_count answers n
                      ≡ ok (header n ∷ map row_bytes rows)))))
  unfolding Mandelbrot.mandelbrot compute_rows IsOrder
  generators-eq-sequential n cpu_count answers some_row some_core enough =
      let bytes : ℕ → List ℕ = λ y. (compute_row-Bytes plane y n some_row).0 in
      let computes : (y : ℕ) → compute_row plane (y, n) ≡ ok (y, bytes y) =
        λ y. (compute_row-Bytes plane y n some_row).1.0 in
      let sequential : Mandelbrot.mandelbrot n (compute_rows plane n)
          ≡ ok (header n ∷ map row_bytes (map bytes (indices n 0))) =
        rw
          (map_result-ok (compute_row plane) (λ y. (y, n)) (λ y. (y, bytes y)) computes
            (indices n 0))
          (ap (λ t. ok (header n ∷ t)) (written bytes (indices n 0))) in
      let forked =
        mandelbrot-rows (Forked.client plane pids) n bytes
          (forked_generator plane n bytes computes pids) (forked-Serves plane n bytes computes pids)
          cpu_count answers some_row some_core enough in
      let processes =
        mandelbrot-rows (Process.client plane) n bytes (process_generator plane n bytes computes)
          (process-Serves plane n bytes computes) cpu_count answers some_row some_core enough in
      (
        map bytes (indices n 0),
        (length-map bytes (indices n 0) ∙ (indices-IsOrder n).0, (sequential, (forked, processes))),
      )

  -- For n = 0 the sequential program has no rows, and those on generators raise `ValueError`: they cut the
  -- jobs into parts of none.
  pub compute_rows-none :
      (cpu_count : ℕ) (answers : List Bool)
      → 0 < cpu_count
      → (compute_rows plane 0 ≡ ok [])
        × (Loop.compute_rows (Forked.client plane pids) cpu_count answers 0 ≡ err value_error)
        × (Loop.compute_rows (Process.client plane) cpu_count answers 0 ≡ err value_error)
  unfolding compute_rows Loop.compute_rows
  compute_rows-none cpu_count answers some_core = (
    refl,
    rw (ceil_div-zero cpu_count some_core) refl,
    rw (ceil_div-zero cpu_count some_core) refl,
  )
