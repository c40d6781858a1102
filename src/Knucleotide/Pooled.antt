-- ===== src/Knucleotide/Pooled.antt =====
-- benchmark/benchmarksgame/knucleotide.py: the program on `pool.starmap_async`, a parameter, with the sequence in a global.
-- What it has in common with the sequential one is a copy there.
use snakefish.Prelude.{◌==◌, if◌then◌else◌, Result, ℕ, Bool, List, []}
use snakefish.Knucleotide
use snakefish.Knucleotide.{Counted}
use snakefish.Knucleotide.Count.Frames
use snakefish.Knucleotide.Lookup
use snakefish.Knucleotide.Lookup.{lean_starmap}
use snakefish.Knucleotide.Program
use snakefish.Knucleotide.Program.{Row, reading_frames, sequential_counts}

abbrev count_frequencies : List ℕ → List (ℕ × List ℕ) → ℕ → ℕ → Result (List Counted)
count_frequencies = Frames.count_frequencies

abbrev read_sequence : List (List ℕ) → List ℕ → (ℕ → ℕ) → List ℕ
read_sequence = Knucleotide.read_sequence

abbrev lookup_frequency : List Counted → ℕ → ℕ → ℕ × ℕ
lookup_frequency = Knucleotide.lookup_frequency

abbrev display : List Counted → List (List ℕ × ℕ × ℕ) → Bool → Bool → Bool → List Row
display = Program.display

abbrev lean_args : List (List ℕ) → List ℕ → List (List ℕ) × ℕ
lean_args = Lookup.lean_args

abbrev lean_call :
    (List ℕ → List (ℕ × List ℕ) → ℕ → ℕ → Result (List Counted))
    → List (List ℕ)
    → ℕ
    → List (ℕ × List ℕ)
    → ℕ
    → ℕ
    → Result (List Counted)
lean_call = Lookup.lean_call

module _
    (starmap_async : (ℕ × ℕ × ℕ → Result (List Counted))
      → List (ℕ × ℕ × ℕ)
      → Result (List (List Counted))) where
  -- The two branches on the number of parts.
  unfoldable pub counts : ℕ → List ℕ → List (ℕ × ℕ) → Result (List (List Counted))
  counts n sequence parts =
      if n == 1
      then sequential_counts n sequence parts
      else let (lean_buffer, lean_jobs) = lean_starmap [] sequence parts in
        let lean_job : ℕ × ℕ × ℕ → Result (List Counted) =
          λ (key, i, j). lean_call count_frequencies lean_buffer key reading_frames i j in
        (starmap_async lean_job lean_jobs)

  unfoldable pub main : ℕ → List (List ℕ) → Result (List Row)
  main = Program.main counts
