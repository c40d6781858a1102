-- ===== src/Knucleotide/Process.antt =====
-- benchmark/multiprocessing/knucleotide.py: the program on `wrappers.starmap`, with the sequence in a global.
-- What it has in common with the sequential one is a copy there.
use snakefish.Prelude.{◌==◌, if◌then◌else◌, Result, ℕ, Bool, true, false, Option, List, []}
use snakefish.Job.{Value}
use snakefish.Wrappers.Map
use snakefish.Knucleotide
use snakefish.Knucleotide.{Counted}
use snakefish.Knucleotide.Count.Frames
use snakefish.Knucleotide.Lookup
use snakefish.Knucleotide.Lookup.{lean_starmap}
use snakefish.Knucleotide.Program
use snakefish.Knucleotide.Program.{Row, reading_frames, sequential_counts}

abbrev count_frequencies : List ℕ → List (ℕ × List ℕ) → ℕ → ℕ → Result (List Counted)
count_frequencies = Frames.count_frequencies

abbrev read_sequence : List (List ℕ) → List ℕ → (ℕ → ℕ) → List ℕ
read_sequence = Knucleotide.read_sequence

abbrev lookup_frequency : List Counted → ℕ → ℕ → ℕ × ℕ
lookup_frequency = Knucleotide.lookup_frequency

abbrev display : List Counted → List (List ℕ × ℕ × ℕ) → Bool → Bool → Bool → List Row
display = Program.display

abbrev lean_args : List (List ℕ) → List ℕ → List (List ℕ) × ℕ
lean_args = Lookup.lean_args

abbrev lean_call :
    (List ℕ → List (ℕ × List ℕ) → ℕ → ℕ → Result (List Counted))
    → List (List ℕ)
    → ℕ
    → List (ℕ × List ℕ)
    → ℕ
    → ℕ
    → Result (List Counted)
lean_call = Lookup.lean_call

module _ (format_exc : Value (List Counted) → Value (List Counted))
    (extract : Option (Unit {0}) → Value (List Counted))
    (merge : Option (Unit {0}) → Value (List Counted) → Option (Unit {0})) (cpu_count : ℕ) where
  -- What the children send is taken to fit their pipes.
  abbrev all_fit : List (Value (List Counted)) → Bool
  all_fit sent = true

  -- The two branches on the number of parts.
  unfoldable pub counts : ℕ → List ℕ → List (ℕ × ℕ) → Result (List (List Counted))
  counts n sequence parts =
      if n == 1
      then sequential_counts n sequence parts
      else let (lean_buffer, lean_jobs) = lean_starmap [] sequence parts in
        let lean_job : ℕ × ℕ × ℕ → Result (List Counted) =
          λ (key, i, j). lean_call count_frequencies lean_buffer key reading_frames i j in
        (Map.map (λ job g. (lean_job job, g)) tt format_exc extract merge all_fit false false
          cpu_count lean_jobs 0 0)

  unfoldable pub main : ℕ → List (List ℕ) → Result (List Row)
  main = Program.main counts
