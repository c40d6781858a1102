-- ===== src/Knucleotide/Forked.antt =====
-- benchmark/snakefish/knucleotide.py: the program on `snakefish.starmap`, with the sequence in a global.
-- What it has in common with the sequential one is a copy there.
use snakefish.Prelude.{◌==◌, if◌then◌else◌, Exc, Result, ◌>>=◌, ok, ℕ, Bool, false, List, []}
use snakefish.Job.{Value}
use snakefish.Misc
use snakefish.Knucleotide
use snakefish.Knucleotide.{Counted}
use snakefish.Knucleotide.Count.Frames
use snakefish.Knucleotide.Lookup
use snakefish.Knucleotide.Lookup.{lean_starmap}
use snakefish.Knucleotide.Program
use snakefish.Knucleotide.Program.{Row, reading_frames, sequential_counts}

abbrev count_frequencies : List ℕ → List (ℕ × List ℕ) → ℕ → ℕ → Result (List Counted)
count_frequencies = Frames.count_frequencies

abbrev read_sequence : List (List ℕ) → List ℕ → (ℕ → ℕ) → List ℕ
read_sequence = Knucleotide.read_sequence

abbrev lookup_frequency : List Counted → ℕ → ℕ → ℕ × ℕ
lookup_frequency = Knucleotide.lookup_frequency

abbrev display : List Counted → List (List ℕ × ℕ × ℕ) → Bool → Bool → Bool → List Row
display = Program.display

abbrev lean_args : List (List ℕ) → List ℕ → List (List ℕ) × ℕ
lean_args = Lookup.lean_args

abbrev lean_call :
    (List ℕ → List (ℕ × List ℕ) → ℕ → ℕ → Result (List Counted))
    → List (List ℕ)
    → ℕ
    → List (ℕ × List ℕ)
    → ℕ
    → ℕ
    → Result (List Counted)
lean_call = Lookup.lean_call

module _ (type_of traceback_of : Exc → Value (List Counted))
    (join_lines : Value (List Counted) → Value (List Counted))
    (extract : Unit {0} → Value (List Counted)) (merge : Unit {0} → Value (List Counted) → Unit {0})
    (pid : ℕ) (exc_received : Bool) (hardware : ℕ) where
  -- The two branches on the number of parts.
  unfoldable pub counts : ℕ → List ℕ → List (ℕ × ℕ) → Result (List (List Counted))
  counts n sequence parts =
      if n == 1
      then sequential_counts n sequence parts
      else let (lean_buffer, lean_jobs) = lean_starmap [] sequence parts in
        let lean_job : ℕ × ℕ × ℕ → Result (List Counted) =
          λ (key, i, j). lean_call count_frequencies lean_buffer key reading_frames i j in
        (Misc.map (λ job g. (lean_job job, g)) type_of traceback_of join_lines extract merge false
            pid exc_received hardware lean_jobs 0 0 tt
          >>= λ (results, g). ok results)

  unfoldable pub main : ℕ → List (List ℕ) → Result (List Row)
  main = Program.main counts
