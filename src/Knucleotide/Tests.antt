-- ===== src/Knucleotide/Tests.antt =====
-- benchmark/*/knucleotide.py on small files and sequences.
use snakefish.Prelude.{ok, err, ℕ, ◌≡◌, refl, List, [], ◌∷◌}
use snakefish.Knucleotide.{lookup_frequency, read_sequence}
use snakefish.Knucleotide.Count
use snakefish.Knucleotide.Count.{overlapped}
use snakefish.Knucleotide.Count.Frames.{count_frequencies}
use snakefish.Knucleotide.Program.{translation}

-- Three frames on the sequence 0 0 0 1: three places for the pair, two for the triple.
abbrev looked_up : List ℕ
looked_up = elim (count_frequencies (0 ∷ 0 ∷ 0 ∷ 1 ∷ []) ((1, []) ∷ (2, []) ∷ (3, []) ∷ []) 0 4) [
  | err e ↦ []
  | ok results ↦
      (lookup_frequency results 1 0).0
      ∷ (lookup_frequency results 2 0).0
      ∷ (lookup_frequency results 2 1).0
      ∷ (lookup_frequency results 2 1).1
      ∷ []
]

abbrev file : List (List ℕ)
file =
    (62 ∷ 65 ∷ 10 ∷ [])
    ∷ (71 ∷ 10 ∷ [])
    ∷ (62 ∷ 84 ∷ 10 ∷ [])
    ∷ (71 ∷ 84 ∷ 10 ∷ [])
    ∷ (97 ∷ 10 ∷ [])
    ∷ (62 ∷ 66 ∷ 10 ∷ [])
    ∷ []

read_run : read_sequence file (84 ∷ []) translation ≡ 0 ∷ 1 ∷ 3 ∷ []
unfolding read_sequence
read_run = refl

counted_run : looked_up ≡ 3 ∷ 2 ∷ 1 ∷ 3 ∷ []
unfolding count_frequencies lookup_frequency overlapped Count.count_di Count.count_pairs Count.count
    Count.slide Count.count_mono
counted_run = refl
