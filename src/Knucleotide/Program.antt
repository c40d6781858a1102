-- ===== src/Knucleotide/Program.antt =====
-- `display` and `main` of benchmark/sequential/knucleotide.py. The file that `fasta` wrote is an argument, the
-- output its rows; names are lists of bytes.
pub mod Parts
use snakefish.Prelude.{
  ltb, ◌==◌, if◌then◌else◌, length, Result, ◌>>=◌, map_result, ok, ℕ, zero, suc, ◌+◌, ◌*◌, ◌/◌,
  Bool, true, false, ◌&&◌, ◌||◌, List, [], ◌∷◌, ◌++◌, map,
}
use snakefish.Knucleotide.{Counted, lookup_frequency, str_to_bits, read_sequence}
use snakefish.Knucleotide.Count.Frames.{count_frequencies}

-- A written row: relative rows are `frequency * 100. / n` behind the name, the others the frequency
-- before it. `end` is what `display` writes last.
pub data Row : Type 0 where
  relative_row : List ℕ → ℕ → ℕ → Row
  plain_row : List ℕ → ℕ → Row
  end : Bool → Row

-- `<=` on bytes
abbrev pub names_leb : List ℕ → List ℕ → Bool
names_leb [] name = true
names_leb (a ∷ name) [] = false
names_leb (a ∷ name) (b ∷ name') = ltb a b || ((a == b) && names_leb name name')

abbrev pub Entry : Type 0
Entry = List ℕ × ℕ × ℕ

-- The order of `key=lambda v: (-v[1][0], v[0])`, and the stable sort by it.
abbrev pub entry_leb : Entry → Entry → Bool
entry_leb (name, frequency, _) (name', frequency', _) =
    ltb frequency' frequency || ((frequency == frequency') && names_leb name name')

abbrev pub insert_entry : Entry → List Entry → List Entry
insert_entry e [] = e ∷ []
insert_entry e (d ∷ ds) =
    let rest = insert_entry e ds in if entry_leb e d then e ∷ d ∷ ds else d ∷ rest

abbrev pub sorted_entries : List Entry → List Entry
sorted_entries [] = []
sorted_entries (e ∷ es) = insert_entry e (sorted_entries es)

unfoldable pub display : List Counted → List (List ℕ × ℕ × ℕ) → Bool → Bool → Bool → List Row
display results display_list sort relative newline =
    let lines =
      map
        (λ (name, frame, bits).
          let (frequency, n) = lookup_frequency results frame bits in (name, frequency, n))
        display_list in
    map
      (λ (name, frequency, n).
        if relative then relative_row name frequency n else plain_row name frequency)
      (if sort then sorted_entries lines else lines)
    ++ (end newline ∷ [])

-- `GTCAgtca` to 0, 1, 2, 3; other bytes stay.
abbrev pub translation : ℕ → ℕ
translation b =
    if (b == 71) || (b == 103)
    then 0
    else if (b == 84) || (b == 116)
    then 1
    else if (b == 67) || (b == 99)
    then 2
    else if (b == 65) || (b == 97)
    then 3
    else b

-- `display_list`
abbrev pub display_list : List (List ℕ) → List (List ℕ × ℕ × ℕ)
display_list names = map (λ n. (n, length n, str_to_bits translation n 0)) names

-- G, A, T and C, their pairs, and the five longer patterns.
abbrev pub mono_nucleotides : List (List ℕ)
mono_nucleotides = (71 ∷ []) ∷ (65 ∷ []) ∷ (84 ∷ []) ∷ (67 ∷ []) ∷ []

abbrev pub pairs : List (List ℕ) → List (List ℕ) → List (List ℕ)
pairs [] ms = []
pairs (n ∷ ns) ms = map (λ m. n ++ m) ms ++ pairs ns ms

abbrev pub k_nucleotides : List (List ℕ)
k_nucleotides =
    (71 ∷ 71 ∷ 84 ∷ [])
    ∷ (71 ∷ 71 ∷ 84 ∷ 65 ∷ [])
    ∷ (71 ∷ 71 ∷ 84 ∷ 65 ∷ 84 ∷ 84 ∷ [])
    ∷ (71 ∷ 71 ∷ 84 ∷ 65 ∷ 84 ∷ 84 ∷ 84 ∷ 84 ∷ 65 ∷ 65 ∷ 84 ∷ 84 ∷ [])
    ∷ (71 ∷ 71 ∷ 84 ∷ 65 ∷ 84 ∷ 84 ∷ 84 ∷ 84 ∷ 65 ∷ 65 ∷ 84 ∷ 84 ∷ 84 ∷ 65 ∷ 84 ∷ 65 ∷ 71 ∷ 84 ∷ [])
    ∷ []

abbrev pub bits_of : List (List ℕ) → List ℕ
bits_of names = map (λ n. str_to_bits translation n 0) names

abbrev pub reading_frames : List (ℕ × List ℕ)
reading_frames =
    (1, bits_of mono_nucleotides)
    ∷ (2, bits_of (pairs mono_nucleotides mono_nucleotides))
    ∷ map (λ s. (length s, str_to_bits translation s 0 ∷ [])) k_nucleotides

-- The parts `(partitions[i], partitions[i + 1])` from `i` on, with the rounds left.
unfoldable pub parts_from : ℕ → ℕ → ℕ → ℕ → List (ℕ × ℕ)
parts_from size n zero i = []
parts_from size n (suc k) i = (size * i / n, size * (i + 1) / n) ∷ parts_from size n k (i + 1)

-- How many parts there are, and their bounds.
unfoldable pub part_count : ℕ → ℕ → ℕ
part_count cpu_count size = if ltb (128 * cpu_count) size then cpu_count else 1

abbrev pub chain : List (List Counted) → List Counted
chain [] = []
chain (r ∷ rs) = r ++ chain rs

-- `main` with `cpu_count` cores; `counts` runs the jobs for the parts of a sequence.
unfoldable pub main :
    (ℕ → List ℕ → List (ℕ × ℕ) → Result (List (List Counted)))
    → ℕ
    → List (List ℕ)
    → Result (List Row)
main counts cpu_count file =
    let sequence = read_sequence file (84 ∷ 72 ∷ 82 ∷ 69 ∷ 69 ∷ []) translation in
    let n = part_count cpu_count (length sequence) in
    counts n sequence (parts_from (length sequence) n n 0) >>= λ rs.
    let results = chain rs in
    ok (
      display results (display_list mono_nucleotides) true true true
      ++ (display results (display_list (pairs mono_nucleotides mono_nucleotides)) true true true
          ++ display results (display_list k_nucleotides) false false false))

-- `starmap(count_frequencies, count_jobs)`
unfoldable pub sequential_counts : ℕ → List ℕ → List (ℕ × ℕ) → Result (List (List Counted))
sequential_counts n sequence parts =
    map_result (λ (i, j). count_frequencies sequence reading_frames i j) parts
