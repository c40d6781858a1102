-- ===== src/Knucleotide/Reading.antt =====
-- `read_sequence` of benchmark/*/knucleotide.py on a file that has the header.
use snakefish.Prelude.{drop, ℕ, ◌≡◌, refl, ap, true, false, ◌&&◌, List, [], ◌∷◌, ◌++◌}
use snakefish.Knucleotide.{starts_with, is_header, seek, gather, translate, read_sequence}

-- No line of a list is a header, or one that starts with the words looked for.
abbrev pub IsBody : List (List ℕ) → Type 0
IsBody [] = Unit
IsBody (line ∷ file) = (is_header line ≡ false) × IsBody file

abbrev pub IsBefore : List ℕ → List (List ℕ) → Type 0
IsBefore header [] = Unit
IsBefore header (line ∷ file) =
    (is_header line && starts_with header (drop 1 line) ≡ false) × IsBefore header file

abbrev pub joined : List (List ℕ) → List ℕ
joined [] = []
joined (line ∷ file) = line ++ joined file

seek-found :
    (header : List ℕ) (first : List (List ℕ)) (line : List ℕ) (file : List (List ℕ))
    → IsBefore header first
    → is_header line && starts_with header (drop 1 line) ≡ true
    → seek header (first ++ (line ∷ file)) ≡ file
unfolding seek
seek-found header [] line file before found = rw found refl
seek-found header (other ∷ first) line file (not_this, before) found =
    rw not_this (seek-found header first line file before found)

gather-body :
    (body : List (List ℕ)) (next : List ℕ) (file : List (List ℕ))
    → IsBody body
    → is_header next ≡ true
    → gather (body ++ (next ∷ file)) ≡ joined body
unfolding gather
gather-body [] next file is_body ends = rw ends refl
gather-body (line ∷ body) next file (plain, is_body) ends =
    rw plain (ap (λ t. line ++ t) (gather-body body next file is_body ends))

-- The lines between the first header that starts with the words looked for and the next header are
-- read, whatever stands before and behind: joined, without white space, each byte translated.
pub read_sequence-between :
    (first body file : List (List ℕ)) (line next header : List ℕ) (table : ℕ → ℕ)
    → IsBefore header first
    → is_header line && starts_with header (drop 1 line) ≡ true
    → IsBody body
    → is_header next ≡ true
    → read_sequence (first ++ (line ∷ (body ++ (next ∷ file)))) header table
      ≡ translate table (joined body)
unfolding read_sequence
read_sequence-between first body file line next header table before found is_body ends =
    rw
      (
        seek-found header first line (body ++ (next ∷ file)) before found,
        gather-body body next file is_body ends,
      )
      refl
