-- ===== src/Knucleotide.antt =====
-- benchmark/sequential/knucleotide.py, which the other three variants copy but for the call of `starmap`.
-- Bytes are numbers, a file is the list of its lines, a `defaultdict(int)` is a function.
pub mod Count
pub mod Reading
pub mod Lookup
pub mod Program
pub mod Forked
pub mod Process
pub mod Pooled
mod Tests
use snakefish.Prelude.{
  ltb, ◌==◌, if◌then◌else◌, drop, ℕ, ◌+◌, ◌*◌, Bool, true, false, ◌&&◌, ◌||◌, List, [], ◌∷◌, ◌++◌,
}

-- The bytes of `>` and of the white space that `read_sequence` deletes.
abbrev pub header_mark : ℕ
header_mark = 62

abbrev pub is_space : ℕ → Bool
is_space b = (b == 10) || (b == 13) || (b == 9) || (b == 32)

-- `text[:len(prefix)] == prefix`
abbrev pub starts_with : List ℕ → List ℕ → Bool
starts_with [] text = true
starts_with (p ∷ ps) [] = false
starts_with (p ∷ ps) (b ∷ bs) = (p == b) && starts_with ps bs

-- `line[0] == ord('>')`; no line of a file is empty.
abbrev pub is_header : List ℕ → Bool
is_header [] = false
is_header (b ∷ bs) = b == header_mark

-- The first loop: what is left of the file behind the header's line.
unfoldable pub seek : List ℕ → List (List ℕ) → List (List ℕ)
seek header [] = []
seek header (line ∷ file) =
    let rest = seek header file in
    if is_header line && starts_with header (drop 1 line) then file else rest

-- The second loop: the lines up to the next header, joined.
unfoldable pub gather : List (List ℕ) → List ℕ
gather [] = []
gather (line ∷ file) = let rest = gather file in if is_header line then [] else line ++ rest

-- `sequence.translate(translation, b'\n\r\t ')`
unfoldable pub translate : (ℕ → ℕ) → List ℕ → List ℕ
translate table [] = []
translate table (b ∷ bs) =
    let rest = translate table bs in if is_space b then rest else table b ∷ rest

unfoldable pub read_sequence : List (List ℕ) → List ℕ → (ℕ → ℕ) → List ℕ
unfolding seek gather translate
read_sequence file header translation = translate translation (gather (seek header file))

-- What `count_frequencies` returns for a frame: the frame, the number of its places, and how often each
-- pattern of bits occurs.
pub record Counted : Type 0 where
  pub frame : ℕ
  pub n : ℕ
  pub frequencies : ℕ → ℕ

-- `for _, n, frequencies in filter(…)`, with `n` and `frequency` so far.
unfoldable pub lookup_from : ℕ → ℕ → ℕ → ℕ → List Counted → ℕ × ℕ
lookup_from frame bits frequency n [] = (frequency, if ltb 0 n then n else 1)
lookup_from frame bits frequency n (r ∷ results) =
    let found = r.frame == frame in
    lookup_from frame bits (if found then frequency + r.frequencies bits else frequency)
      (if found then r.n else n) results

unfoldable pub lookup_frequency : List Counted → ℕ → ℕ → ℕ × ℕ
unfolding lookup_from
lookup_frequency results frame bits = lookup_from frame bits 0 1 results

-- `str_to_bits`, behind the translation of the text.
unfoldable pub str_to_bits : (ℕ → ℕ) → List ℕ → ℕ → ℕ
str_to_bits translation [] bits = bits
str_to_bits translation (b ∷ buffer) bits =
    str_to_bits translation buffer (bits * 4 + translation b)
