-- ===== src/Knucleotide/Program/Parts.antt =====
-- The parts of the sequence that the jobs of benchmark/*/knucleotide.py count.
use snakefish.Prelude.{
  length, drop, take-append-drop, drop_all, drop-drop, ℕ, zero, suc, ◌+◌, ◌-◌, ◌*◌, ◌/◌, ◌≤◌, ◌<◌,
  ◌≡◌, sym, ap, ◌∙◌, List, [], ◌∷◌, ◌++◌, arith,
}
use snakefish.Knucleotide.Count.Frames.{slice}
use snakefish.Knucleotide.Program.{parts_from, part_count}

abbrev pub slices : List ℕ → List (ℕ × ℕ) → List ℕ
slices sequence [] = []
slices sequence ((i, j) ∷ parts) = slice sequence i j ++ slices sequence parts

bounds_grow : (size n i : ℕ) → size * i / n ≤ size * (i + 1) / n
bounds_grow size n i = grind arith

last_bound : (size n : ℕ) → 0 < n → size * n / n ≡ size
last_bound size n h = grind arith

slice-drop :
    (sequence : List ℕ) (a b : ℕ) → a ≤ b → slice sequence a b ++ drop b sequence ≡ drop a sequence
slice-drop sequence a b h =
    ap (λ t. slice sequence a b ++ t) (sym (drop-drop a (b - a) b sequence (omega arith)))
    ∙ take-append-drop (b - a) (drop a sequence)

parts_from-drop :
    (sequence : List ℕ) (n k i : ℕ)
    → 0 < n
    → i + k ≡ n
    → slices sequence (parts_from (length sequence) n k i) ≡ drop (length sequence * i / n) sequence
unfolding parts_from
parts_from-drop sequence n zero i h e = sym (
    drop_all (length sequence * i / n) sequence
      (omega (arith, same ∙ last_bound (length sequence) n h)))
  where
    same : length sequence * i / n ≡ length sequence * n / n
    same = ap (λ t. length sequence * t / n) (omega arith)
parts_from-drop sequence n (suc k) i h e =
    ap (λ t. slice sequence (length sequence * i / n) (length sequence * (i + 1) / n) ++ t)
      (parts_from-drop sequence n k (i + 1) h (omega arith))
    ∙ slice-drop sequence (length sequence * i / n) (length sequence * (i + 1) / n)
        (bounds_grow (length sequence) n i)

-- On any number of cores but none the parts that are counted make up the sequence: no byte is left out
-- and none is in two parts.
pub slices-parts_from :
    (cpu_count : ℕ) (sequence : List ℕ)
    → 0 < cpu_count
    → (let n = part_count cpu_count (length sequence) in
        slices sequence (parts_from (length sequence) n n 0) ≡ sequence)
unfolding part_count
slices-parts_from cpu_count sequence h =
    parts_from-drop sequence n n 0 some_part (omega arith) ∙ ap (λ t. drop t sequence) start
  where
    n : ℕ
    n = part_count cpu_count (length sequence)

    some_part : 0 < n
    some_part = ground arith

    start : length sequence * 0 / n ≡ 0
    start = grind arith
