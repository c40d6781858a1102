-- ===== src/Knucleotide/Count/Frames.antt =====
-- `count_frequencies` of benchmark/sequential/knucleotide.py as a whole, on one part of the sequence.
use snakefish.Prelude.{
  ltb, leb, ◌==◌, if◌then◌else◌, length, get_elem?, take, drop, replicate, Result, ◌>>=◌,
  out_of_range, user, ok, err, ℕ, zero, suc, ◌+◌, ◌-◌, min, ◌&&◌, none, some, List, [], ◌∷◌, ◌++◌,
  map,
}
use mathlib.Core.List.{reverse}
use snakefish.Knucleotide.{Counted}
use snakefish.Knucleotide.Count.{sorted, count_mono, count_di, count_overlaps, warm_up, slide}

-- `sequence[i:j]`
abbrev pub slice : List ℕ → ℕ → ℕ → List ℕ
slice sequence i j = take (j - i) (drop i sequence)

-- `sequence[k]` for `k` from `i - back` on, with the rounds left. Below 0 Python counts from the end.
unfoldable pub before : List ℕ → ℕ → ℕ → Result (List ℕ)
before sequence i zero = ok []
before sequence i (suc back) =
    let k = if leb (suc back) i then i - suc back else length sequence - (suc back - i) in
    let rest = before sequence i back in
    if ltb (length sequence + i) (suc back) then err out_of_range else elim (get_elem? sequence k) [
      | none ↦ err out_of_range
      | some b ↦ rest >>= λ bs. ok (b ∷ bs)
    ]

-- The frequencies that `mono_nucleotides` and the pairs get, where the frames 1 and 2 are the last, and
-- how many frames that deals with.
unfoldable pub count_small : List ℕ → ℕ → ℕ → List ℕ → ℕ × List (ℕ → ℕ)
unfolding count_mono count_di count_overlaps
count_small sequence i j [] = (0, [])
count_small sequence i j (f ∷ backwards) =
    let worklist = slice sequence i j in
    let (freq, mono) = count_mono (length worklist) worklist (λ b. 0) in
    let longer = slice sequence i (min (j + 1) (length sequence)) in
    let di = count_overlaps longer mono (count_di longer mono mono (λ b. 0)) in
    if f == 1
    then elim backwards [
      | [] ↦ (1, freq ∷ [])
      | g ∷ _ ↦ if (g == 2) && ltb 0 (length mono) then (2, di ∷ freq ∷ []) else (1, freq ∷ [])
    ]
    else (0, [])

-- `frequences_mask_list[:tail + 1]` after the loops over the sequence. They run if there is a frame
-- between the longest and those that `count_small` dealt with. With a longest frame of 1 `k` has no
-- value, which Python refuses.
unfoldable pub count_large : List ℕ → ℕ → ℕ → ℕ → List ℕ → Result ((ℕ → ℕ) × List (ℕ → ℕ))
unfolding warm_up slide before
count_large sequence i j frame [] = ok ((λ b. 0), [])
count_large sequence i j frame (g ∷ frames) =
    let short = replicate (length (g ∷ frames)) (λ b. 0) in
    let first = take (frame - 1) sequence in
    let (bits, short') = warm_up (g ∷ frames) first 0 0 short in
    if ltb frame 2
    then err (user 0)
    else if i == 0
    then (if ltb (length sequence) (frame - 1)
        then err out_of_range
        else ok (slide frame (g ∷ frames) (slice sequence (frame - 1) j) bits (λ b. 0) short'))
    else (before sequence i (frame - 1) >>= λ bytes.
        let (bits', _) = warm_up [] bytes 0 0 [] in
        ok (slide frame (g ∷ frames) (slice sequence i j) bits' (λ b. 0) short))

-- The list that is returned. Where the sequence is shorter than a frame the number of places is 0 here,
-- and less than 1 in Python; `lookup_frequency` takes 1 for both.
abbrev pub counted : ℕ → List ℕ → List (ℕ → ℕ) → List Counted
counted size [] freqs = []
counted size (f ∷ frames) [] = []
counted size (f ∷ frames) (freq ∷ freqs) =
    record { frame = f; n = size + 1 - f; frequencies = freq } ∷ counted size frames freqs

-- `reading_frames` are frames with the patterns asked for. The frequencies are those of the longest
-- frame, of the frames between, and of the small ones.
unfoldable pub count_frequencies : List ℕ → List (ℕ × List ℕ) → ℕ → ℕ → Result (List Counted)
unfolding count_small count_large
count_frequencies sequence reading_frames i j =
    let frames = sorted (map (λ r. r.0) reading_frames) in
    elim frames [
      | [] ↦ err out_of_range
      | frame ∷ rest ↦
          let (dealt, small) = count_small sequence i j (reverse (frame ∷ rest)) in
          let between = take (length rest - dealt) rest in
          count_large sequence i j frame between >>= λ (longest, short). ok (
            counted (length sequence) (frame ∷ rest)
              (if leb (length (frame ∷ rest)) dealt then small else longest ∷ (short ++ small)))
    ]
