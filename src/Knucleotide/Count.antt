-- ===== src/Knucleotide/Count.antt =====
-- `count_frequencies` of benchmark/sequential/knucleotide.py. A frame's frequencies stand at its
-- index among the frames, the longest first.
pub mod Frames
use snakefish.Prelude.{
  leb, ◌==◌, if◌then◌else◌, length, take, drop, ℕ, zero, suc, ◌+◌, ◌-◌, ◌*◌, ◌/◌, ◌%◌, ◌^◌, List,
  [], ◌∷◌, ◌++◌,
}
use snakefish.Knucleotide.{starts_with}

-- `freq[k] = v` and `freq[k] += v`
abbrev pub put : ℕ → ℕ → (ℕ → ℕ) → ℕ → ℕ
put k v freq b = if b == k then v else freq b

abbrev pub bump : ℕ → ℕ → (ℕ → ℕ) → ℕ → ℕ
bump k v freq = put k (freq k + v) freq

-- `sorted(_, reverse=True)`
abbrev pub insert_frame : ℕ → List ℕ → List ℕ
insert_frame f [] = f ∷ []
insert_frame f (g ∷ gs) = let rest = insert_frame f gs in if leb g f then f ∷ g ∷ gs else g ∷ rest

abbrev pub sorted : List ℕ → List ℕ
sorted [] = []
sorted (f ∷ fs) = insert_frame f (sorted fs)

-- `text.count(pattern)`: occurrences that do not overlap, from the left, by the bytes left to look at.
unfoldable pub count : List ℕ → ℕ → List ℕ → ℕ
count pattern zero text = 0
count pattern (suc k) text =
    let hit = starts_with pattern text in
    (if hit then 1 else 0) + count pattern k (drop (if hit then length pattern else 1) text)

-- `text.replace(pattern, by)`
unfoldable pub replace : List ℕ → List ℕ → ℕ → List ℕ → List ℕ
replace pattern by zero text = text
replace pattern by (suc k) text =
    let hit = starts_with pattern text in
    (if hit then by else take 1 text)
    ++ replace pattern by k (drop (if hit then length pattern else 1) text)

-- `worklist.translate(None, n)`
unfoldable pub delete : ℕ → List ℕ → List ℕ
delete n [] = []
delete n (b ∷ bs) = let rest = delete n bs in if b == n then rest else b ∷ rest

-- `while len_before > 0`: each round deletes at least the first byte, so the length is fuel enough.
unfoldable pub count_mono : ℕ → List ℕ → (ℕ → ℕ) → (ℕ → ℕ) × List ℕ
unfolding delete
count_mono zero worklist freq = (freq, [])
count_mono (suc k) [] freq = (freq, [])
count_mono (suc k) (n ∷ worklist) freq =
    let rest = delete n (n ∷ worklist) in
    let (freq', mono) = count_mono k rest (put n (length (n ∷ worklist) - length rest) freq) in
    (freq', n ∷ mono)

-- The occurrences of `a a` that `count` misses since they overlap. 49 and 50 are `1` and `2`.
unfoldable pub overlapped : ℕ → List ℕ → ℕ
unfolding count replace
overlapped a worklist =
    let triple = a ∷ a ∷ a ∷ [] in
    let once = replace (triple ++ triple) (49 ∷ 50 ∷ []) (length worklist) worklist in
    let tmp = replace triple (49 ∷ []) (length once) once in
    (length worklist - length tmp) / 2
    + count (49 ∷ a ∷ a ∷ []) (length tmp) tmp
    + count (50 ∷ a ∷ []) (length tmp) tmp

-- `for v in (n + m …)`, the pairs of one nucleotide with the others.
unfoldable pub count_pairs : List ℕ → ℕ → List ℕ → (ℕ → ℕ) → ℕ → ℕ
unfolding count
count_pairs worklist n [] freq = freq
count_pairs worklist n (m ∷ ms) freq =
    count_pairs worklist n ms (put (n * 4 + m) (count (n ∷ m ∷ []) (length worklist) worklist) freq)

-- `for v, bits, pattern in overlaps`
unfoldable pub count_overlaps : List ℕ → List ℕ → (ℕ → ℕ) → ℕ → ℕ
unfolding overlapped
count_overlaps worklist [] freq = freq
count_overlaps worklist (n ∷ ns) freq =
    count_overlaps worklist ns (bump (n * 4 + n) (overlapped n worklist) freq)

unfoldable pub count_di : List ℕ → List ℕ → List ℕ → (ℕ → ℕ) → ℕ → ℕ
unfolding count_pairs
count_di worklist mono [] freq = freq
count_di worklist mono (n ∷ ns) freq = count_di worklist mono ns (count_pairs worklist n mono freq)

-- `f[bits & m] += 1` for the frames at hand that are no longer than `seen`; a mask `4 ^ frame - 1` is a
-- remainder.
unfoldable pub count_short : ℕ → ℕ → List ℕ → List (ℕ → ℕ) → List (ℕ → ℕ)
count_short bits seen frames [] = []
count_short bits seen [] (f ∷ fs) = f ∷ fs
count_short bits seen (frame ∷ frames) (f ∷ fs) =
    (if leb frame seen then bump (bits % 4 ^ frame) 1 f else f) ∷ count_short bits seen frames fs

-- The loop over `k` where `i` is 0: the bytes before the first full frame, `seen` of them so far.
unfoldable pub warm_up : List ℕ → List ℕ → ℕ → ℕ → List (ℕ → ℕ) → ℕ × List (ℕ → ℕ)
unfolding count_short
warm_up frames [] seen bits short = (bits, short)
warm_up frames (b ∷ bs) seen bits short =
    let bits' = bits * 4 + b in
    warm_up frames bs (seen + 1) bits' (count_short bits' (seen + 1) frames short)

-- `for byte in sequence[k+1:j]`: the longest frame and the short ones, none of which is longer.
unfoldable pub slide : ℕ → List ℕ → List ℕ → ℕ → (ℕ → ℕ) → List (ℕ → ℕ) → (ℕ → ℕ) × List (ℕ → ℕ)
unfolding count_short
slide frame frames [] bits freq short = (freq, short)
slide frame frames (b ∷ bs) bits freq short =
    let bits' = (bits * 4 + b) % 4 ^ frame in
    slide frame frames bs bits' (bump bits' 1 freq) (count_short bits' frame frames short)
