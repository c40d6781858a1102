-- ===== src/Knucleotide/Lookup.antt =====
-- `lean_args`, `lean_call` and `lookup_frequency` of benchmark/*/knucleotide.py: a job takes the sequence from a
-- global and sends back only the frequencies that will be asked for.
pub mod Jobs
use snakefish.Prelude.{
  ◌==◌, if◌then◌else◌, Bool-cases, length, get_elem?, Result, ◌>>=◌, Result-cases, out_of_range, ok,
  err, ℕ, ◌+◌, ◌≡◌, refl, sym, ap, ◌∙◌, inl, inr, Bool, true, false, ◌&&◌, ◌||◌, none, some, List,
  [], ◌∷◌, ◌++◌, map, arith,
}
use snakefish.Knucleotide.{Counted, lookup_from, lookup_frequency}

-- What `lean_args` leaves in `lean_buffer`, and the key that stands for the sequence.
unfoldable pub lean_args : List (List ℕ) → List ℕ → List (List ℕ) × ℕ
lean_args lean_buffer sequence = (lean_buffer ++ (sequence ∷ []), length lean_buffer)

-- `starmap(lean_args, count_jobs)`: the buffer behind it, and the jobs with their keys.
unfoldable pub lean_starmap :
    List (List ℕ) → List ℕ → List (ℕ × ℕ) → List (List ℕ) × List (ℕ × ℕ × ℕ)
unfolding lean_args
lean_starmap lean_buffer sequence [] = (lean_buffer, [])
lean_starmap lean_buffer sequence ((i, j) ∷ parts) =
    let (longer, key) = lean_args lean_buffer sequence in
    let (buffer, jobs) = lean_starmap longer sequence parts in (buffer, (key, i, j) ∷ jobs)

-- Is `bits` in a list, and is it listed for a frame?
abbrev pub elem : ℕ → List ℕ → Bool
elem bits [] = false
elem bits (b ∷ bs) = (bits == b) || elem bits bs

abbrev pub listed : List (ℕ × List ℕ) → ℕ → ℕ → Bool
listed [] frame bits = false
listed ((reading_frame, bits_list) ∷ rest) frame bits =
    ((reading_frame == frame) && elem bits bits_list) || listed rest frame bits

-- The dictionary that `__call__` fills, on which any other key is 0.
unfoldable pub lean_frequencies : List (ℕ × List ℕ) → Counted → Counted
lean_frequencies reading_frames r = record r {
  frequencies = λ bits. if listed reading_frames r.frame bits then r.frequencies bits else 0;
}

-- `lean_call(func)(lean_key, reading_frames, i, j)` in a process with the global `lean_buffer`.
unfoldable pub lean_call :
    (List ℕ → List (ℕ × List ℕ) → ℕ → ℕ → Result (List Counted))
    → List (List ℕ)
    → ℕ
    → List (ℕ × List ℕ)
    → ℕ
    → ℕ
    → Result (List Counted)
unfolding lean_frequencies
lean_call func lean_buffer lean_key reading_frames i j = elim (get_elem? lean_buffer lean_key) [
  | none ↦ err out_of_range
  | some sequence ↦ func sequence reading_frames i j >>= λ results.
      ok (map (lean_frequencies reading_frames) results)
]

pub get_elem?-last :
    {A : Type 0} (xs : List A) (a : A) → get_elem? (xs ++ (a ∷ [])) (length xs) ≡ some a
get_elem?-last [] a = refl
get_elem?-last (x ∷ xs) a = get_elem?-last xs a

lean_frequencies-listed :
    (reading_frames : List (ℕ × List ℕ)) (r : Counted) (bits : ℕ)
    → listed reading_frames r.frame bits ≡ true
    → (lean_frequencies reading_frames r).frequencies bits ≡ r.frequencies bits
unfolding lean_frequencies
lean_frequencies-listed reading_frames r bits l = rw l refl

module _ (frame bits frequency n : ℕ) (r : Counted) (results : List Counted) where
  lookup_from-found :
      r.frame == frame ≡ true
      → lookup_from frame bits frequency n (r ∷ results)
        ≡ lookup_from frame bits (frequency + r.frequencies bits) r.n results
  unfolding lookup_from
  lookup_from-found found = rw found refl

  lookup_from-other :
      r.frame == frame ≡ false
      → lookup_from frame bits frequency n (r ∷ results)
        ≡ lookup_from frame bits frequency n results
  unfolding lookup_from
  lookup_from-other other = rw other refl

lookup_from-lean :
    (reading_frames : List (ℕ × List ℕ)) (frame bits frequency n : ℕ) (results : List Counted)
    → listed reading_frames frame bits ≡ true
    → lookup_from frame bits frequency n (map (lean_frequencies reading_frames) results)
      ≡ lookup_from frame bits frequency n results
unfolding lookup_from lean_frequencies
lookup_from-lean reading_frames frame bits frequency n [] l = refl
lookup_from-lean reading_frames frame bits frequency n (r ∷ results) l =
    let lean = lean_frequencies reading_frames r in
    let rest = map (lean_frequencies reading_frames) results in
    elim (Bool-cases (r.frame == frame)) [
      | inl found ↦
          lookup_from-found frame bits frequency n lean rest found
          ∙ ap (λ q. lookup_from frame bits (frequency + q) r.n rest)
              (lean_frequencies-listed reading_frames r bits (at_frame found))
          ∙ lookup_from-lean reading_frames frame bits (frequency + r.frequencies bits) r.n results
              l
          ∙ sym (lookup_from-found frame bits frequency n r results found)
      | inr other ↦
          lookup_from-other frame bits frequency n lean rest other
          ∙ lookup_from-lean reading_frames frame bits frequency n results l
          ∙ sym (lookup_from-other frame bits frequency n r results other)
    ]
  where
    same : r.frame == frame ≡ true → r.frame ≡ frame
    same e = ground arith

    at_frame : r.frame == frame ≡ true → listed reading_frames r.frame bits ≡ true
    at_frame e = ap (λ t. listed reading_frames t bits) (same e) ∙ l

-- A lean job looks the sequence up that was passed for it, and what it sends back answers every lookup
-- of a pattern that the reading frames list as the full result does.
pub lookup_frequency-lean_call :
    (func : List ℕ → List (ℕ × List ℕ) → ℕ → ℕ → Result (List Counted))
    (lean_buffer : List (List ℕ)) (sequence : List ℕ) (reading_frames : List (ℕ × List ℕ))
    (i j frame bits : ℕ)
    → listed reading_frames frame bits ≡ true
    → (let (buffer, key) = lean_args lean_buffer sequence in
        (lean_call func buffer key reading_frames i j >>= λ results.
        ok (lookup_frequency results frame bits))
        ≡ (func sequence reading_frames i j >>= λ results.
            ok (lookup_frequency results frame bits)))
unfolding lean_args lean_call lookup_frequency
lookup_frequency-lean_call func lean_buffer sequence reading_frames i j frame bits l =
    rw (get_elem?-last lean_buffer sequence, lean_call)
      (elim (Result-cases (func sequence reading_frames i j)) [
        | inl (results, e) ↦ rw e (ap ok (lookup_from-lean reading_frames frame bits 0 1 results l))
        | inr (x, e) ↦ rw e refl
      ])
