-- ===== src/Knucleotide/Lookup/Jobs.antt =====
-- The lean jobs of benchmark/*/knucleotide.py together: each finds the sequence under its key.
use snakefish.Prelude.{
  length, get_elem?, replicate, Result, ◌>>=◌, map_result, ok, ℕ, zero, suc, ◌≡◌, refl, sym, ap,
  ◌∙◌, some, List, [], ◌∷◌, ◌++◌, map, append-nil, append_assoc, arith,
}
use snakefish.Knucleotide.{Counted}
use snakefish.Knucleotide.Lookup.{
  lean_args, lean_starmap, lean_call, lean_frequencies, get_elem?-last,
}

-- A job with its key, and what it is for a part of the sequence.
module _ (func : List ℕ → List (ℕ × List ℕ) → ℕ → ℕ → Result (List Counted))
    (reading_frames : List (ℕ × List ℕ)) (sequence : List ℕ) where
  abbrev pub run_lean : List (List ℕ) → ℕ × ℕ × ℕ → Result (List Counted)
  run_lean buffer (key, i, j) = lean_call func buffer key reading_frames i j

  abbrev pub run_part : ℕ × ℕ → Result (List Counted)
  run_part (i, j) = func sequence reading_frames i j >>= λ results.
      ok (map (lean_frequencies reading_frames) results)

  lean_starmap-buffer :
      (buffer : List (List ℕ)) (parts : List (ℕ × ℕ))
      → (lean_starmap buffer sequence parts).0 ≡ buffer ++ replicate (length parts) sequence
  unfolding lean_starmap lean_args
  lean_starmap-buffer buffer [] = sym (append-nil buffer)
  lean_starmap-buffer buffer ((i, j) ∷ parts) =
      lean_starmap-buffer (buffer ++ (sequence ∷ [])) parts
      ∙ append_assoc buffer (sequence ∷ []) (replicate (length parts) sequence)

  get_elem?-append :
      (xs ys : List (List ℕ)) (i : ℕ) (a : List ℕ)
      → get_elem? xs i ≡ some a
      → get_elem? (xs ++ ys) i ≡ some a
  get_elem?-append [] ys i a h = ground arith
  get_elem?-append (x ∷ xs) ys zero a h = h
  get_elem?-append (x ∷ xs) ys (suc i) a h = get_elem?-append xs ys i a h

  jobs_in_buffer :
      (buffer : List (List ℕ)) (parts : List (ℕ × ℕ)) (more : List (List ℕ))
      → map_result
          (run_lean ((lean_starmap buffer sequence parts).0 ++ more))
          (lean_starmap buffer sequence parts).1
        ≡ map_result run_part parts
  unfolding lean_starmap lean_args lean_call
  jobs_in_buffer buffer [] more = refl
  jobs_in_buffer buffer ((i, j) ∷ parts) more =
      rw
        (
          jobs_in_buffer (buffer ++ (sequence ∷ [])) parts more,
          lean_starmap-buffer (buffer ++ (sequence ∷ [])) parts,
          get_elem?-append ((buffer ++ (sequence ∷ [])) ++ replicate (length parts) sequence) more
              (length buffer) sequence
              (get_elem?-append (buffer ++ (sequence ∷ [])) (replicate (length parts) sequence)
                (length buffer) sequence (get_elem?-last buffer sequence)),
          lean_call,
        )
        refl

  -- The lean jobs, run in the process or in forked ones that have the buffer that `lean_args` filled, give for
  -- every part of the sequence the full result without the frequencies that are not listed.
  pub lean_starmap-parts :
      (parts : List (ℕ × ℕ))
      → (let (buffer, jobs) = lean_starmap [] sequence parts in
          map_result (run_lean buffer) jobs ≡ map_result run_part parts)
  lean_starmap-parts parts =
      ap (λ t. map_result (run_lean t) (lean_starmap [] sequence parts).1) (sym (append-nil _))
      ∙ jobs_in_buffer [] parts []
