-- ===== src/Wrappers/Map/Correct.antt =====
-- `wrappers.map` computes the plain map, whatever the concurrency and the chunk size.
use snakefish.Prelude.{
  ◌==◌, if◌then◌else◌, Bool-cases, List-cases, length, length-take, length-drop, take, drop,
  take_all, take-nil, drop-drop, take_add, eq_nil_of_take, Result, ◌>>=◌, map_result, extend,
  Result-cases, extend-nil, extend-extend, map_result-append, ok, ℕ, zero, suc, ◌+◌, ◌*◌, ◌/◌, ◌^◌,
  ◌≤◌, ◌<◌, ◌≡◌, refl, sym, ap, ◌∙◌, inl, inr, Bool, true, Option, List, [], ◌∷◌, ◌++◌, append-nil,
  arith,
}
use snakefish.Job.{Value, run_all, run_all-eq-map_result}
use snakefish.Wrappers.Map
use native.Mathlib.Nat.{zero-mul}
use mathlib.Core.Path.{fun_ext, ap₂}
use snakefish.Wrappers.Map.{ceil_div, Job, run_job, spawn, collect, batches}

quotient_covers : (a b : ℕ) → a ≤ (a + b) / suc b * suc b
quotient_covers a b = grind arith

quotient_close : (a b : ℕ) → (a + b) / suc b * suc b < a + suc b
quotient_close a b = grind arith

-- `math.ceil(a / b)` rounds up.
pub ceil_div_lem :
    (a b : ℕ)
    → 0 < b
    → a < 2 ^ 53
    → b < 2 ^ 1022
    → (q : ℕ) × (ceil_div a b ≡ ok q) × (a ≤ q * b) × (q * b < a + b)
unfolding ceil_div
ceil_div_lem a zero h ha hb = absurd (omega arith)
ceil_div_lem a (suc b) h ha hb =
    ((a + b) / suc b, ground arith, quotient_covers a b, quotient_close a b)

module _ {G A B : Type 0} (f : A → G → Result B × G) (g : G) (format_exc : Value B → Value B)
    (extract : Option G → Value B) (merge : Option G → Value B → Option G)
    (fits : List (Value B) → Bool) (h : A → Result B)
    (f_pure : (a : A) (g' : G) → (f a g').0 ≡ h a) where
  -- What a job for these arguments sends fits its pipe.
  abbrev pub Fits : Bool → Bool → List A → Type 0
  Fits he hm chunk = fits (run_job f g format_exc extract merge he hm chunk).pipe ≡ true

  -- Collecting a job appends what its comprehension computes, or raises its exception.
  collect-run_job :
      (he hm : Bool) (chunk : List A) (ts : List (Job f g format_exc extract merge)) (acc : List B)
      → Fits he hm chunk
      → collect f g format_exc extract merge fits
          (run_job f g format_exc extract merge he hm chunk ∷ ts)
          acc
        ≡ (extend acc (map_result h chunk) >>= λ acc'.
            collect f g format_exc extract merge fits ts acc')
  unfolding collect run_job
  collect-run_job he hm chunk ts acc fit =
      rw (fit, ← run_all-eq-map_result f h f_pure chunk g)
        (elim (Result-cases (run_all f chunk g).0) [
          | inl (bs, e) ↦ ground arith
          | inr (x, e) ↦ ground arith
        ])

  collect-nil : (acc : List B) → collect f g format_exc extract merge fits [] acc ≡ ok acc
  unfolding collect
  collect-nil acc = refl

  module _ (he hm : Bool) (args : List A) (c k : ℕ) (k_pos : 0 < k)
      (fit : (chunk : List A) → length chunk ≤ length args → Fits he hm chunk) where
    chunk_small :
        (i : ℕ) (x : A) (xs : List A)
        → take k (drop i args) ≡ x ∷ xs
        → length (x ∷ xs) ≤ length args
    chunk_small i x xs e =
        omega (arith, ap length e, length-take k (drop i args), length-drop i args)

    -- What is collected of a batch from its `j`-th job on is the map of the arguments that it covers.
    collect-spawn :
        (n i j m : ℕ) (acc : List B)
        → m ≡ n * k
        → collect f g format_exc extract merge fits
            (spawn f g format_exc extract merge he hm args c k n i j)
            acc
          ≡ extend acc (map_result h (take m (drop ((i * c + j) * k) args)))
    unfolding spawn
    collect-spawn zero i j m acc e = rw (e, zero-mul, collect-nil, append-nil)
    collect-spawn (suc n) i j m acc e = elim (List-cases (take k (drop ((i * c + j) * k) args))) [
      | inl none_left ↦
          rw (none_left, spawn)
            (rw (eq_nil_of_take k _ k_pos none_left, take-nil, append-nil, collect-nil))
      | inr (x, xs, some_left) ↦
          rw (some_left, spawn)
            (collect-run_job he hm (x ∷ xs)
                (spawn f g format_exc extract merge he hm args c k n i (j + 1)) acc
                (fit (x ∷ xs) (chunk_small ((i * c + j) * k) x xs some_left))
              ∙ ap (λ t. extend acc (map_result h (x ∷ xs)) >>= t)
                  (fun_ext λ acc'. collect-spawn n i (j + 1) (n * k) acc' refl)
              ∙ extend-extend acc (map_result h (x ∷ xs)) _
              ∙ ap (extend acc) (sym (map_result-append h (x ∷ xs) _))
              ∙ ap (λ t. extend acc (map_result h t))
                  (sym (
                    take_add k (n * k) m (drop ((i * c + j) * k) args) (omega arith)
                    ∙ ap₂ (λ (a b : List A). a ++ take (n * k) b) some_left
                        (drop-drop ((i * c + j) * k) k ((i * c + (j + 1)) * k) args
                          (omega arith)))))
    ]

    -- So do the batches from the `i`-th on.
    batches-eq-map_result :
        (n i m : ℕ) (acc : List B)
        → m ≡ n * (c * k)
        → batches f g format_exc extract merge fits he hm args c k n i acc
          ≡ extend acc (map_result h (take m (drop (i * (c * k)) args)))
    unfolding batches
    batches-eq-map_result zero i m acc e = rw (e, zero-mul, append-nil)
    batches-eq-map_result (suc n) i m acc e =
        ap
          (λ t.
            t >>= λ acc'. batches f g format_exc extract merge fits he hm args c k n (i + 1) acc')
          (collect-spawn c i 0 (c * k) acc refl)
        ∙ ap (λ t. extend acc (map_result h (take (c * k) (drop ((i * c + 0) * k) args))) >>= t)
            (fun_ext λ acc'. batches-eq-map_result n (i + 1) (n * (c * k)) acc' refl)
        ∙ extend-extend acc _ _
        ∙ ap (extend acc) (sym (map_result-append h _ _))
        ∙ ap (λ t. extend acc (map_result h t))
            (sym (
              take_add (c * k) (n * (c * k)) m (drop (i * (c * k)) args) (omega arith)
              ∙ ap₂ ◌++◌ (ap (λ t. take (c * k) (drop t args)) (omega arith)) (
                  ap (take (n * (c * k)))
                    (drop-drop (i * (c * k)) (c * k) ((i + 1) * (c * k)) args (omega arith)))))

    all_batches :
        0 < c
        → length args < 2 ^ 53
        → c * k < 2 ^ 1022
        → (ceil_div (length args) (c * k) >>= λ n_batch.
            batches f g format_exc extract merge fits he hm args c k n_batch 0 [])
          ≡ map_result h args
    all_batches c_pos few below =
        let some_chunk : 0 < c * k = grind arith in
        let (q, e, covers, _) = ceil_div_lem (length args) (c * k) some_chunk few below in
        rw e (
          batches-eq-map_result q 0 (q * (c * k)) [] refl
          ∙ extend-nil _
          ∙ ap (map_result h) (
              ap (λ t. take (q * (c * k)) (drop t args)) (zero-mul (c * k))
              ∙ take_all _ args covers))

  -- `wrappers.map` on a function whose result hangs only on its argument is the sequential map: the
  -- same results in the same order, or the exception of the first argument that raises. There are fewer
  -- than 2^53 arguments, and one at least with the default chunk size; the concurrency is below 2^1000, and
  -- its product with the chunk size below 2^1022; and what a child sends for as many arguments as there
  -- are, or fewer, fits its pipe.
  pub process_map-eq-map_result :
      (he hm : Bool) (cpu_count : ℕ) (args : List A) (concurrency chunksize : ℕ)
      → 0 < cpu_count
      → 0 < length args + chunksize
      → length args < 2 ^ 53
      → (let c = if concurrency == 0 then cpu_count else concurrency in
          (c < 2 ^ 1000) × (c * chunksize < 2 ^ 1022))
      → ((chunk : List A) → length chunk ≤ length args → Fits he hm chunk)
      → Map.map f g format_exc extract merge fits he hm cpu_count args concurrency chunksize
        ≡ map_result h args
  unfolding Map.map
  process_map-eq-map_result he hm cpu_count args concurrency chunksize hc hk few (level, product)
        fit =
      elim (Bool-cases (chunksize == 0)) [
        | inl default_size ↦
            let (k, e, covers, close) = ceil_div_lem (length args) c c_pos few (omega arith) in
            rw (default_size, e)
              (all_batches he hm args c k (ground arith) fit c_pos few (omega arith))
        | inr given ↦
            rw given (all_batches he hm args c chunksize (ground arith) fit c_pos few (omega arith))
      ]
    where
      c : ℕ
      c = if concurrency == 0 then cpu_count else concurrency

      c_pos : 0 < c
      c_pos = ground arith
