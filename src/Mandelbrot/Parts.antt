-- ===== src/Mandelbrot/Parts.antt =====
-- The jobs of benchmark/snakefish/mandelbrot.py, cut into parts: together the parts are the jobs again.
use snakefish.Prelude.{
  ok, ◌/◌, ltb, leb, ◌&&◌, if◌then◌else◌, length, take, drop, take-append-drop, drop-drop, drop_all,
  ℕ, zero, suc, ◌+◌, ◌≤◌, ◌<◌, ◌≡◌, refl, sym, ap, ◌∙◌, false, List, [], ◌∷◌, ◌++◌, map, arith,
  Bool-cases, inl, inr,
}
use snakefish.Mandelbrot.{indices}
use snakefish.Mandelbrot.Loop.{ceil_div, parts}
use snakefish.Mandelbrot.Ordering.{count, IsOrder}

module _ {ℓ} {A : Type ℓ} where
  abbrev pub concat : List (List A) → List A
  concat [] = []
  concat (xs ∷ xss) = xs ++ concat xss

  parts-past : (rounds size n i : ℕ) (jobs : List A) → n ≤ i → parts rounds size n i jobs ≡ []
  unfolding parts
  parts-past zero size n i jobs h = refl
  parts-past (suc rounds) size n i jobs h = let e : ltb i n ≡ false = ground arith in rw e refl

  pub concat-parts :
      (rounds size n i : ℕ) (jobs : List A)
      → 0 < size
      → length jobs ≡ n
      → n ≤ rounds + i
      → concat (parts rounds size n i jobs) ≡ drop i jobs
  unfolding parts
  concat-parts zero size n i jobs pos all enough = sym (drop_all i jobs (omega (arith, all)))
  concat-parts (suc rounds) size n i jobs pos all enough = elim (Bool-cases (ltb i n)) [
    | inl e ↦
        rw (e, concat-parts rounds size n (i + size) jobs pos all (omega arith))
          (ap (λ t. take size (drop i jobs) ++ t) (sym (drop-drop i size (i + size) jobs refl))
            ∙ take-append-drop size (drop i jobs))
    | inr e ↦ rw e (sym (drop_all i jobs (ground (arith, all))))
  ]

  pub length-parts :
      (rounds size n i : ℕ) (jobs : List A) → length (parts rounds size n i jobs) ≤ rounds
  unfolding parts
  length-parts zero size n i jobs = omega arith
  length-parts (suc rounds) size n i jobs = elim (Bool-cases (ltb i n)) [
    | inl e ↦ rw e (omega (arith, length-parts rounds size n (i + size) jobs))
    | inr e ↦ rw e (omega arith)
  ]

module _ {ℓ κ} {A : Type ℓ} {B : Type κ} (f : A → B) where
  take-map : (n : ℕ) (xs : List A) → take n (map f xs) ≡ map f (take n xs)
  take-map zero xs = refl
  take-map (suc n) [] = refl
  take-map (suc n) (x ∷ xs) = ap (λ t. f x ∷ t) (take-map n xs)

  drop-map : (n : ℕ) (xs : List A) → drop n (map f xs) ≡ map f (drop n xs)
  drop-map zero xs = refl
  drop-map (suc n) [] = refl
  drop-map (suc n) (x ∷ xs) = drop-map n xs

  pub parts-map :
      (rounds size n i : ℕ) (jobs : List A)
      → parts rounds size n i (map f jobs) ≡ map (map f) (parts rounds size n i jobs)
  unfolding parts
  parts-map zero size n i jobs = refl
  parts-map (suc rounds) size n i jobs = elim (Bool-cases (ltb i n)) [
    | inl e ↦
        rw
          (e, drop-map i jobs, take-map size (drop i jobs), parts-map rounds size n (i + size) jobs)
          refl
    | inr e ↦ rw e refl
  ]

length-indices : (n i : ℕ) → length (indices n i) ≡ n
length-indices zero i = refl
length-indices (suc n) i = ap suc (length-indices n (i + 1))

count-indices : (n i k : ℕ) → count k (indices n i) ≡ (if leb i k && ltb k (i + n) then 1 else 0)
count-indices zero i k = ground arith
count-indices (suc n) i k = ground (arith, count-indices n (i + 1) k)

pub indices-IsOrder : (n : ℕ) → IsOrder n (indices n 0)
unfolding IsOrder
indices-IsOrder n = (length-indices n 0, λ k. ground (arith, count-indices n 0 k))

pub ceil_div-pos :
    (n cpu_count : ℕ)
    → 0 < n
    → 0 < cpu_count
    → (size : ℕ) × ((ceil_div n cpu_count ≡ ok size) × (0 < size))
unfolding ceil_div
ceil_div-pos n zero some_row some_core = absurd (omega arith)
ceil_div-pos n (suc cpus) some_row some_core = ((n + cpus) / suc cpus, (refl, grind arith))

pub ceil_div-zero : (cpu_count : ℕ) → 0 < cpu_count → ceil_div 0 cpu_count ≡ ok 0
unfolding ceil_div
ceil_div-zero zero some_core = absurd (omega arith)
ceil_div-zero (suc cpus) some_core = ap ok (grind arith)
