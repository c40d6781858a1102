-- ===== src/Mandelbrot/Ordering.antt =====
-- `ordered_rows` of benchmark/*/mandelbrot.py: rows in any order come out in theirs.
use snakefish.Prelude.{
  ltb, leb, ◌==◌, if◌then◌else◌, ==_self, length, get_elem?, set, replicate, length-set,
  length-replicate, Result, ◌>>=◌, err, out_of_range, ok, ℕ, zero, suc, ◌+◌, ◌-◌, ◌*◌, ◌≤◌, ◌<◌,
  ◌≡◌, ◌≢◌, refl, sym, ap, ◌∙◌, true, false, Option, none, some, List, [], ◌∷◌, map, arith,
  Bool-cases, inl, inr,
}
use snakefish.Mandelbrot.{Row, ordered_from, ordered_rows, indices}

-- How often `k` stands in a list.
abbrev pub count : ℕ → List ℕ → ℕ
count k [] = 0
count k (y ∷ ys) = (if k == y then 1 else 0) + count k ys

-- Each of the numbers below `n` once, and nothing else.
unfoldable pub IsOrder : ℕ → List ℕ → Type 0
IsOrder n ys = (length ys ≡ n) × ((k : ℕ) → count k ys ≡ (if ltb k n then 1 else 0))

get_elem?-set {ℓ} :
    {A : Type ℓ} (xs : List A) (i : ℕ) (v : A) → i < length xs → get_elem? (set xs i v) i ≡ some v
get_elem?-set [] i v h = absurd (omega arith)
get_elem?-set (x ∷ xs) zero v h = refl
get_elem?-set (x ∷ xs) (suc i) v h = get_elem?-set xs i v (omega arith)

get_elem?-set_ne {ℓ} :
    {A : Type ℓ} (xs : List A) (i k : ℕ) (v : A) → k ≢ i → get_elem? (set xs i v) k ≡ get_elem? xs k
get_elem?-set_ne [] i k v h = refl
get_elem?-set_ne (x ∷ xs) zero zero v h = absurd (h refl)
get_elem?-set_ne (x ∷ xs) zero (suc k) v h = refl
get_elem?-set_ne (x ∷ xs) (suc i) zero v h = refl
get_elem?-set_ne (x ∷ xs) (suc i) (suc k) v h = get_elem?-set_ne xs i k v (λ e. h (ap suc e))

get_elem?-replicate {ℓ} :
    {A : Type ℓ} (n k : ℕ) (v : A) → k < n → get_elem? (replicate n v) k ≡ some v
get_elem?-replicate zero k v h = absurd (omega arith)
get_elem?-replicate (suc n) zero v h = refl
get_elem?-replicate (suc n) (suc k) v h = get_elem?-replicate n k v (omega arith)

-- What stands at `k` when `ys` are still to come.
abbrev early : (ℕ → Row) → ℕ → List ℕ → Option Row
early make k ys = if count k ys == 0 then some (make k) else none

-- The table between two rounds: from `i` on it holds the rows that are not to come.
record Table (make : ℕ → Row) (n i : ℕ) (order : List (Option Row)) (ys : List ℕ) : Type 0 where
  size : length order ≡ n
  bounded : i ≤ n
  once : (k : ℕ) → count k ys ≤ (if ltb k n then 1 else 0)
  holds : (k : ℕ) → i ≤ k → k < n → get_elem? order k ≡ some (early make k ys)

module _ (bytes : ℕ → List ℕ) (n : ℕ) where
  -- The row of a number.
  abbrev pub make : ℕ → Row
  make y = (y, bytes y)

  early-cons : (k y : ℕ) (ys : List ℕ) → k == y ≡ false → early make k (y ∷ ys) ≡ early make k ys
  early-cons k y ys ne = ap (λ c. if c == 0 then some (make k) else none) (ground (arith, ne))

  early-gone : (k : ℕ) (ys : List ℕ) → count k ys ≡ 0 → early make k ys ≡ some (make k)
  early-gone k ys e = rw e refl

  Table-put :
      (i y : ℕ) (order : List (Option Row)) (ys : List ℕ)
      → Table make n i order (y ∷ ys)
      → (y < n) × Table make n i (set order y (some (make y))) ys
  Table-put i y order ys t =
      let below : y < n = ground (arith, t.once y, ==_self y) in
      let gone : count y ys ≡ 0 = ground (arith, t.once y, ==_self y) in
      (
        below,
        record {
          size = length-set order y (some (make y)) ∙ t.size;
          bounded = t.bounded;
          once = λ k. omega (arith, t.once k);
          holds = λ k i_le k_lt. elim (Bool-cases (k == y)) [
            | inl e ↦
                let k_eq : k ≡ y = ground arith in
                rw k_eq (
                  get_elem?-set order y (some (make y)) (omega (arith, t.size))
                  ∙ ap some (sym (early-gone y ys gone)))
            | inr e ↦
                get_elem?-set_ne order y k (some (make y)) (λ k_eq. ground arith)
                ∙ t.holds k i_le k_lt
                ∙ ap some (early-cons k y ys e)
          ];
        },
      )

  Table-yield :
      (i : ℕ) (order : List (Option Row)) (ys : List ℕ)
      → i < n
      → Table make n i order ys
      → Table make n (i + 1) (set order i none) ys
  Table-yield i order ys i_lt t = record {
    size = length-set order i none ∙ t.size;
    bounded = omega arith;
    once = t.once;
    holds = λ k i_le k_lt.
        get_elem?-set_ne order i k none (λ k_eq. omega arith) ∙ t.holds k (omega arith) k_lt;
  }

  indices_suc : (i : ℕ) → i < n → indices (n - i) i ≡ i ∷ indices (n - (i + 1)) (i + 1)
  indices_suc i h = let e : n - i ≡ suc (n - (i + 1)) = omega arith in rw e refl

  indices-none : (i : ℕ) → n ≤ i → indices (n - i) i ≡ []
  indices-none i h = let e : n - i ≡ 0 = omega arith in rw e refl

  leb-true : (a b : ℕ) → a ≤ b → leb a b ≡ true
  leb-true a b h = ground arith

  ltb-true : (a b : ℕ) → a < b → ltb a b ≡ true
  ltb-true a b h = ground arith

  -- The second half of a round.
  abbrev pick : ℕ → ℕ → List (Option Row) → List ℕ → Option (Option Row) → Result (List Row)
  pick rounds i order ys none = err out_of_range
  pick rounds i order ys (some none) = ordered_from rounds order i (length ys) (map make ys)
  pick rounds i order ys (some (some row)) =
      ordered_from rounds (set order i none) (i + 1) (length ys) (map make ys) >>= λ more.
      ok (row ∷ more)

  Orders : ℕ → ℕ → List (Option Row) → List ℕ → Type 0
  Orders rounds i order ys =
      Table make n i order ys
      → (n - i) + length ys < rounds
      → ordered_from rounds order i (length ys) (map make ys) ≡ ok (map make (indices (n - i) i))

  pick-Table :
      (rounds i : ℕ) (order : List (Option Row)) (ys : List ℕ)
      → ((i : ℕ) (order : List (Option Row)) → Orders rounds i order ys)
      → Table make n i order ys
      → i < n
      → (n - i) + length ys ≤ rounds
      → (count i ys == 0 ≡ false → (n - i) + length ys < rounds)
      → pick rounds i order ys (get_elem? order i) ≡ ok (map make (indices (n - i) i))
  unfolding Orders
  pick-Table rounds i order ys next t i_lt h strict = elim (Bool-cases (count i ys == 0)) [
    | inl e ↦
        ap (pick rounds i order ys) (t.holds i (omega arith) i_lt)
        ∙ rw
            (
              e,
              next (i + 1) (set order i none) (Table-yield i order ys i_lt t) (omega arith),
              indices_suc i i_lt,
            )
            refl
    | inr e ↦
        ap (pick rounds i order ys) (t.holds i (omega arith) i_lt)
        ∙ rw e (next i order t (strict e))
  ]

  leb-false : (a b : ℕ) → a < b → leb b a ≡ false
  leb-false a b h = ground arith

  -- A round reads a row if there is one left, and yields one if it stands at `i`.
  ordered_from-Table :
      (rounds : ℕ) (ys : List ℕ) (i : ℕ) (order : List (Option Row)) → Orders rounds i order ys
  unfolding ordered_from Orders
  ordered_from-Table zero ys i order t h = absurd (omega arith)
  ordered_from-Table (suc rounds) [] i order t h = elim (Bool-cases (ltb i n)) [
    | inl e ↦
        rw (t.size, leb-false i n (ground arith))
          (pick-Table rounds i order [] (ordered_from-Table rounds []) t (ground arith)
            (omega arith) (λ f. absurd (ground arith)))
    | inr e ↦ rw (t.size, leb-true n i (ground arith), indices-none i (ground arith)) refl
  ]
  ordered_from-Table (suc rounds) (y ∷ ys) i order t h = elim (Bool-cases (ltb i n)) [
    | inl e ↦
        let (y_lt, t') = Table-put i y order ys t in
        rw (t.size, leb-false i n (ground arith), ltb-true y n y_lt)
          (pick-Table rounds i (set order y (some (make y))) ys (ordered_from-Table rounds ys) t'
            (ground arith) (omega arith) (λ f. omega arith))
    | inr e ↦ rw (t.size, leb-true n i (ground arith), indices-none i (ground arith)) refl
  ]

  -- Rows whose numbers are 0, …, n - 1 in any order come out of `ordered_rows` in order, all of them: in
  -- 2 n + 1 rounds at most, with no row missed and with nothing read past the last.
  pub ordered_rows_lem :
      (ys : List ℕ) → IsOrder n ys → ordered_rows (map make ys) n ≡ ok (map make (indices n 0))
  unfolding ordered_rows IsOrder Orders
  ordered_rows_lem ys (size, once) =
      let t : Table make n 0 (replicate n none) ys = record {
        size = length-replicate n none;
        bounded = omega arith;
        once = λ k. omega (arith, once k);
        holds = λ k h k_lt. get_elem?-replicate n k none k_lt ∙ ap some (ground (arith, once k));
      } in
      let all : n - 0 ≡ n = omega arith in
      ap (λ k. ordered_from (2 * n + 1) (replicate n none) 0 k (map make ys)) (sym size)
      ∙ ordered_from-Table (2 * n + 1) ys 0 (replicate n none) t (omega (arith, size))
      ∙ ap (λ k. ok (map make (indices k 0))) all
