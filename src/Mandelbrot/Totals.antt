-- ===== src/Mandelbrot/Totals.antt =====
-- Sums over the generators of benchmark/*/mandelbrot.py, and lists of generators under `set` and `pop`.
use snakefish.Prelude.{
  length, get_elem?, set, ℕ, zero, suc, ◌+◌, ◌<◌, ◌≡◌, refl, ap, none, some, List, [], ◌∷◌, ◌++◌,
  map, arith,
}
use snakefish.Mandelbrot.Loop.{pop}

module _ {ℓ} {A : Type ℓ} (f : A → ℕ) where
  unfoldable pub total : List A → ℕ
  total [] = 0
  total (x ∷ xs) = f x + total xs

  pub total-set :
      (xs : List A) (i : ℕ) (x v : A)
      → get_elem? xs i ≡ some x
      → total (set xs i v) + f x ≡ total xs + f v
  unfolding total
  total-set [] i x v e = absurd (ground arith)
  total-set (y ∷ xs) zero x v e = ground arith
  total-set (y ∷ xs) (suc i) x v e = omega (arith, total-set xs i x v e)

  pub total-pop :
      (xs : List A) (i : ℕ) (x : A) → get_elem? xs i ≡ some x → total (pop xs i) + f x ≡ total xs
  unfolding total
  total-pop [] i x e = absurd (ground arith)
  total-pop (y ∷ xs) zero x e = ground arith
  total-pop (y ∷ xs) (suc i) x e = omega (arith, total-pop xs i x e)

module _ {ℓ κ} {A : Type ℓ} {B : Type κ} (f : A → B) where
  pub map-set : (xs : List A) (i : ℕ) (v : A) → set (map f xs) i (f v) ≡ map f (set xs i v)
  map-set [] i v = refl
  map-set (x ∷ xs) zero v = refl
  map-set (x ∷ xs) (suc i) v = ap (λ t. f x ∷ t) (map-set xs i v)

  pub map-pop : (xs : List A) (i : ℕ) → pop (map f xs) i ≡ map f (pop xs i)
  map-pop [] i = refl
  map-pop (x ∷ xs) zero = refl
  map-pop (x ∷ xs) (suc i) = ap (λ t. f x ∷ t) (map-pop xs i)

  pub map-append : (xs ys : List A) → map f (xs ++ ys) ≡ map f xs ++ map f ys
  map-append [] ys = refl
  map-append (x ∷ xs) ys = ap (λ t. f x ∷ t) (map-append xs ys)

  pub get_elem?-map :
      (xs : List A) (i : ℕ) (x : A) → get_elem? xs i ≡ some x → get_elem? (map f xs) i ≡ some (f x)
  get_elem?-map [] i x e = absurd (ground arith)
  get_elem?-map (y ∷ xs) zero x e = ap (λ o. elim o [ none ↦ none | some x ↦ some (f x) ]) e
  get_elem?-map (y ∷ xs) (suc i) x e = get_elem?-map xs i x e

pub get_elem?-some {ℓ} :
    {A : Type ℓ} (xs : List A) (i : ℕ) → i < length xs → (x : A) × (get_elem? xs i ≡ some x)
get_elem?-some [] i h = absurd (omega arith)
get_elem?-some (x ∷ xs) zero h = (x, refl)
get_elem?-some (x ∷ xs) (suc i) h = get_elem?-some xs i (omega arith)
