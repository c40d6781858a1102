-- ===== src/Bench.antt =====
-- benchmark/: the programs are written four times over one way to map a function over a list: Python's own
-- `map`, `snakefish.map`, `wrappers.map` and `multiprocessing.Pool.map`. The last is third-party code.
pub mod Maps
use snakefish.Prelude.{length, Result, ok, ℕ, ◌+◌, ◌^◌, ◌<◌, ◌≡◌, List, [], ◌∷◌, map}

-- A way to map a function over a list, by its outcome on each list of arguments.
pub record Mapper {ℓ κ} (A : Type ℓ) (B : Type κ) : Type (ℓ ⊔ κ) where
  pub f : A → B
  pub run : List A → Result (List B)

-- The arguments that a mapper serves: there is one, and they are fewer than 2^31.
abbrev pub IsServed {ℓ} : {A : Type ℓ} → List A → Type 0
IsServed args = (0 < length args) × (length args < 2 ^ 31)

-- What the programs rely on: the results of the calls, in the order of the arguments.
abbrev pub IsMap {ℓ κ} : {A : Type ℓ} {B : Type κ} → Mapper A B → Type (ℓ ⊔ κ)
IsMap {A = A} m = (args : List A) → IsServed args → m.run args ≡ ok (map m.f args)

-- `sum(_)`
abbrev pub sum : List ℕ → ℕ
sum [] = 0
sum (x ∷ xs) = x + sum xs

-- Python's own `map`, consumed in full.
abbrev pub sequential {ℓ κ} : {A : Type ℓ} {B : Type κ} → (A → B) → Mapper A B
sequential f = record { f = f; run = λ args. ok (map f args) }
