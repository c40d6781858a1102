-- ===== src/Prelude/Results.antt =====
-- Python exceptions and C++ exceptions as values, and the monad of calls that may raise.
use Prim.Native.Nat.{ℕ}
use mathlib.Core.Path.{◌≡◌, refl, ap, sym, ◌∙◌}
use mathlib.Core.Logic.{◌⊎◌, inl, inr}
use mathlib.Core.List.{List, [], ◌∷◌, ◌++◌, map, append_assoc}

-- `crash` is the death of the process by a signal, `blocked` a call that never returns,
-- `undefined` an access past the memory that was asked for, and `user n` an exception of user code.
-- `unspecified` is what code outside of the repository answers where the model says nothing of it.
pub data Exc : Type 0 where
  zero_division overflow_error out_of_range runtime_error stop_iteration : Exc
  assertion_error memory_error value_error crash abort blocked undefined unspecified : Exc
  user : ℕ → Exc

pub data Result {ℓ} (A : Type ℓ) : Type ℓ where
  ok : A → Result A
  err : Exc → Result A

infixl 5 ◌>>=◌
abbrev pub ◌>>=◌ {ℓ κ} : {A : Type ℓ} {B : Type κ} → Result A → (A → Result B) → Result B
ok a >>= f = f a
err e >>= f = err e

module _ {ℓ κ} {A : Type ℓ} {B : Type κ} where
  -- `[f(arg) for arg in args]`, where a call may raise.
  abbrev pub map_result : (A → Result B) → List A → Result (List B)
  map_result f [] = ok []
  map_result f (x ∷ xs) = f x >>= λ y. map_result f xs >>= λ ys. ok (y ∷ ys)

-- `results.extend(r)`
abbrev pub extend {ℓ} : {B : Type ℓ} → List B → Result (List B) → Result (List B)
extend acc r = r >>= λ ys. ok (acc ++ ys)

pub Result-cases {ℓ} :
    {A : Type ℓ} (r : Result A) → ((a : A) × (r ≡ ok a)) ⊎ ((e : Exc) × (r ≡ err e))
Result-cases (ok a) = inl (a, refl)
Result-cases (err e) = inr (e, refl)

pub >>=_assoc {ℓ κ ι} :
    {A : Type ℓ} {B : Type κ} {C : Type ι} (m : Result A) (f : A → Result B) (g : B → Result C)
    → ((m >>= f) >>= g) ≡ (m >>= λ x. f x >>= g)
>>=_assoc (ok a) f g = refl
>>=_assoc (err e) f g = refl

pub extend-nil {ℓ} : {B : Type ℓ} (r : Result (List B)) → extend [] r ≡ r
extend-nil (ok ys) = refl
extend-nil (err e) = refl

module _ {ℓ} {B : Type ℓ} where
  -- Extending twice is extending by both parts.
  pub extend-extend :
      (acc : List B) (r s : Result (List B))
      → (extend acc r >>= λ bs. extend bs s) ≡ extend acc (r >>= λ bs. extend bs s)
  extend-extend acc (ok r) (ok s) = ap ok (append_assoc acc r s)
  extend-extend acc (ok r) (err e) = refl
  extend-extend acc (err e) s = refl

  cons-extend :
      (x : Result B) (r s : Result (List B))
      → (x >>= λ y. (r >>= λ bs. extend bs s) >>= λ ys. ok (y ∷ ys))
        ≡ ((x >>= λ y. r >>= λ ys. ok (y ∷ ys)) >>= λ bs. extend bs s)
  cons-extend (ok x) (ok r) (ok s) = refl
  cons-extend (ok x) (ok r) (err e) = refl
  cons-extend (ok x) (err e) s = refl
  cons-extend (err e) r s = refl

module _ {ℓ κ} {A : Type ℓ} {B : Type κ} (f : A → Result B) where
  pub map_result-append :
      (xs ys : List A)
      → map_result f (xs ++ ys) ≡ (map_result f xs >>= λ bs. extend bs (map_result f ys))
  map_result-append [] ys = sym (extend-nil (map_result f ys))
  map_result-append (x ∷ xs) ys =
      ap (λ r. f x >>= λ y. r >>= λ zs. ok (y ∷ zs)) (map_result-append xs ys)
      ∙ cons-extend (f x) (map_result f xs) (map_result f ys)

  -- A call that never raises maps to the plain list.
  pub map_result_total :
      (g : A → B) → ((x : A) → f x ≡ ok (g x)) → (xs : List A) → map_result f xs ≡ ok (map g xs)
  map_result_total g h [] = refl
  map_result_total g h (x ∷ xs) = simp (h, map_result_total g h xs)

module _ {ℓ κ ι} {A : Type ℓ} {B : Type κ} {C : Type ι} (f : A → Result B)
    (K : List B → Result C) where
  extend_chain :
      (acc : List B) (r s : Result (List B))
      → (extend acc r >>= λ bs. extend bs s >>= K) ≡ (extend acc (r >>= λ bs. extend bs s) >>= K)
  extend_chain acc (ok r) (ok s) = ap K (append_assoc acc r s)
  extend_chain acc (ok r) (err e) = refl
  extend_chain acc (err e) s = refl

  -- Collecting the results for `xs` and then those for `ys` is collecting those for both.
  pub map_result_chain :
      (acc : List B) (xs ys : List A)
      → (extend acc (map_result f xs) >>= λ bs. extend bs (map_result f ys) >>= K)
        ≡ (extend acc (map_result f (xs ++ ys)) >>= K)
  map_result_chain acc xs ys =
      extend_chain acc (map_result f xs) (map_result f ys)
      ∙ ap (λ t. extend acc t >>= K) (sym (map_result-append f xs ys))
