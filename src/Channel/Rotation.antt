-- ===== src/Channel/Rotation.antt =====
-- The ring's memory read from a position on, once round: what a copy that goes round sees.
use snakefish.Prelude.{
  length, take, drop, length-append, length-take, length-drop, take-append-drop, drop-drop,
  take_add, ℕ, zero, suc, ◌+◌, ◌-◌, ◌%◌, ◌≤◌, ◌<◌, ◌≡◌, refl, sym, ap, ◌∙◌, List, [], ◌∷◌, ◌++◌,
  append_assoc, arith,
}
use mathlib.Core.Path.{ap₂}
use native.Mathlib.Nat.{mod-eq_of_lt, mod-eq-sub-mod}
use native.Mathlib.Decide.{dec_lt}

abbrev pub rotation {ℓ} : {A : Type ℓ} → ℕ → List A → List A
rotation h xs = drop h xs ++ take h xs

module _ {ℓ} {A : Type ℓ} where
  pub take-append : (n : ℕ) (xs ys : List A) → length xs ≡ n → take n (xs ++ ys) ≡ xs
  take-append zero [] ys e = refl
  take-append zero (x ∷ xs) ys e = absurd (omega arith)
  take-append (suc n) [] ys e = absurd (omega arith)
  take-append (suc n) (x ∷ xs) ys e = ap (λ t. x ∷ t) (take-append n xs ys (omega arith))

  pub drop-append : (n : ℕ) (xs ys : List A) → length xs ≡ n → drop n (xs ++ ys) ≡ ys
  drop-append zero [] ys e = refl
  drop-append zero (x ∷ xs) ys e = absurd (omega arith)
  drop-append (suc n) [] ys e = absurd (omega arith)
  drop-append (suc n) (x ∷ xs) ys e = drop-append n xs ys (omega arith)

  pub rotation-append : (n : ℕ) (xs ys : List A) → length xs ≡ n → rotation n (xs ++ ys) ≡ ys ++ xs
  rotation-append n xs ys e = ap₂ ◌++◌ (drop-append n xs ys e) (take-append n xs ys e)

  pub length-rotation : (n : ℕ) (xs : List A) → length (rotation n xs) ≡ length xs
  length-rotation n xs = omega (
    arith,
    length-append {ℓ} (drop n xs) (take n xs),
    length-append {ℓ} (take n xs) (drop n xs),
    ap length (take-append-drop n xs),
  )

  -- The shorter of two beginnings of one list begins the longer.
  pub append_split :
      (xs ys zs ws : List A)
      → xs ++ ys ≡ zs ++ ws
      → length xs ≤ length zs
      → (us : List A) × (zs ≡ xs ++ us) × (ys ≡ us ++ ws)
  append_split [] ys zs ws e h = (zs, refl, e)
  append_split (x ∷ xs) ys [] ws e h = absurd (omega arith)
  append_split (x ∷ xs) ys (z ∷ zs) ws e h =
      let (us, p, q) = append_split xs ys zs ws (cc) (omega arith) in (us, cc, q)

-- Going on by `k` less than the capacity from `h` on, without and with the end of the memory passed.
mod_within : (h k size : ℕ) → h + k < size → (h + k) % size ≡ h + k
mod_within h k size h' = mod-eq_of_lt h'

mod_round : (h k size : ℕ) → size ≤ h + k → h + k < size + size → (h + k) % size ≡ h + k - size
mod_round h k size h' b =
    mod-eq-sub-mod {n = h + k} {m = size} h'
    ∙ mod-eq_of_lt {n = h + k - size} {m = size} (omega arith)

module _ {ℓ} {A : Type ℓ} (h k size : ℕ) (front back xs ys : List A) where
  shift_within :
      length front ≡ h
      → length xs ≡ k
      → h + k < size
      → length front + length back ≡ size
      → back ++ front ≡ xs ++ ys
      → rotation ((h + k) % size) (front ++ back) ≡ ys ++ xs
  shift_within lf lx b l e =
      let (us, p, q) = append_split xs ys back front (sym e) (omega arith) in
      rw (mod_within h k size b, p, q, ← append_assoc front xs us)
        (rotation-append (h + k) (front ++ xs) us (omega (arith, length-append {ℓ} front xs))
          ∙ sym (append_assoc us front xs))

  shift_round :
      length front ≡ h
      → length xs ≡ k
      → size ≤ h + k
      → h < size
      → k ≤ size
      → length front + length back ≡ size
      → back ++ front ≡ xs ++ ys
      → rotation ((h + k) % size) (front ++ back) ≡ ys ++ xs
  shift_round lf lx b hb kb l e =
      let (us, p, q) = append_split back front xs ys e (omega arith) in
      rw (mod_round h k size b (omega arith), p, q, append_assoc us ys back)
        (rotation-append (h + k - size) us (ys ++ back)
            (omega (arith, ap length p, length-append {ℓ} back us))
          ∙ append_assoc ys back us)

module _ {ℓ} {A : Type ℓ} where
  -- Going `k` on from `h` moves the first `k` of the rotation to its end.
  pub rotation-shift :
      (h k size : ℕ) (mem xs ys : List A)
      → length mem ≡ size
      → h < size
      → rotation h mem ≡ xs ++ ys
      → length xs ≡ k
      → rotation ((h + k) % size) mem ≡ ys ++ xs
  rotation-shift h k size mem xs ys lm hh e lx = elim (dec_lt (h + k) size) [
    | yes p ↦
        rw (take-append-drop h mem) at
          (shift_within h k size (take h mem) (drop h mem) xs ys lf lx p l e)
    | no p ↦
        rw (take-append-drop h mem) at
          (shift_round h k size (take h mem) (drop h mem) xs ys lf lx (omega arith) hh fits l e)
  ]
    where
      lf : length (take h mem) ≡ h
      lf = omega (arith, length-take {ℓ} h mem)

      l : length (take h mem) + length (drop h mem) ≡ size
      l = omega (arith, length-take {ℓ} h mem, length-drop {ℓ} h mem)

      fits : k ≤ size
      fits = omega (arith, ap length e, length-rotation {ℓ} h mem, length-append {ℓ} xs ys)

module _ {ℓ} {A : Type ℓ} where
  pub take-append_le : (n : ℕ) (xs ys : List A) → n ≤ length xs → take n (xs ++ ys) ≡ take n xs
  take-append_le zero xs ys h = refl
  take-append_le (suc n) [] ys h = absurd (omega arith)
  take-append_le (suc n) (x ∷ xs) ys h = ap (λ t. x ∷ t) (take-append_le n xs ys (omega arith))

  pub drop-append_le :
      (n : ℕ) (xs ys : List A) → n ≤ length xs → drop n (xs ++ ys) ≡ drop n xs ++ ys
  drop-append_le zero xs ys h = refl
  drop-append_le (suc n) [] ys h = absurd (omega arith)
  drop-append_le (suc n) (x ∷ xs) ys h = drop-append_le n xs ys (omega arith)

  -- Past the first list, `m` is what is left to take or drop.
  pub take-append_ge :
      (n m : ℕ) (xs ys : List A) → n ≡ length xs + m → take n (xs ++ ys) ≡ xs ++ take m ys
  take-append_ge n m xs ys e =
      take_add (length xs) m n (xs ++ ys) (sym e)
      ∙ ap₂ (λ a b. a ++ take m b) (take-append (length xs) xs ys refl)
          (drop-append (length xs) xs ys refl)

  pub drop-append_ge :
      (n m : ℕ) (xs ys : List A) → n ≡ length xs + m → drop n (xs ++ ys) ≡ drop m ys
  drop-append_ge n m xs ys e =
      sym (drop-drop (length xs) m n (xs ++ ys) (sym e))
      ∙ ap (drop m) (drop-append (length xs) xs ys refl)

  pub take-take : (n m : ℕ) (xs : List A) → n ≤ m → take n (take m xs) ≡ take n xs
  take-take zero m xs h = refl
  take-take (suc n) zero xs h = absurd (omega arith)
  take-take (suc n) (suc m) [] h = refl
  take-take (suc n) (suc m) (x ∷ xs) h = ap (λ t. x ∷ t) (take-take n m xs (omega arith))
