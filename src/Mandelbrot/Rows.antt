-- ===== src/Mandelbrot/Rows.antt =====
-- `compute_row` of benchmark/*/mandelbrot.py: the bytes of a row, and its last one.
use Prim.Native.Nat.{bit_and}
use snakefish.Prelude.{
  ap, Bool-cases, inl, inr, ltb, ◌==◌, length, take, get_or, ◌++◌, Result, ◌>>=◌, ok, ℕ, zero, suc,
  ◌+◌, ◌-◌, ◌*◌, ◌/◌, ◌%◌, ◌^◌, ◌<◌, ◌≤◌, ◌≡◌, refl, ◌&&◌, Bool, true, List, [], ◌∷◌, arith,
}
use snakefish.Mandelbrot.{
  Plane, pixel_bits, stays, pixel_from, c1, c0, pixels, bytearray, and_last, compute_row,
}

-- Each of the numbers is a byte.
pub Bytes : List ℕ → Type 0
Bytes [] = Unit
Bytes (b ∷ bs) = (b < 256) × Bytes bs

bytearray-Bytes : (bs : List ℕ) → Bytes bs → bytearray bs ≡ ok bs
unfolding Bytes
bytearray-Bytes [] all = refl
bytearray-Bytes (b ∷ bs) (b_lt, all) =
    let e : ltb b 256 ≡ true = ground arith in rw (e, bytearray-Bytes bs all) refl

-- The last of the numbers is a multiple of `m`.
pub Ends : ℕ → List ℕ → Type 0
Ends m [] = Unit
Ends m (b ∷ []) = b % m ≡ 0
Ends m (b ∷ b' ∷ bs) = Ends m (b' ∷ bs)

all_below : ℕ → (ℕ → Bool) → Bool
all_below zero p = true
all_below (suc n) p = p n && all_below n p

all_below_lem : (n : ℕ) (p : ℕ → Bool) (x : ℕ) → all_below n p ≡ true → x < n → p x ≡ true
unfolding all_below
all_below_lem zero p x h lt = absurd (omega arith)
all_below_lem (suc n) p x h lt = ground (arith, all_below_lem n p x)

abbrev is_masked : ℕ → ℕ → Bool
is_masked r b = let m = bit_and b (0xff * 2 ^ (8 - r)) in ltb m 256 && (m % 2 ^ (8 - r) == 0)

mask_table : all_below 8 (λ r. all_below 256 (is_masked r)) ≡ true
unfolding all_below
mask_table = refl

is_masked-true : (r b : ℕ) → r < 8 → b < 256 → is_masked r b ≡ true
is_masked-true r b r_lt b_lt =
    all_below_lem 256 (is_masked r) b
      (all_below_lem 8 (λ r. all_below 256 (is_masked r)) r mask_table r_lt) b_lt

is_masked_lem : (m k : ℕ) → (ltb m 256 && (m % k == 0)) ≡ true → (m < 256) × (m % k ≡ 0)
is_masked_lem m k e = (ground arith, ground arith)

-- What `compute_row` leaves of the bytes.
Masked : ℕ → List ℕ → Result (List ℕ) → Type 0
Masked m bs r =
    (bs' : List ℕ) × ((r ≡ ok bs') × ((length bs' ≡ length bs) × (Bytes bs' × Ends m bs')))

Masked-cons :
    (m b b' : ℕ) (bs : List ℕ) (r : Result (List ℕ))
    → b < 256
    → Masked m (b' ∷ bs) r
    → Masked m (b ∷ b' ∷ bs) (r >>= λ rest. ok (b ∷ rest))
unfolding Masked Bytes Ends
Masked-cons m b b' bs r b_lt ([], (e, (l, h))) = absurd (omega (arith, l))
Masked-cons m b b' bs r b_lt (c ∷ cs, (e, (l, (all, ends)))) =
    (b ∷ c ∷ cs, (rw e refl, (omega (arith, l), ((b_lt, all), ends))))

and_last-Masked :
    (bs : List ℕ) (r : ℕ)
    → 0 < length bs
    → r < 8
    → Bytes bs
    → Masked (2 ^ (8 - r)) bs (and_last bs (0xff * 2 ^ (8 - r)))
unfolding and_last Bytes Ends Masked
and_last-Masked [] r h r_lt all = absurd (omega arith)
and_last-Masked (b ∷ []) r h r_lt (b_lt, all) =
    let (m_lt, e) =
      is_masked_lem (bit_and b (0xff * 2 ^ (8 - r))) (2 ^ (8 - r)) (is_masked-true r b r_lt b_lt) in
    (bit_and b (0xff * 2 ^ (8 - r)) ∷ [], (refl, (refl, ((m_lt, tt), e))))
and_last-Masked (b ∷ b' ∷ bs) r h r_lt (b_lt, all) =
    Masked-cons (2 ^ (8 - r)) b b' bs (and_last (b' ∷ bs) (0xff * 2 ^ (8 - r))) b_lt
      (and_last-Masked (b' ∷ bs) r (omega arith) r_lt all)

sum : List ℕ → ℕ
sum [] = 0
sum (b ∷ bs) = b + sum bs

module _ {C : Type 0} (plane : Plane C) where
  pixel_from_lem :
      (bits : List ℕ) (d c : C) (pixel : ℕ) → pixel_from plane bits d c pixel ≤ pixel + sum bits
  unfolding pixel_from sum
  pixel_from_lem [] d c pixel = omega arith
  pixel_from_lem (bit ∷ bits) d c pixel = elim (Bool-cases (stays plane 7 c c)) [
    | inl e ↦ rw e (omega (arith, pixel_from_lem bits d (plane.plus c d) (pixel + bit)))
    | inr e ↦ rw e (omega (arith, pixel_from_lem bits d (plane.plus c d) pixel))
  ]

  pixels-Bytes : (y n k x : ℕ) → Bytes (pixels plane y n k x)
  unfolding pixels Bytes sum
  pixels-Bytes y n zero x = tt
  pixels-Bytes y n (suc k) x = (
    omega (
      arith,
      pixel_from_lem pixel_bits (c1 plane n)
          (plane.plus (plane.times (plane.of_int x) (c1 plane n)) (c0 plane y n)) 0,
    ),
    pixels-Bytes y n k (x + 8),
  )

  length-pixels : (y n k x : ℕ) → length (pixels plane y n k x) ≡ k
  unfolding pixels
  length-pixels y n zero x = refl
  length-pixels y n (suc k) x = omega (arith, length-pixels y n k (x + 8))

  -- For n > 0 `compute_row((y, n))` returns the number y and (n + 7) // 8 bytes, each below 256, and the
  -- last a multiple of 2^(8 - n % 8): past the row's end all bits are 0.
  pub compute_row-Bytes :
      (y n : ℕ)
      → 0 < n
      → (bytes : List ℕ) × ((compute_row plane (y, n) ≡ ok (y, bytes))
          × ((length bytes ≡ (n + 7) / 8) × (Bytes bytes × Ends (2 ^ (8 - n % 8)) bytes)))
  unfolding compute_row Masked
  compute_row-Bytes y n some_left =
      let k = (n + 7) / 8 in
      let (bytes, (e, (l, (all, ends)))) =
        and_last-Masked (pixels plane y n k 0) (n % 8) (omega (arith, length-pixels y n k 0))
          (omega arith) (pixels-Bytes y n k 0) in
      (
        bytes,
        (
          rw (bytearray-Bytes (pixels plane y n k 0) (pixels-Bytes y n k 0), e) refl,
          (omega (arith, l, length-pixels y n k 0), (all, ends)),
        ),
      )

get_or-Bytes : (bs : List ℕ) (k : ℕ) → Bytes bs → get_or bs k 0 < 256
unfolding Bytes
get_or-Bytes [] k all = omega arith
get_or-Bytes (b ∷ bs) zero (h, all) = h
get_or-Bytes (b ∷ bs) (suc k) (h, all) = get_or-Bytes bs k all

-- A multiple of `m`, from below.
abbrev round_down : ℕ → ℕ → ℕ
round_down m b = b - b % m

round_table :
    all_below 8
      (λ r. all_below 256 (λ b. bit_and b (0xff * 2 ^ (8 - r)) == round_down (2 ^ (8 - r)) b))
    ≡ true
unfolding all_below
round_table = refl

and_last-round_down :
    (bs : List ℕ) (r k : ℕ)
    → length bs ≡ suc k
    → r < 8
    → Bytes bs
    → and_last bs (0xff * 2 ^ (8 - r))
      ≡ ok (take k bs ++ (round_down (2 ^ (8 - r)) (get_or bs k 0) ∷ []))
unfolding and_last Bytes
and_last-round_down [] r k h r_lt all = absurd (omega (arith, h))
and_last-round_down (b ∷ []) r zero h r_lt (b_lt, all) =
    let e =
      all_below_lem 256 (λ b. bit_and b (0xff * 2 ^ (8 - r)) == round_down (2 ^ (8 - r)) b) b
        (all_below_lem 8
          (λ r. all_below 256 (λ b. bit_and b (0xff * 2 ^ (8 - r)) == round_down (2 ^ (8 - r)) b)) r
          round_table r_lt)
        b_lt in
    ap (λ m. ok (m ∷ [])) (ground arith)
and_last-round_down (b ∷ []) r (suc k) h r_lt all = absurd (omega (arith, h))
and_last-round_down (b ∷ b' ∷ bs) r zero h r_lt all = absurd (omega (arith, h))
and_last-round_down (b ∷ b' ∷ bs) r (suc k) h r_lt (b_lt, all) =
    rw (and_last-round_down (b' ∷ bs) r k (omega (arith, h)) r_lt all) refl

module _ {C : Type 0} (plane : Plane C) where
  -- Where 8 divides n > 0, with n = 8 (k + 1), `compute_row((y, n))` puts 0 in the place of the last byte
  -- of the row, which has no padding: the last eight pixels are lost.
  pub compute_row-wiped :
      (y k : ℕ)
      → compute_row plane (y, 8 * k + 8)
        ≡ ok (y, take k (pixels plane y (8 * k + 8) (k + 1) 0) ++ (0 ∷ []))
  unfolding compute_row
  compute_row-wiped y k =
      let n = 8 * k + 8 in
      let bs = pixels plane y n (k + 1) 0 in
      let whole : n % 8 ≡ 0 = omega arith in
      let size : (n + 7) / 8 ≡ k + 1 = omega arith in
      let last_lt : get_or bs k 0 < 256 = get_or-Bytes bs k (pixels-Bytes plane y n (k + 1) 0) in
      let none_left : round_down 256 (get_or bs k 0) ≡ 0 = omega arith in
      let long : length bs ≡ suc k = omega (arith, length-pixels plane y n (k + 1) 0) in
      let e = and_last-round_down bs 0 k long (omega arith) (pixels-Bytes plane y n (k + 1) 0) in
      rw (whole, size, bytearray-Bytes bs (pixels-Bytes plane y n (k + 1) 0), e, none_left) refl
