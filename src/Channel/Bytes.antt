-- ===== src/Channel/Bytes.antt =====
-- Memory as a list of bytes: `memcpy`, and a `size_t` in its eight little-endian bytes.
use snakefish.Prelude.{
  leb, if◌then◌else◌, length, take, drop, ℕ, zero, suc, ◌+◌, ◌-◌, ◌*◌, ◌/◌, ◌%◌, ◌^◌, ◌<◌, ◌≡◌,
  refl, ap, ◌&&◌, Option, none, some, List, [], ◌∷◌, ◌++◌, arith,
}
use native.Mathlib.Nat.{pow-suc}

-- `size_t` addition
abbrev pub add_size : ℕ → ℕ → ℕ
add_size a b = (a + b) % 2 ^ 64

abbrev pub sub_size : ℕ → ℕ → ℕ
sub_size a b = (2 ^ 64 + a - b) % 2 ^ 64

-- `sizeof(size_t)`
abbrev pub word_size : ℕ
word_size = 8

-- The low `k` bytes of a number, as they lie in memory.
unfoldable pub encode : ℕ → ℕ → List ℕ
encode zero v = []
encode (suc k) v = v % 256 ∷ encode k (v / 256)

unfoldable pub decode : List ℕ → ℕ
decode [] = 0
decode (b ∷ bs) = b + 256 * decode bs

pub length-encode : (k v : ℕ) → length (encode k v) ≡ k
unfolding encode
length-encode zero v = refl
length-encode (suc k) v = ap suc (length-encode k (v / 256))

pub decode-encode : (k v : ℕ) → v < 256 ^ k → decode (encode k v) ≡ v
unfolding encode decode
decode-encode zero v h = omega arith
decode-encode (suc k) v h = omega (arith, decode-encode k (v / 256) (omega (arith, pow-suc 256 k)))

-- `memcpy(mem + at, source, n)`: `none` if it reads or writes out of bounds.
unfoldable pub memcpy : List ℕ → ℕ → List ℕ → ℕ → Option (List ℕ)
memcpy mem at source n =
    if leb (at + n) (length mem) && leb n (length source)
    then some (take at mem ++ (take n source ++ drop (at + n) mem))
    else none

-- `memcpy(buf, mem + at, n)` into a buffer of `n` bytes.
unfoldable pub read : List ℕ → ℕ → ℕ → Option (List ℕ)
read mem at n = if leb (at + n) (length mem) then some (take n (drop at mem)) else none
