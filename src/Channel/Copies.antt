-- ===== src/Channel/Copies.antt =====
-- The two copies of channel.cpp, seen on the rotation of the memory: one reads the rotation's
-- beginning, the other writes it, whether or not it goes round the end of the memory.
use snakefish.Prelude.{
  ltb, length, take, drop, length-append, length-take, length-drop, take_all, drop_all, drop-drop,
  take_add, ℕ, ◌+◌, ◌-◌, ◌%◌, ◌^◌, ◌≤◌, ◌<◌, ◌≡◌, refl, sym, ap, ◌∙◌, true, false, some, List, ◌++◌,
  append-nil, append_assoc, arith,
}
use mathlib.Core.Option
use mathlib.Core.Path.{ap₂}
use native.Mathlib.Nat.{zero-add, mod-eq_of_lt, mod-eq-sub-mod}
use native.Mathlib.Decide.{dec_lt}
use snakefish.Channel.{store, fetch}
use snakefish.Channel.Bytes.{sub_size, memcpy, read}
use snakefish.Channel.Rotation.{
  rotation, rotation-append, take-append_le, drop-append_le, take-append_ge, drop-append_ge,
  take-take,
}

-- Fewer than `size` bytes on from `at`, the position is above `at` exactly if the end is not passed.
next_within : (at len size : ℕ) → 0 < len → at + len < size → ltb at ((at + len) % size) ≡ true
next_within at len size p h = rw (mod-eq_of_lt h) (ground arith)

next_round :
    (at len size : ℕ)
    → at < size
    → len < size
    → size ≤ at + len
    → ltb at ((at + len) % size) ≡ false
next_round at len size a l h =
    rw
      (mod-eq-sub-mod {n = at + len} {m = size} h
        ∙ mod-eq_of_lt {n = at + len - size} {m = size} (omega arith))
      (ground arith)

sub_size_lem : (a b : ℕ) → b ≤ a → a < 2 ^ 64 → sub_size a b ≡ a - b
sub_size_lem a b h small = omega arith

memcpy_lem :
    (mem source : List ℕ) (at n : ℕ)
    → at + n ≤ length mem
    → n ≤ length source
    → memcpy mem at source n ≡ some (take at mem ++ (take n source ++ drop (at + n) mem))
unfolding memcpy
memcpy_lem mem source at n h k = ground arith

read_lem :
    (mem : List ℕ) (at n : ℕ) → at + n ≤ length mem → read mem at n ≡ some (take n (drop at mem))
unfolding read
read_lem mem at n h = ground arith

-- What is fetched is the beginning of the rotation.
pub fetch-rotation :
    (size at len : ℕ) (mem : List ℕ)
    → length mem ≡ size
    → at < size
    → 0 < len
    → len < size
    → size < 2 ^ 64
    → fetch size mem at ((at + len) % size) len ≡ some (take len (rotation at mem))
unfolding fetch Option.bind
fetch-rotation size at len mem lm ha hp hl hs = elim (dec_lt (at + len) size) [
  | yes h ↦ rw (next_within at len size hp h) (
      read_lem mem at len (omega arith)
      ∙ ap some (
          sym (
            take-append_le len (drop at mem) (take at mem)
              (omega (arith, length-drop {0} at mem)))))
  | no h ↦
      rw
        (
          next_round at len size ha hl (omega arith),
          sub_size_lem len (size - at) (omega arith) (omega arith),
          read_lem mem at (size - at) (omega arith),
          read_lem mem 0 (len - (size - at)) (omega arith),
        )
        (ap some (
          ap₂ ◌++◌ (take_all (size - at) (drop at mem) (omega (arith, length-drop {0} at mem)))
            (sym (take-take (len - (size - at)) at mem (omega arith)))
          ∙ sym (
              take-append_ge len (len - (size - at)) (drop at mem) (take at mem)
                (omega (arith, length-drop {0} at mem)))))
]

-- A store that does not go round puts `amount` bytes at the beginning of the rotation.
pub store-within :
    (size at len amount : ℕ) (mem source : List ℕ)
    → length mem ≡ size
    → 0 < len
    → at + len < size
    → at + amount ≤ size
    → amount ≤ length source
    → (mem' : List ℕ) × (store size mem at ((at + len) % size) len amount source ≡ some mem')
      × (length mem' ≡ size)
      × (rotation at mem' ≡ take amount source ++ drop amount (rotation at mem))
unfolding store
store-within size at len amount mem source lm hp hl fits ls = (
  take at mem ++ (take amount source ++ drop (at + amount) mem),
  rw (next_within at len size hp hl) (memcpy_lem mem source at amount (omega arith) ls),
  omega (
    arith,
    length-append {0} (take at mem) (take amount source ++ drop (at + amount) mem),
    length-append {0} (take amount source) (drop (at + amount) mem),
    length-take {0} at mem,
    length-take {0} amount source,
    length-drop {0} (at + amount) mem,
  ),
  rotation-append at (take at mem) (take amount source ++ drop (at + amount) mem)
        (omega (arith, length-take {0} at mem))
      ∙ append_assoc (take amount source) (drop (at + amount) mem) (take at mem)
      ∙ ap (λ t. take amount source ++ t)
          (ap (λ t. t ++ take at mem) (sym (drop-drop at amount (at + amount) mem refl))
            ∙ sym (
                drop-append_le amount (drop at mem) (take at mem)
                  (omega (arith, length-drop {0} at mem)))),
)

-- The two copies of a store that goes round, the second from the memory's beginning.
memcpy_to_end :
    (mem source : List ℕ) (at n : ℕ)
    → at + n ≡ length mem
    → n ≤ length source
    → memcpy mem at source n ≡ some (take at mem ++ take n source)
memcpy_to_end mem source at n h k =
    memcpy_lem mem source at n (omega arith) k
    ∙ ap (λ t. some (take at mem ++ t))
        (ap (λ t. take n source ++ t) (drop_all (at + n) mem (omega arith)) ∙ append-nil _)

memcpy_to_start :
    (front back source : List ℕ) (n : ℕ)
    → n ≤ length front
    → n ≤ length source
    → memcpy (front ++ back) 0 source n ≡ some (take n source ++ (drop n front ++ back))
memcpy_to_start front back source n h k =
    memcpy_lem (front ++ back) source 0 n (omega (arith, length-append {0} front back)) k
    ∙ ap (λ t. some (take n source ++ t)) (rw (zero-add) (drop-append_le n front back h))

-- A store that goes round puts the `len` bytes there.
pub store-round :
    (size at len amount : ℕ) (mem source : List ℕ)
    → length mem ≡ size
    → at < size
    → len < size
    → size ≤ at + len
    → size < 2 ^ 64
    → len ≤ length source
    → (mem' : List ℕ) × (store size mem at ((at + len) % size) len amount source ≡ some mem')
      × (length mem' ≡ size)
      × (rotation at mem' ≡ take len source ++ drop len (rotation at mem))
unfolding store Option.bind
store-round size at len amount mem source lm ha hl h hs ls = (
  second ++ (drop rest (take at mem) ++ take first source),
  rw
      (
        next_round at len size ha hl h,
        sub_size_lem len first (omega arith) (omega arith),
        memcpy_to_end mem source at first (omega arith) (omega arith),
      )
      (memcpy_to_start (take at mem) (take first source) (drop first source) rest
        (omega (arith, length-take {0} at mem)) (omega (arith, length-drop {0} first source))),
  omega (
    arith,
    len_head,
    length-append {0} second (kept ++ take first source),
    length-append {0} second kept,
    length-append {0} kept (take first source),
    length-take {0} first source,
  ),
  ap (rotation at) (sym (append_assoc second kept (take first source)))
      ∙ rotation-append at (second ++ kept) (take first source) len_head
      ∙ sym (append_assoc (take first source) second kept)
      ∙ ap₂ ◌++◌ (sym (take_add first rest len source (omega arith))) (
          sym (
            drop-append_ge len rest (drop at mem) (take at mem)
              (omega (arith, length-drop {0} at mem)))),
)
  where
    first : ℕ
    first = size - at

    rest : ℕ
    rest = len - first

    second : List ℕ
    second = take rest (drop first source)

    kept : List ℕ
    kept = drop rest (take at mem)

    len_head : length (second ++ kept) ≡ at
    len_head = omega (
      arith,
      length-append {0} second kept,
      length-take {0} rest (drop first source),
      length-drop {0} first source,
      length-drop {0} rest (take at mem),
      length-take {0} at mem,
    )
