-- ===== src/Channel/Send/Lengths.antt =====
-- The first of the two stores of `send_bytes`, the length of the message behind `end`.
use snakefish.Prelude.{
  ◌==◌, length, take, drop, take_all, ℕ, ◌+◌, ◌%◌, ◌^◌, ◌≤◌, ◌<◌, ◌≡◌, refl, ap, ◌∙◌, ◌⊎◌, inl, inr,
  some, List, ◌++◌, arith,
}
use mathlib.Core.Option
use mathlib.Core.Path.{ap₂}
use native.Mathlib.Nat.{mod-add-mod, mod-eq-sub-mod, mod-eq_of_lt}
use native.Mathlib.Decide.{dec_lt}
use snakefish.Channel.{Channel, store, publish, write_message}
use snakefish.Channel.Bytes.{encode, length-encode, add_size, word_size}
use snakefish.Channel.Rotation.{rotation, rotation-shift, drop-append_le}
use snakefish.Channel.Copies.{store-within, store-round}
use snakefish.Channel.Queue.{Holds, frames, used-add-free, end_in}

-- What a store of `len` bytes does to the rotation, `k` of them or more being copied.
pub store_lem :
    (size at len amount : ℕ) (mem source : List ℕ)
    → length mem ≡ size
    → at < size
    → 0 < len
    → len < size
    → size < 2 ^ 64
    → len ≤ amount
    → len ≤ length source
    → (at + len < size → (at + amount ≤ size) × (amount ≤ length source))
    → (mem' : List ℕ) × (k : ℕ) × (store size mem at ((at + len) % size) len amount source
        ≡ some mem')
      × (length mem' ≡ size)
      × (rotation at mem' ≡ take k source ++ drop k (rotation at mem))
      × ((k ≡ len) ⊎ ((k ≡ amount) × (at + len < size)))
store_lem size at len amount mem source lm ha hp hl hs le ls fits = elim (dec_lt (at + len) size) [
  | yes p ↦
      let (mem', e, l, r) =
        store-within size at len amount mem source lm hp p (fits p).0 (fits p).1 in
      (mem', amount, e, l, r, inr (refl, p))
  | no p ↦
      let (mem', e, l, r) =
        store-round size at len amount mem source lm ha hl (omega arith) hs ls in
      (mem', len, e, l, r, inl refl)
]

-- Once both stores have been made, what is left is to publish the message.
pub write_message-publish :
    (ch : Channel) (source mem mem' : List ℕ) (len n available tail new_end : ℕ)
    → add_size ch.end word_size % ch.capacity ≡ tail
    → add_size tail len % ch.capacity ≡ new_end
    → store ch.capacity ch.shared_mem ch.end tail 8 8 (encode 8 len) ≡ some mem
    → store ch.capacity mem tail new_end len n source ≡ some mem'
    → write_message source len n available ch
      ≡ publish source len (n == available) new_end (record ch { shared_mem = mem' })
unfolding write_message Option.bind
write_message-publish ch source mem mem' len n available tail new_end et ee es ew =
    ground (arith, et, ee, es, ew)

-- The position behind the length.
abbrev pub tail : Channel → ℕ
tail ch = (ch.end + 8) % ch.capacity

-- The length behind `end`, then the message, as they lie in the rotation from the new `end` back.
module _ (ch : Channel) (ms : List (List ℕ)) (free : List ℕ) (h : Holds ch ms free)
    (m stray : List ℕ) (m_pos : 0 < length m) (fits : 8 + length m ≤ length free) where
  pub room :
      (9 ≤ ch.capacity)
      × (length m < ch.capacity)
      × (ch.end < ch.capacity)
      × (ch.capacity ≤ 2 ^ 63)
      × (ch.start < ch.capacity)
  room =
      let u = used-add-free ch ms free h in
      let e = end_in ch ms free h in let s = h.small in let t = h.start_in in omega arith

  pub end_layout : rotation ch.end ch.shared_mem ≡ free ++ frames ms
  end_layout =
      ap (λ t. rotation t ch.shared_mem) h.end_at
      ∙ rotation-shift ch.start (length (frames ms)) ch.capacity ch.shared_mem (frames ms) free
          h.sized h.start_in h.layout refl

  -- The memory once the length is written.
  pub record Header (mem : List ℕ) : Type 0 where
    pub written :
        store ch.capacity ch.shared_mem ch.end (tail ch) 8 8 (encode 8 (length m)) ≡ some mem
    pub kept : length mem ≡ ch.capacity
    pub placed : rotation (tail ch) mem ≡ (drop 8 free ++ frames ms) ++ encode 8 (length m)

  header_placed :
      (mem : List ℕ) (k : ℕ)
      → length mem ≡ ch.capacity
      → k ≡ 8
      → rotation ch.end mem ≡ take k (encode 8 (length m)) ++ drop k (rotation ch.end ch.shared_mem)
      → rotation (tail ch) mem ≡ (drop 8 free ++ frames ms) ++ encode 8 (length m)
  header_placed mem k kept k8 rot =
      let r = room in
      rotation-shift ch.end 8 ch.capacity mem (encode 8 (length m)) (drop 8 free ++ frames ms) kept
        (omega arith)
        (rot
          ∙ ap₂ ◌++◌
              (ap (λ t. take t (encode 8 (length m))) k8
                ∙ take_all 8 (encode 8 (length m)) (omega (arith, length-encode 8 (length m))))
              (ap₂ drop k8 end_layout ∙ drop-append_le 8 free (frames ms) (omega arith)))
        (length-encode 8 (length m))

  pub header : (mem : List ℕ) × Header mem
  header =
      let r = room in
      let l = length-encode 8 (length m) in
      let (mem, k, e, kept, rot, which) =
        store_lem ch.capacity ch.end 8 8 ch.shared_mem (encode 8 (length m)) h.sized (omega arith)
          (omega arith) (omega arith) (omega (arith, h.small)) (omega arith) (omega arith)
          (λ p. (omega arith, omega arith)) in
      (
        mem,
        record { written = e; kept = kept; placed = header_placed mem k kept (omega arith) rot },
      )

  -- All that was free further on lies the start.
  pub start_again : (k : ℕ) → 8 + k ≡ length free → (tail ch + k) % ch.capacity ≡ ch.start
  start_again k e =
      let r = room in
      let u = used-add-free ch ms free h in
      let round : (ch.start + length (frames ms)) + (8 + k) ≡ ch.start + ch.capacity =
        omega arith in
      mod-add-mod (ch.end + 8) ch.capacity k
      ∙ ap (λ t. t % ch.capacity) (omega arith)
      ∙ ap (λ t. (t + (8 + k)) % ch.capacity) h.end_at
      ∙ mod-add-mod (ch.start + length (frames ms)) ch.capacity (8 + k)
      ∙ ap (λ t. t % ch.capacity) round
      ∙ mod-eq-sub-mod {n = ch.start + ch.capacity} {m = ch.capacity} (omega arith)
      ∙ ap (λ t. t % ch.capacity) (omega arith)
      ∙ mod-eq_of_lt {n = ch.start} {m = ch.capacity} (omega arith)
