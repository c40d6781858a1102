-- ===== src/Channel/Queue.antt =====
-- A channel as a queue of messages: what the ring holds, and where.
use snakefish.Prelude.{
  ◌==◌, length, length-append, ℕ, ◌+◌, ◌-◌, ◌%◌, ◌^◌, ◌≤◌, ◌<◌, ◌≡◌, sym, ap, ◌∙◌, List, [], ◌∷◌,
  ◌++◌, append-nil, append_assoc, arith,
}
use native.Mathlib.Nat.{mod-eq_of_lt, mod-eq-sub-mod}
use native.Mathlib.Decide.{dec_lt}
use snakefish.Channel.{Channel, available_space}
use snakefish.Channel.Bytes.{encode, length-encode}
use snakefish.Channel.Rotation.{rotation, length-rotation}

-- A message in the ring: its length in eight bytes, then its bytes.
abbrev pub frame : List ℕ → List ℕ
frame m = encode 8 (length m) ++ m

abbrev pub frames : List (List ℕ) → List ℕ
frames [] = []
frames (m ∷ ms) = frame m ++ frames ms

abbrev pub AllNonempty : List (List ℕ) → Type 0
AllNonempty [] = Unit
AllNonempty (m ∷ ms) = (0 < length m) × AllNonempty ms

pub length-frame : (m : List ℕ) → length (frame m) ≡ 8 + length m
length-frame m =
    omega (arith, length-append {0} (encode 8 (length m)) m, length-encode 8 (length m))

pub frames-append : (ms : List (List ℕ)) (m : List ℕ) → frames (ms ++ m ∷ []) ≡ frames ms ++ frame m
frames-append [] m = append-nil (frame m)
frames-append (x ∷ ms) m =
    ap (λ t. frame x ++ t) (frames-append ms m) ∙ sym (append_assoc (frame x) (frames ms) (frame m))

pub AllNonempty-append :
    (ms : List (List ℕ)) (m : List ℕ) → AllNonempty ms → 0 < length m → AllNonempty (ms ++ m ∷ [])
AllNonempty-append [] m h p = (p, tt)
AllNonempty-append (x ∷ ms) m h p = (h.0, AllNonempty-append ms m h.1 p)

-- The channel is unlocked and holds the messages `ms`, oldest first: from `start` on the ring has
-- their frames, then the bytes `free`, which mean nothing.
pub record Holds (ch : Channel) (ms : List (List ℕ)) (free : List ℕ) : Type 0 where
  pub sized : length ch.shared_mem ≡ ch.capacity
  pub small : ch.capacity ≤ 2 ^ 63
  pub start_in : ch.start < ch.capacity
  pub unlocked : ch.lock ≡ 1
  pub layout : rotation ch.start ch.shared_mem ≡ frames ms ++ free
  pub end_at : ch.end ≡ (ch.start + length (frames ms)) % ch.capacity
  pub full_when : ch.full ≡ (length free == 0)
  pub counted : ch.n_unread ≡ length ms
  pub nonempty : AllNonempty ms

module _ (ch : Channel) (ms : List (List ℕ)) (free : List ℕ) (h : Holds ch ms free) where
  pub used-add-free : length (frames ms) + length free ≡ ch.capacity
  used-add-free = omega (
    arith,
    ap length h.layout,
    h.sized,
    length-rotation {0} ch.start ch.shared_mem,
    length-append {0} (frames ms) free,
  )

  pub end_in : ch.end < ch.capacity
  end_in = let e = h.end_at in let s = h.start_in in rw e (omega arith)

  -- `send_bytes` computes the free space as it is, empty and full rings included.
  pub available_space-eq-length : available_space ch ≡ length free
  unfolding available_space
  available_space-eq-length = elim (dec_lt (ch.start + length (frames ms)) ch.capacity) [
    | yes p ↦ ground (
      arith,
      h.end_at,
      h.start_in,
      h.full_when,
      used-add-free,
      mod-eq_of_lt {n = ch.start + length (frames ms)} {m = ch.capacity} p,
    )
    | no p ↦ ground (
      arith,
      h.end_at,
      h.start_in,
      h.full_when,
      used-add-free,
      mod-eq-sub-mod {n = ch.start + length (frames ms)} {m = ch.capacity} (omega arith),
      mod-eq_of_lt {n = ch.start + length (frames ms) - ch.capacity} {m = ch.capacity}
          (omega (arith, h.start_in, used-add-free)),
    )
  ]

  -- So it does while the lock is held.
  pub available_space_locked : (l : ℕ) → available_space (record ch { lock = l }) ≡ length free
  unfolding available_space
  available_space_locked l = available_space-eq-length
