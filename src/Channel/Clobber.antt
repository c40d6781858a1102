-- ===== src/Channel/Clobber.antt =====
-- What the eight bytes copied past a message do where they are not free: they fall on the length of the
-- oldest unread message.
use snakefish.Prelude.{
  ◌==◌, length, take, length-append, length-take, ok, ℕ, ◌+◌, ◌-◌, ◌%◌, ◌≤◌, ◌<◌, ◌≡◌, refl, sym,
  ap, ◌∙◌, true, List, ◌++◌, append_assoc, arith,
}
use snakefish.Channel.{Channel, publish, write_message, send_bytes, sem_value_max}
use snakefish.Channel.Bytes.{add_size, word_size}
use snakefish.Channel.Rotation.{rotation, rotation-shift, take-append, take-append_ge}
use snakefish.Channel.Copies.{store-within}
use snakefish.Channel.Queue.{Holds, available_space_locked}
use snakefish.Channel.Send.Lengths.{room, header, start_again, write_message-publish}

module _ (ch : Channel) (ms : List (List ℕ)) (free m stray : List ℕ) (h : Holds ch ms free)
    (m_pos : 0 < length m) (fills : 8 + length m ≡ length free)
    (inside : (ch.end + 8) % ch.capacity + (8 + length m) ≤ ch.capacity)
    (readable : 8 ≤ length stray) (ready : ch.n_unread < sem_value_max) where
  abbrev tail : ℕ
  tail = (ch.end + 8) % ch.capacity

  fits : 8 + length m ≤ length free
  fits = omega arith

  -- The channel once the message is written, its memory being `mem'`.
  abbrev filled : List ℕ → Channel
  filled mem' = record ch {
    shared_mem = mem';
    end = (tail + length m) % ch.capacity;
    full = true;
    n_unread = ch.n_unread + 1;
  }

  published :
      (mem' : List ℕ)
      → publish
          (m ++ stray)
          (length m)
          ((8 + length m) == length free)
          ((tail + length m) % ch.capacity)
          (record ch { lock = 0; shared_mem = mem' })
        ≡ (ok tt, filled mem')
  unfolding publish
  published mem' = ground (arith, ready, fills, h.unlocked)

  overwritten :
      (mem' rest : List ℕ)
      → length mem' ≡ ch.capacity
      → tail < ch.capacity
      → rotation tail mem' ≡ take (8 + length m) (m ++ stray) ++ rest
      → take 8 (rotation ch.start mem') ≡ take 8 stray
  overwritten mem' rest kept inside_tail rot =
      ap (λ t. take 8 (rotation t mem'))
        (sym (start_again ch ms free h m stray m_pos fits (length m) fills))
      ∙ ap (take 8) (
          rotation-shift tail (length m) ch.capacity mem' m (take 8 stray ++ rest) kept inside_tail
            (rot
              ∙ ap (λ t. t ++ rest) (take-append_ge (8 + length m) 8 m stray (omega arith))
              ∙ append_assoc m (take 8 stray) rest)
            refl
          ∙ append_assoc (take 8 stray) rest m)
      ∙ take-append 8 (take 8 stray) (rest ++ m) (omega (arith, length-take {0} 8 stray))

  written_over :
      (mem' : List ℕ) × (write_message
          (m ++ stray)
          (length m)
          (8 + length m)
          (length free)
          (record ch { lock = 0 })
        ≡ (ok tt, filled mem'))
      × (take 8 (rotation ch.start mem') ≡ take 8 stray)
  written_over =
      let r = room ch ms free h m stray m_pos fits in
      let (mem, hd) = header ch ms free h m stray m_pos fits in
      let (mem', e, kept, rot) =
        store-within ch.capacity tail (length m) (8 + length m) mem (m ++ stray) hd.kept m_pos
          (omega arith) inside (omega (arith, length-append {0} m stray)) in
      (
        mem',
        write_message-publish (record ch { lock = 0 }) (m ++ stray) mem mem' (length m)
              (8 + length m) (length free) tail ((tail + length m) % ch.capacity)
              (ap (λ t. t % ch.capacity) (omega arith)) (ap (λ t. t % ch.capacity) (omega arith))
              hd.written e
            ∙ published mem',
        overwritten mem' _ kept (omega arith) rot,
      )

  overwritten_send :
      (ch' : Channel) × (send_bytes (m ++ stray) (length m) ch ≡ (ok tt, ch'))
      × (ch'.start ≡ ch.start)
      × (take 8 (rotation ch'.start ch'.shared_mem) ≡ take 8 stray)
  unfolding send_bytes
  overwritten_send =
      let r = room ch ms free h m stray m_pos fits in
      let (mem', e, over) = written_over in
      let needed : add_size word_size (length m) ≡ 8 + length m = omega arith in
      let taken : ch.lock - 1 ≡ 0 = omega (arith, h.unlocked) in
      (
        filled mem',
        rw taken (ground (arith, needed, h.unlocked, available_space_locked ch ms free h 0, e)),
        refl,
        over,
      )

-- A message that takes exactly the free space and does not go round is sent, and the first eight
-- bytes at `start`, the length of the oldest unread message if there is one, are then what lies behind
-- the message in the sender's memory.
pub send_bytes-clobber :
    (ch : Channel) (ms : List (List ℕ)) (free m stray : List ℕ)
    → Holds ch ms free
    → 0 < length m
    → 8 + length m ≡ length free
    → (ch.end + 8) % ch.capacity + (8 + length m) ≤ ch.capacity
    → 8 ≤ length stray
    → ch.n_unread < sem_value_max
    → (ch' : Channel) × (send_bytes (m ++ stray) (length m) ch ≡ (ok tt, ch'))
      × (ch'.start ≡ ch.start)
      × (take 8 (rotation ch'.start ch'.shared_mem) ≡ take 8 stray)
send_bytes-clobber ch ms free m stray h m_pos fills inside readable ready =
    overwritten_send ch ms free m stray h m_pos fills inside readable ready
