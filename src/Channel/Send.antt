-- ===== src/Channel/Send.antt =====
-- `send_bytes` puts a message at the end of the queue, if there is room for it and for the eight bytes
-- that are copied past its end.
pub mod Lengths
use snakefish.Prelude.{
  ◌==◌, length, take, drop, length-append, length-take, length-drop, ok, ℕ, ◌+◌, ◌-◌, ◌%◌, ◌≤◌, ◌<◌,
  ◌≡◌, refl, sym, ap, ◌∙◌, inl, inr, some, List, [], ◌∷◌, ◌++◌, append_assoc, arith,
}
use mathlib.Core.Option
use mathlib.Core.Path.{ap₂}
use native.Mathlib.Nat.{mod-add-mod}
use snakefish.Channel.{Channel, store, publish, write_message, send_bytes, sem_value_max}
use snakefish.Channel.Bytes.{encode, add_size, word_size}
use snakefish.Channel.Rotation.{rotation, rotation-shift, drop-append_le, take-append_ge}
use snakefish.Channel.Queue.{
  Holds, frame, frames, frames-append, length-frame, used-add-free, AllNonempty-append,
  available_space_locked,
}
use snakefish.Channel.Send.Lengths.{
  store_lem, write_message-publish, tail, room, Header, header, start_again,
}

module _ (ch : Channel) (ms : List (List ℕ)) (free : List ℕ) (h : Holds ch ms free)
    (m stray : List ℕ) (m_pos : 0 < length m) (fits : 8 + length m ≤ length free) where
  -- The eight bytes past the message: inside the memory, readable at the sender, and free.
  abbrev pub HasSlack : Type 0
  HasSlack =
      tail ch + length m < ch.capacity
      → (tail ch + (8 + length m) ≤ ch.capacity)
        × (8 ≤ length stray)
        × (16 + length m ≤ length free)

  -- The memory once the message is written too, with what is free then.
  record Written (mem mem' free' : List ℕ) : Type 0 where
    written :
        store ch.capacity mem
          (tail ch)
          ((tail ch + length m) % ch.capacity)
          (length m)
          (8 + length m)
          (m ++ stray)
        ≡ some mem'
    kept : length mem' ≡ ch.capacity
    placed : rotation (tail ch) mem' ≡ m ++ ((free' ++ frames ms) ++ encode 8 (length m))
    left : length free' + (8 + length m) ≡ length free

  module _ (slack : HasSlack) where
    -- `k` bytes are copied, `extra` of them behind the message.
    payload_placed :
        (mem mem' : List ℕ) (k extra : ℕ)
        → Header ch ms free h m stray m_pos fits mem
        → k ≡ length m + extra
        → 8 + k ≤ length free
        → rotation (tail ch) mem' ≡ take k (m ++ stray) ++ drop k (rotation (tail ch) mem)
        → rotation (tail ch) mem'
          ≡ m ++ (((take extra stray ++ drop k (drop 8 free)) ++ frames ms) ++ encode 8 (length m))
    payload_placed mem mem' k extra hd e le rot =
        rot
        ∙ ap₂ ◌++◌ (take-append_ge k extra m stray e) (
            ap (drop k) (hd.placed ∙ append_assoc (drop 8 free) (frames ms) (encode 8 (length m)))
            ∙ drop-append_le k (drop 8 free) (frames ms ++ encode 8 (length m))
                (omega (arith, length-drop {0} 8 free)))
        ∙ append_assoc m (take extra stray) _
        ∙ ap (λ t. m ++ t) (simp append_assoc)

    payload_done :
        (mem mem' : List ℕ) (k extra : ℕ)
        → Header ch ms free h m stray m_pos fits mem
        → store ch.capacity mem
            (tail ch)
            ((tail ch + length m) % ch.capacity)
            (length m)
            (8 + length m)
            (m ++ stray)
          ≡ some mem'
        → length mem' ≡ ch.capacity
        → k ≡ length m + extra
        → 8 + k ≤ length free
        → extra ≤ length stray
        → rotation (tail ch) mem' ≡ take k (m ++ stray) ++ drop k (rotation (tail ch) mem)
        → (free' : List ℕ) × Written mem mem' free'
    payload_done mem mem' k extra hd e kept ek le stray_enough rot = (
      take extra stray ++ drop k (drop 8 free),
      record {
        written = e;
        kept = kept;
        placed = payload_placed mem mem' k extra hd ek le rot;
        left = omega (
          arith,
          length-append {0} (take extra stray) (drop k (drop 8 free)),
          length-take {0} extra stray,
          length-drop {0} k (drop 8 free),
          length-drop {0} 8 free,
        );
      },
    )

    payload :
        (mem : List ℕ)
        → Header ch ms free h m stray m_pos fits mem
        → (mem' : List ℕ) × ((free' : List ℕ) × Written mem mem' free')
    payload mem hd =
        let r = room ch ms free h m stray m_pos fits in
        let l = length-append {0} m stray in
        let (mem', k, e, kept, rot, which) =
          store_lem ch.capacity (tail ch) (length m) (8 + length m) mem (m ++ stray) hd.kept
            (omega arith) m_pos (omega arith) (omega (arith, h.small)) (omega arith) (omega arith)
            (λ p. ((slack p).0, omega (arith, slack p))) in
        (
          mem',
          elim which [
            | inl exact ↦
                payload_done mem mem' k 0 hd e kept (omega arith) (omega arith) (omega arith) rot
            | inr (over, p) ↦
                payload_done mem mem' k 8 hd e kept (omega arith) (omega (arith, slack p))
                  (omega (arith, slack p)) rot
          ],
        )

    module _ (mem mem' free' : List ℕ) (hd : Header ch ms free h m stray m_pos fits mem)
        (w : Written mem mem' free') where
      abbrev after : Channel
      after = record ch {
        shared_mem = mem';
        end = (tail ch + length m) % ch.capacity;
        full = (length free' == 0);
        n_unread = length ms + 1;
      }

      sent_layout : rotation ch.start mem' ≡ frames (ms ++ m ∷ []) ++ free'
      sent_layout =
          let r = room ch ms free h m stray m_pos fits in
          ap (λ t. rotation t mem')
            (sym (
              start_again ch ms free h m stray m_pos fits (length m + length free')
                (omega (arith, w.left))))
          ∙ rotation-shift (tail ch) (length m + length free') ch.capacity mem' (m ++ free')
              (frames ms ++ encode 8 (length m)) w.kept (omega arith) (w.placed ∙ simp append_assoc)
              (length-append {0} m free')
          ∙ rw frames-append (simp append_assoc)

      sent-Holds : Holds after (ms ++ m ∷ []) free'
      sent-Holds = record {
        sized = w.kept;
        small = h.small;
        start_in = h.start_in;
        unlocked = h.unlocked;
        layout = sent_layout;
        end_at =
            mod-add-mod (ch.end + 8) ch.capacity (length m)
            ∙ ap (λ t. t % ch.capacity) (omega arith)
            ∙ ap (λ t. (t + (8 + length m)) % ch.capacity) h.end_at
            ∙ mod-add-mod (ch.start + length (frames ms)) ch.capacity (8 + length m)
            ∙ ap (λ t. t % ch.capacity)
                (rw frames-append
                  (omega (arith, length-append {0} (frames ms) (frame m), length-frame m)));
        full_when = refl;
        counted = omega (arith, length-append {0} ms (m ∷ []));
        nonempty = AllNonempty-append ms m h.nonempty m_pos;
      }

      -- The flag is set exactly if the message takes all that was free.
      published :
          ch.n_unread < sem_value_max
          → publish
              (m ++ stray)
              (length m)
              ((8 + length m) == length free)
              ((tail ch + length m) % ch.capacity)
              (record ch { lock = 0; shared_mem = mem' })
            ≡ (ok tt, after)
      unfolding publish
      published ready = ground (arith, ready, h.counted, h.unlocked, h.full_when, w.left)

      written_message :
          ch.n_unread < sem_value_max
          → write_message
              (m ++ stray)
              (length m)
              (8 + length m)
              (length free)
              (record ch { lock = 0 })
            ≡ (ok tt, after)
      written_message ready =
          let r = room ch ms free h m stray m_pos fits in
          write_message-publish (record ch { lock = 0 }) (m ++ stray) mem mem' (length m)
            (8 + length m) (length free) (tail ch) ((tail ch + length m) % ch.capacity)
            (ap (λ t. t % ch.capacity) (omega arith)) (ap (λ t. t % ch.capacity) (omega arith))
            hd.written w.written
          ∙ published ready

      sent : ch.n_unread < sem_value_max → send_bytes (m ++ stray) (length m) ch ≡ (ok tt, after)
      unfolding send_bytes
      sent ready =
          let r = room ch ms free h m stray m_pos fits in
          let u = used-add-free ch ms free h in
          let needed : add_size word_size (length m) ≡ 8 + length m = omega arith in
          let taken : ch.lock - 1 ≡ 0 = omega (arith, h.unlocked) in
          rw taken (
            ground (
              arith,
              needed,
              h.unlocked,
              available_space_locked ch ms free h 0,
              written_message ready,
            ))

-- With room for the frame, and slack for the eight bytes copied past the message where it does not go
-- round, a send appends exactly the message `m` to the queue, and takes up its length and eight bytes.
-- `stray` is what lies behind the message in the sender's memory.
pub send_bytes-Holds :
    (ch : Channel) (ms : List (List ℕ)) (free m stray : List ℕ)
    → Holds ch ms free
    → 0 < length m
    → 8 + length m ≤ length free
    → (let tail = (ch.end + 8) % ch.capacity in
        tail + length m < ch.capacity
        → (tail + (8 + length m) ≤ ch.capacity)
          × (8 ≤ length stray)
          × (16 + length m ≤ length free))
    → ch.n_unread < sem_value_max
    → (ch' : Channel) × (free' : List ℕ) × (send_bytes (m ++ stray) (length m) ch ≡ (ok tt, ch'))
      × Holds ch' (ms ++ m ∷ []) free'
      × (length free' + (8 + length m) ≡ length free)
send_bytes-Holds ch ms free m stray h m_pos fits slack ready =
    let (mem, hd) = header ch ms free h m stray m_pos fits in
    let (mem', rest) = payload ch ms free h m stray m_pos fits slack mem hd in
    let (free', w) = rest in
    (
      after ch ms free h m stray m_pos fits slack mem mem' free' hd w,
      free',
      sent ch ms free h m stray m_pos fits slack mem mem' free' hd w ready,
      sent-Holds ch ms free h m stray m_pos fits slack mem mem' free' hd w,
      w.left,
    )
