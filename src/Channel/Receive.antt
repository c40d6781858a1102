-- ===== src/Channel/Receive.antt =====
-- `receive_bytes` takes the oldest message off the queue.
use snakefish.Prelude.{
  length, take, length-append, out_of_range, blocked, ok, err, ℕ, ◌+◌, ◌%◌, ◌^◌, ◌≤◌, ◌<◌, ◌≡◌,
  refl, sym, ap, ◌∙◌, Bool, true, false, some, List, [], ◌∷◌, ◌++◌, append_assoc, arith,
}
use native.Mathlib.Nat.{mod-add-mod}
use snakefish.Channel.{Channel, receive_bytes, fetch}
use snakefish.Channel.Bytes.{encode, decode, length-encode, decode-encode, add_size, word_size}
use snakefish.Channel.Rotation.{rotation, rotation-shift, take-append}
use snakefish.Channel.Copies.{fetch-rotation}
use snakefish.Channel.Queue.{Holds, frame, frames, length-frame, used-add-free}

module _ (ch : Channel) (m : List ℕ) (ms : List (List ℕ)) (free : List ℕ)
    (h : Holds ch (m ∷ ms) free) where
  abbrev after : Channel
  after = record ch {
    start = (ch.start + length (frame m)) % ch.capacity;
    full = false;
    n_unread = length ms;
  }

  pub received-Holds : Holds after ms (free ++ frame m)
  received-Holds = record {
    sized = h.sized;
    small = h.small;
    start_in = let s = h.start_in in omega arith;
    unlocked = h.unlocked;
    layout =
        rotation-shift ch.start (length (frame m)) ch.capacity ch.shared_mem (frame m)
          (frames ms ++ free) h.sized h.start_in
          (h.layout ∙ append_assoc (frame m) (frames ms) free) refl
        ∙ append_assoc (frames ms) free (frame m);
    end_at =
        h.end_at
        ∙ ap (λ t. t % ch.capacity) (omega (arith, length-append {0} (frame m) (frames ms)))
        ∙ sym (mod-add-mod (ch.start + length (frame m)) ch.capacity (length (frames ms)));
    full_when = ground (arith, length-append {0} free (frame m), length-frame m);
    counted = refl;
    nonempty = h.nonempty.1;
  }

  -- The position behind the length.
  abbrev head : ℕ
  head = (ch.start + 8) % ch.capacity

  room :
      (0 < length m)
      × (9 ≤ ch.capacity)
      × (length m < ch.capacity)
      × (ch.capacity ≤ 2 ^ 63)
      × (ch.start < ch.capacity)
  room =
      let u = used-add-free ch (m ∷ ms) free h in
      let p = h.nonempty.0 in
      let s = h.small in
      let t = h.start_in in omega (arith, length-append {0} (frame m) (frames ms), length-frame m)

  head_size : add_size ch.start word_size % ch.capacity ≡ head
  head_size = let r = room in ap (λ t. t % ch.capacity) (omega arith)

  length_fetched : fetch ch.capacity ch.shared_mem ch.start head 8 ≡ some (encode 8 (length m))
  length_fetched =
      let r = room in
      fetch-rotation ch.capacity ch.start 8 ch.shared_mem h.sized h.start_in (omega arith)
        (omega arith) (omega (arith, h.small))
      ∙ ap some (
          ap (take 8) (
            h.layout
            ∙ append_assoc (frame m) (frames ms) free
            ∙ append_assoc (encode 8 (length m)) m _)
          ∙ take-append 8 (encode 8 (length m)) _ (length-encode 8 (length m)))

  head_layout : rotation head ch.shared_mem ≡ m ++ ((frames ms ++ free) ++ encode 8 (length m))
  head_layout =
      rotation-shift ch.start 8 ch.capacity ch.shared_mem (encode 8 (length m))
        (m ++ (frames ms ++ free)) h.sized h.start_in
        (h.layout
          ∙ append_assoc (frame m) (frames ms) free
          ∙ append_assoc (encode 8 (length m)) m (frames ms ++ free))
        (length-encode 8 (length m))
      ∙ append_assoc m (frames ms ++ free) (encode 8 (length m))

  message_fetched :
      fetch ch.capacity ch.shared_mem head ((head + length m) % ch.capacity) (length m) ≡ some m
  message_fetched =
      let r = room in
      fetch-rotation ch.capacity head (length m) ch.shared_mem h.sized (omega arith) r.0 r.2
        (omega (arith, h.small))
      ∙ ap some (ap (take (length m)) head_layout ∙ take-append (length m) m _ refl)

  new_start : add_size head (length m) % ch.capacity ≡ (head + length m) % ch.capacity
  new_start = let r = room in ap (λ t. t % ch.capacity) (omega arith)

  start_after : (head + length m) % ch.capacity ≡ (ch.start + length (frame m)) % ch.capacity
  start_after =
      mod-add-mod (ch.start + 8) ch.capacity (length m)
      ∙ ap (λ t. t % ch.capacity) (omega (arith, length-frame m))

  length_decoded : decode (encode 8 (length m)) ≡ length m
  length_decoded = let r = room in decode-encode 8 (length m) (omega arith)

  received : (block : Bool) → receive_bytes block ch ≡ (ok m, after)
  unfolding receive_bytes
  received block = ground (
    arith, h.counted, h.unlocked, head_size, length_fetched, message_fetched, length_decoded,
    new_start, start_after,
  )

-- On a channel that holds messages a receive, blocking or not, returns the oldest one unchanged,
-- removes it and nothing else, and gives its space back.
pub receive_bytes-Holds :
    (block : Bool) (ch : Channel) (m : List ℕ) (ms : List (List ℕ)) (free : List ℕ)
    → Holds ch (m ∷ ms) free
    → (ch' : Channel) × (receive_bytes block ch ≡ (ok m, ch')) × Holds ch' ms (free ++ frame m)
receive_bytes-Holds block ch m ms free h =
    (after ch m ms free h, received ch m ms free h block, received-Holds ch m ms free h)

-- On an empty channel a blocking receive waits, another raises, and neither changes the channel.
pub receive_bytes-empty :
    (ch : Channel) (free : List ℕ)
    → Holds ch [] free
    → (receive_bytes true ch ≡ (err blocked, ch))
      × (receive_bytes false ch ≡ (err out_of_range, ch))
unfolding receive_bytes
receive_bytes-empty ch free h = (ground (arith, h.counted), ground (arith, h.counted))
