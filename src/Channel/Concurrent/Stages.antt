-- ===== src/Channel/Concurrent/Stages.antt =====
-- The stages of a call, one after another with no other call in between, are `send_bytes` and `receive_bytes`.
use snakefish.Prelude.{
  Option-cases, inl, inr, err, undefined, take, drop, length-take, length-drop, take-append-drop,
  sym, ap, ◌∙◌, ltb, ◌^◌, ◌==◌, if◌then◌else◌, length, ok, ℕ, ◌+◌, ◌-◌, ◌%◌, ◌<◌, ◌≤◌, ◌≡◌,
  Option-cases, inl, inr, Bool, true, false, none, some, List, [], ◌∷◌, ◌++◌, arith,
}
use mathlib.Core.Path.{subst, ap₂}
use snakefish.Channel.{
  Channel, available_space, send_bytes, receive_bytes, write_message, publish, sem_value_max,
}
use snakefish.Channel.Bytes.{add_size, word_size}
use snakefish.Channel.Queue.{Holds, frame, available_space-eq-length}
use snakefish.Channel.Send.{send_bytes-Holds}
use snakefish.Channel.Receive.{receive_bytes-Holds}
use snakefish.Channel.Concurrent.{copies, fetches, new_end}

pub send_bytes-stages :
    (source : List ℕ) (len : ℕ) (ch : Channel) {mem : List ℕ}
    → ch.lock ≡ 1
    → 0 < len
    → ch.n_unread < sem_value_max
    → ltb (available_space ch) (add_size word_size len) ≡ false
    → copies source len ch ≡ some mem
    → send_bytes source len ch ≡ (
      ok tt,
      record ch {
        shared_mem = mem;
        end = new_end len ch;
        full = if add_size word_size len == available_space ch then true else ch.full;
        n_unread = ch.n_unread + 1;
      },
    )
unfolding send_bytes write_message publish copies available_space
send_bytes-stages source len ch l p n room e = ground arith

pub receive_bytes-stages :
    (block : Bool) (ch : Channel) {bytes : List ℕ} {start : ℕ}
    → ch.lock ≡ 1
    → 0 < ch.n_unread
    → fetches ch ≡ some (bytes, start)
    → receive_bytes block ch
      ≡ (ok bytes, record ch { full = false; start = start; n_unread = ch.n_unread - 1 })
unfolding receive_bytes fetches
receive_bytes-stages block ch l n e = ground arith

send_bytes-none :
    (source : List ℕ) (len : ℕ) (ch : Channel)
    → ch.lock ≡ 1
    → 0 < len
    → ltb (available_space ch) (add_size word_size len) ≡ false
    → copies source len ch ≡ none
    → (send_bytes source len ch).0 ≡ err undefined
unfolding send_bytes write_message copies available_space
send_bytes-none source len ch l p room e = ground arith

receive_bytes-none :
    (ch : Channel)
    → ch.lock ≡ 1
    → 0 < ch.n_unread
    → fetches ch ≡ none
    → (receive_bytes true ch).0 ≡ err undefined
unfolding receive_bytes fetches
receive_bytes-none ch l n e = ground arith

-- There is a message, the sender's memory has it, and where the copy does not go round also the eight bytes behind it, which
-- fit into the ring and into what is free there.
pub record IsSafe (source : List ℕ) (len : ℕ) (ch : Channel) : Type 0 where
  pub some_bytes : 0 < len
  pub readable : len ≤ length source
  pub sized : len < 2 ^ 63
  pub slack :
      (ch.end + 8) % ch.capacity + len < ch.capacity
      → ((ch.end + 8) % ch.capacity + (8 + len) ≤ ch.capacity)
        × (8 + len ≤ length source)
        × (16 + len ≤ available_space ch)

-- A safe send, alone.
sends :
    (source : List ℕ) (len : ℕ) (ch : Channel) (ms : List (List ℕ)) (free : List ℕ)
    → Holds ch ms free
    → IsSafe source len ch
    → ch.n_unread < sem_value_max
    → ltb (available_space ch) (add_size word_size len) ≡ false
    → (ch' : Channel) × (free' : List ℕ) × (send_bytes source len ch ≡ (ok tt, ch'))
      × Holds ch' (ms ++ take len source ∷ []) free'
sends source len ch ms free h safe ready room =
    let m = take len source in
    let stray = drop len source in
    let space = available_space-eq-length ch ms free h in
    let l : length m ≡ len = omega (arith, length-take {0} len source, safe.readable) in
    let r : length stray + len ≡ length source =
      omega (arith, length-drop {0} len source, safe.readable) in
    let fits : 8 + len ≤ length free = ground (arith, space, room, safe.sized) in
    let (ch', free', sent, holds, _) =
      send_bytes-Holds ch ms free m stray h (omega (arith, safe.some_bytes)) (omega arith)
        (λ p. let q = safe.slack (omega arith) in (omega arith, omega arith, omega arith)) ready in
    let same : send_bytes (m ++ stray) (length m) ch ≡ send_bytes source len ch =
      ap₂ (λ a b. send_bytes a b ch) (take-append-drop len source) l in
    (ch', free', sym same ∙ sent, holds)

-- Behind the two copies of a send, once its stores and its post are made, the message is the newest.
pub copied-Holds :
    (source : List ℕ) (len : ℕ) (ch : Channel) (ms : List (List ℕ)) (free mem : List ℕ)
    → Holds ch ms free
    → IsSafe source len ch
    → ch.n_unread < sem_value_max
    → ltb (available_space ch) (add_size word_size len) ≡ false
    → copies source len ch ≡ some mem
    → (free' : List ℕ) × Holds
        (record ch {
          shared_mem = mem;
          end = new_end len ch;
          full = if add_size word_size len == available_space ch then true else ch.full;
          n_unread = ch.n_unread + 1;
        })
        (ms ++ take len source ∷ [])
        free'
copied-Holds source len ch ms free mem h safe ready room e =
    let (ch', free', sent, holds) = sends source len ch ms free h safe ready room in
    (
      free',
      subst (λ c. Holds c (ms ++ take len source ∷ []) free')
          (ap (λ r. r.1)
            (sym sent ∙ send_bytes-stages source len ch h.unlocked safe.some_bytes ready room e))
          holds,
    )

-- Behind the two copies of a receive, once its stores are made, the oldest message is gone, which it has.
pub fetched-Holds :
    (ch : Channel) (ms : List (List ℕ)) (free bytes : List ℕ) (start : ℕ)
    → Holds ch ms free
    → 0 < ch.n_unread
    → fetches ch ≡ some (bytes, start)
    → (rest : List (List ℕ)) × (ms ≡ bytes ∷ rest)
      × Holds
          (record ch { full = false; start = start; n_unread = ch.n_unread - 1 })
          rest
          (free ++ frame bytes)
fetched-Holds ch [] free bytes start h p e = absurd (omega (arith, h.counted))
fetched-Holds ch (m ∷ rest) free bytes start h p e =
    let (ch', got, holds) = receive_bytes-Holds true ch m rest free h in
    let same = sym got ∙ receive_bytes-stages true ch h.unlocked p e in
    let is_oldest : m ≡ bytes = cc in
    (
      rest,
      ap (λ b. b ∷ rest) is_oldest,
      subst (λ c. Holds c rest (free ++ frame bytes)) (ap (λ r. r.1) same)
          (subst (λ b. Holds ch' rest (free ++ frame b)) is_oldest holds),
    )

-- Such a copy stays in bounds.
pub copies-some :
    (source : List ℕ) (len : ℕ) (ch : Channel) (ms : List (List ℕ)) (free : List ℕ)
    → Holds ch ms free
    → IsSafe source len ch
    → ch.n_unread < sem_value_max
    → ltb (available_space ch) (add_size word_size len) ≡ false
    → (mem : List ℕ) × (copies source len ch ≡ some mem)
copies-some source len ch ms free h safe ready room = elim (Option-cases (copies source len ch)) [
  | inr found ↦ found
  | inl e ↦
      let (ch', free', sent, _) = sends source len ch ms free h safe ready room in
      cc (sent, send_bytes-none source len ch h.unlocked safe.some_bytes room e)
]

pub fetches-some :
    (ch : Channel) (ms : List (List ℕ)) (free : List ℕ)
    → Holds ch ms free
    → 0 < ch.n_unread
    → (bytes : List ℕ) × (start : ℕ) × (fetches ch ≡ some (bytes, start))
fetches-some ch [] free h p = absurd (omega (arith, h.counted))
fetches-some ch (m ∷ ms) free h p = elim (Option-cases (fetches ch)) [
  | inr ((bytes, start), e) ↦ (bytes, start, e)
  | inl e ↦
      let (ch', got, _) = receive_bytes-Holds true ch m ms free h in
      cc (got, receive_bytes-none ch h.unlocked p e)
]
