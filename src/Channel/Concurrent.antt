-- ===== src/Channel/Concurrent.antt =====
-- Calls of `send_bytes` and `receive_bytes` of src/channel.cpp under way in many processes at once. Each step is
-- what one of them does up to its next use of a semaphore or store to the shared indices.
pub mod Stages
pub mod Exclusion
pub mod Messages
pub mod Progress
mod Tests
use mathlib.Core.Option
use snakefish.Prelude.{
  ltb, ◌==◌, if◌then◌else◌, take, ℕ, ◌+◌, ◌-◌, ◌%◌, ◌<◌, ◌≤◌, ◌≡◌, Bool, true, false, Option, none,
  some, List, [], ◌∷◌, ◌++◌,
}
use snakefish.Channel.{Channel, release, available_space, store, fetch, sem_value_max}
use snakefish.Channel.Bytes.{add_size, word_size, encode, decode}

-- The bytes of `send_bytes` on their way: where the message ends, and the memory once both copies are made.
abbrev pub new_end : ℕ → Channel → ℕ
new_end len ch = add_size (add_size ch.end word_size % ch.capacity) len % ch.capacity

unfoldable pub copies : List ℕ → ℕ → Channel → Option (List ℕ)
copies source len ch =
    let tail = add_size ch.end word_size % ch.capacity in
    Option.bind (store ch.capacity ch.shared_mem ch.end tail word_size word_size (encode 8 len))
      λ mem. store ch.capacity mem tail (new_end len ch) len (add_size word_size len) source

-- The bytes that `receive_bytes` copies out, and the start behind them.
unfoldable pub fetches : Channel → Option (List ℕ × ℕ)
fetches ch =
    let head = add_size ch.start word_size % ch.capacity in
    elim (fetch ch.capacity ch.shared_mem ch.start head word_size) [
      | none ↦ none
      | some len_bytes ↦
          let new_start = add_size head (decode len_bytes) % ch.capacity in
          elim (fetch ch.capacity ch.shared_mem head new_start (decode len_bytes)) [
            | none ↦ none
            | some bytes ↦ some (bytes, new_start)
          ]
    ]

-- How far a call has come that has the lock.
pub data Stage : Type 0 where
  sending : List ℕ → ℕ → Stage
  copied : Bool → ℕ → Stage
  counting : Stage
  receiving : Stage
  fetched : List ℕ → ℕ → Stage
  leaving : Stage

-- The channel, the sends that wait for the lock, how many receives have taken an unread message off the
-- semaphore and wait for the lock, and the calls that have it. `sent` and `received` are the messages
-- copied in and out so far.
pub record System : Type 0 where
  pub channel : Channel
  pub waiting : List (List ℕ × ℕ)
  pub claims : ℕ
  pub inside : List Stage
  pub sent : List (List ℕ)
  pub received : List (List ℕ)

abbrev pub take_lock : Channel → Channel
take_lock ch = record ch { lock = ch.lock - 1 }

pub data Step (s t : System) : Type 0 where
  send_called :
      (source : List ℕ) (len : ℕ)
      → 0 < len
      → t ≡ record s { waiting = (source, len) ∷ s.waiting }
      → Step s t
  send_enters :
      (source : List ℕ) (len : ℕ) (front back : List (List ℕ × ℕ))
      → s.waiting ≡ front ++ ((source, len) ∷ back)
      → 0 < s.channel.lock
      → t ≡ record s {
        waiting = front ++ back;
        channel = take_lock s.channel;
        inside = sending source len ∷ s.inside;
      }
      → Step s t
  send_refused :
      (source : List ℕ) (len : ℕ) (front back : List Stage)
      → s.inside ≡ front ++ (sending source len ∷ back)
      → ltb (available_space s.channel) (add_size word_size len) ≡ true
      → t ≡ record s { channel = release s.channel; inside = front ++ back }
      → Step s t
  send_copies :
      (source : List ℕ) (len : ℕ) (front back : List Stage) (mem : List ℕ)
      → s.inside ≡ front ++ (sending source len ∷ back)
      → ltb (available_space s.channel) (add_size word_size len) ≡ false
      → copies source len s.channel ≡ some mem
      → t ≡ record s {
        channel = record (s.channel) { shared_mem = mem };
        inside =
            front
            ++ (copied (add_size word_size len == available_space s.channel) (new_end len s.channel)
                ∷ back);
        sent = s.sent ++ (take len source ∷ []);
      }
      → Step s t
  send_stores :
      (fills : Bool) (end : ℕ) (front back : List Stage)
      → s.inside ≡ front ++ (copied fills end ∷ back)
      → t ≡ record s {
        channel = record (s.channel) { full = if fills then true else s.channel.full; end = end };
        inside = front ++ (counting ∷ back);
      }
      → Step s t
  send_counts :
      (front back : List Stage)
      → s.inside ≡ front ++ (counting ∷ back)
      → s.channel.n_unread < sem_value_max
      → t ≡ record s {
        channel = record (s.channel) { n_unread = s.channel.n_unread + 1 };
        inside = front ++ (leaving ∷ back);
      }
      → Step s t
  send_fails :
      (front back : List Stage)
      → s.inside ≡ front ++ (counting ∷ back)
      → sem_value_max ≤ s.channel.n_unread
      → t ≡ record s { channel = release s.channel; inside = front ++ back }
      → Step s t
  receive_claims :
      0 < s.channel.n_unread
      → t ≡ record s {
        channel = record (s.channel) { n_unread = s.channel.n_unread - 1 };
        claims = s.claims + 1;
      }
      → Step s t
  receive_empty : s.channel.n_unread ≡ 0 → t ≡ s → Step s t
  receive_enters :
      0 < s.claims
      → 0 < s.channel.lock
      → t ≡ record s {
        claims = s.claims - 1;
        channel = take_lock s.channel;
        inside = receiving ∷ s.inside;
      }
      → Step s t
  receive_fetches :
      (front back : List Stage) (bytes : List ℕ) (start : ℕ)
      → s.inside ≡ front ++ (receiving ∷ back)
      → fetches s.channel ≡ some (bytes, start)
      → t ≡ record s {
        inside = front ++ (fetched bytes start ∷ back);
        received = s.received ++ (bytes ∷ []);
      }
      → Step s t
  receive_stores :
      (front back : List Stage) (bytes : List ℕ) (start : ℕ)
      → s.inside ≡ front ++ (fetched bytes start ∷ back)
      → t ≡ record s {
        channel = record (s.channel) { full = false; start = start };
        inside = front ++ (leaving ∷ back);
      }
      → Step s t
  leaves :
      (front back : List Stage)
      → s.inside ≡ front ++ (leaving ∷ back)
      → t ≡ record s { channel = release s.channel; inside = front ++ back }
      → Step s t

pub data Reach (s : System) : System → Type 0 where
  here : Reach s s
  later : {t u : System} → Reach s t → Step t u → Reach s u

-- No call under way.
unfoldable pub quiet : Channel → System
quiet ch = record { channel = ch; waiting = []; claims = 0; inside = []; sent = []; received = [] }
