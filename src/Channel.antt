-- ===== src/Channel.antt =====
-- src/channel.h, src/channel.cpp: a channel of byte messages in shared memory, a ring of `capacity`
-- bytes between `start` and `end`, each message behind its length in eight bytes.
pub mod Bytes
pub mod Rotation
pub mod Queue
pub mod Receive
pub mod Send
pub mod Refuse
pub mod Clobber
pub mod Start
pub mod Objects
pub mod Concurrent
mod Tests
mod Copies
use mathlib.Core.Option
use snakefish.Prelude.{
  ltb, ◌==◌, if◌then◌else◌, drop, replicate, Result, overflow_error, out_of_range, runtime_error,
  blocked, undefined, ok, err, ℕ, ◌+◌, ◌-◌, ◌%◌, ◌^◌, Bool, true, false, Option, none, some, List,
  ◌++◌, map,
}
use snakefish.Channel.Bytes.{sub_size, add_size, word_size, encode, decode, memcpy, read}

-- The members of `class channel`. The four that lie in memory shared between processes and the
-- semaphores' counts are held by value: one record is the channel that all processes see.
pub record Channel : Type 0 where
  pub shared_mem : List ℕ
  pub lock : ℕ
  pub start : ℕ
  pub end : ℕ
  pub full : Bool
  pub n_unread : ℕ
  pub capacity : ℕ

-- `channel::channel`: anonymous shared memory is zeroed. The memory is the `size` bytes that were asked for; what
-- `mmap` maps behind them, up to the end of a page, is not in the model, and `undefined` is a copy that reaches it.
unfoldable pub new : ℕ → Channel
new size = record {
  shared_mem = replicate size 0;
  lock = 1;
  start = 0;
  end = 0;
  full = false;
  n_unread = 0;
  capacity = size;
}

-- A call's result, beside the channel that it leaves.
abbrev pub Step : Type 0 → Type 0
Step A = Result A × Channel

-- `acquire_lock`; with the lock taken by a process that keeps it the call never returns.
abbrev pub locked : {A : Type 0} → (Channel → Step A) → Channel → Step A
locked body ch = if ch.lock == 0 then (err blocked, ch) else body (record ch { lock = ch.lock - 1 })

-- `release_lock`
abbrev pub release : Channel → Channel
release ch = record ch { lock = ch.lock + 1 }

-- The bytes that `send_bytes` may use, by where `start` and `end` are.
unfoldable pub available_space : Channel → ℕ
available_space ch =
    if ltb ch.start ch.end
    then ch.capacity - (ch.end - ch.start)
    else if ltb ch.end ch.start
    then ch.start - ch.end
    else if ch.full
    then 0
    else ch.capacity

-- A copy into the ring at `at`, which goes round if `next`, the position behind `len` bytes, is not
-- above `at`. `amount` is what is copied where it does not go round.
unfoldable pub store : ℕ → List ℕ → ℕ → ℕ → ℕ → ℕ → List ℕ → Option (List ℕ)
store capacity mem at next len amount source =
    if ltb at next
    then memcpy mem at source amount
    else Option.bind (memcpy mem at source (capacity - at))
        λ mem'. memcpy mem' 0 (drop (capacity - at) source) (sub_size len (capacity - at))

-- A copy out of the ring, by the same test.
unfoldable pub fetch : ℕ → List ℕ → ℕ → ℕ → ℕ → Option (List ℕ)
fetch capacity mem at next len =
    if ltb at next
    then read mem at len
    else Option.bind (read mem at (capacity - at))
        λ first. Option.map (λ second. first ++ second) (read mem 0 (sub_size len (capacity - at)))

-- `sem_post` fails at `SEM_VALUE_MAX`, 2^31 - 1 where this runs.
abbrev pub sem_value_max : ℕ
sem_value_max = 2 ^ 31 - 1

module _ (source : List ℕ) (len : ℕ) where
  -- The tail of `send_bytes`: `end` is stored, the unread message counted, the lock released.
  unfoldable pub publish : Bool → ℕ → Channel → Step (Unit {0})
  publish fills new_end ch =
      let ch' = record ch { full = if fills then true else ch.full; end = new_end } in
      if ltb ch.n_unread sem_value_max
      then (ok tt, release (record ch' { n_unread = ch.n_unread + 1 }))
      else (err runtime_error, release ch')

  -- Behind the guard: the length goes to `end`, then the message behind it. The second copy takes
  -- `n` bytes, eight more than the message has, where it does not go round.
  unfoldable pub write_message : ℕ → ℕ → Channel → Step (Unit {0})
  unfolding publish store
  write_message n available ch =
      let tail = add_size ch.end word_size % ch.capacity in
      let new_end = add_size tail len % ch.capacity in
      elim (Option.bind
        (store ch.capacity ch.shared_mem ch.end tail word_size word_size (encode 8 len))
        λ mem. store ch.capacity mem tail new_end len n source) [
          | none ↦ (err undefined, ch)
          | some mem ↦ publish (n == available) new_end (record ch { shared_mem = mem })
        ]

  -- `channel::send_bytes(bytes, len)`: `source` is the memory that can be read from `bytes` on.
  unfoldable pub send_bytes : Channel → Step (Unit {0})
  send_bytes ch =
      if len == 0
      then (ok tt, ch)
      else locked
          (λ ch'.
            let n = add_size word_size len in
            if ltb (available_space ch') n
            then (err overflow_error, release ch')
            else write_message n (available_space ch') ch')
          ch

-- Behind the semaphore and the lock: the length is read at `start`, then that many bytes behind it.
unfoldable pub read_message : Channel → Step (List ℕ)
unfolding fetch
read_message ch =
    let head = add_size ch.start word_size % ch.capacity in
    elim (fetch ch.capacity ch.shared_mem ch.start head word_size) [
      | none ↦ (err undefined, ch)
      | some len_bytes ↦
          let len = decode len_bytes in
          let new_start = add_size head len % ch.capacity in
          elim (fetch ch.capacity ch.shared_mem head new_start len) [
            | none ↦ (err undefined, ch)
            | some bytes ↦ (ok bytes, release (record ch { full = false; start = new_start }))
          ]
    ]

-- `channel::receive_bytes(block)`
unfoldable pub receive_bytes : Bool → Channel → Step (List ℕ)
unfolding read_message
receive_bytes block ch =
    if ch.n_unread == 0
    then (err (if block then blocked else out_of_range), ch)
    else locked read_message (record ch { n_unread = ch.n_unread - 1 })
