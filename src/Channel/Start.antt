-- ===== src/Channel/Start.antt =====
-- A new channel, and what one message sent through it comes to.
use snakefish.Prelude.{
  length, replicate, length-replicate, Result, ◌>>=◌, ok, ℕ, ◌+◌, ◌%◌, ◌^◌, ◌≤◌, ◌<◌, ◌≡◌, refl,
  sym, Bool, List, [], ◌++◌, append-nil, arith,
}
use native.Mathlib.Nat.{mod-eq_of_lt}
use snakefish.Channel.{Channel, new, send_bytes, receive_bytes}
use snakefish.Channel.Queue.{Holds}
use snakefish.Channel.Send.{send_bytes-Holds}
use snakefish.Channel.Receive.{receive_bytes-Holds}

-- A new channel of a positive size holds no message, and all its bytes are free.
pub new-Holds : (size : ℕ) → 0 < size → size ≤ 2 ^ 63 → Holds (new size) [] (replicate size 0)
unfolding new
new-Holds size pos small = record {
  sized = length-replicate {A = ℕ} size 0;
  small = small;
  start_in = pos;
  unlocked = refl;
  layout = append-nil (replicate size 0);
  end_at = sym (mod-eq_of_lt pos);
  full_when = ground (arith, length-replicate {A = ℕ} size 0);
  counted = refl;
  nonempty = tt;
}

-- The calls of a process that sends a message to an empty channel and of one that then receives.
abbrev pub send_then_receive : List ℕ → ℕ → Bool → Channel → Result (List ℕ)
send_then_receive source len block ch =
    (send_bytes source len ch).0 >>= λ _. (receive_bytes block (send_bytes source len ch).1).0

-- A message sent on a new channel with room for it and its two times eight bytes is received as it
-- was sent, whatever lies behind it in the sender's memory.
pub new-round_trip :
    (size : ℕ) (m stray : List ℕ) (block : Bool)
    → 0 < length m
    → 8 ≤ length stray
    → 16 + length m ≤ size
    → size ≤ 2 ^ 63
    → send_then_receive (m ++ stray) (length m) block (new size) ≡ ok m
unfolding new
new-round_trip size m stray block pos st fits small =
    let free_all = length-replicate {A = ℕ} size 0 in
    let tail_at : (0 + 8) % size ≡ 8 = mod-eq_of_lt (omega arith) in
    let (ch', free', sent, holds, _) =
      send_bytes-Holds (new size) [] (replicate size 0) m stray (new-Holds size (omega arith) small)
        pos (omega arith) (λ p. (omega arith, st, omega arith)) (omega arith) in
    let (ch'', received, _) = receive_bytes-Holds block ch' m [] free' holds in rw (sent, received)
