-- ===== src/Channel/Tests.antt =====
-- The channel on concrete inputs: runs, and the theorems where their hypotheses hold.
use snakefish.Prelude.{
  some, Result, ◌<◌, none, length, take, replicate, overflow_error, blocked, undefined, ok, err, ℕ,
  ◌+◌, ◌≡◌, refl, true, false, List, [], ◌∷◌, ◌++◌, arith,
}
use mathlib.Core.Option
use snakefish.Channel.{
  Channel, new, available_space, write_message, send_bytes, receive_bytes, sem_value_max,
}
use snakefish.Channel.Bytes.{encode, decode, memcpy}
use snakefish.Channel.Rotation.{rotation}
use snakefish.Channel.Queue.{Holds, frame}
use snakefish.Channel.Send.{send_bytes-Holds}
use snakefish.Channel.Receive.{receive_bytes-Holds}
use snakefish.Channel.Refuse.{send_bytes-full}
use snakefish.Channel.Clobber.{send_bytes-clobber}
use snakefish.Channel.Objects.{
  Call, sends, receives, on_queue, on_channel, HasRoom, on_channel-eq-on_queue,
}
use snakefish.Channel.Start.{new-Holds, new-round_trip, send_then_receive}

-- A ring of 24 bytes with the message 7, 8, whose length goes round the end.
abbrev wrapped : Channel
wrapped = record {
  shared_mem = 0 ∷ 0 ∷ 0 ∷ 0 ∷ 7 ∷ 8 ∷ replicate 14 0 ++ (2 ∷ 0 ∷ 0 ∷ 0 ∷ []);
  lock = 1;
  start = 20;
  end = 6;
  full = false;
  n_unread = 1;
  capacity = 24;
}

wrapped-Holds : Holds wrapped ((7 ∷ 8 ∷ []) ∷ []) (replicate 14 0)
unfolding encode
wrapped-Holds = record {
  sized = refl;
  small = omega arith;
  start_in = omega arith;
  unlocked = refl;
  layout = refl;
  end_at = refl;
  full_when = refl;
  counted = refl;
  nonempty = (omega arith, tt);
}

-- Three bytes are sent, and received by a call that does not block.
send_receive_run :
    (receive_bytes false (send_bytes (1 ∷ 2 ∷ 3 ∷ replicate 8 9) 3 (new 32)).1).0
    ≡ ok (1 ∷ 2 ∷ 3 ∷ [])
unfolding receive_bytes send_bytes new available_space write_message encode decode memcpy
    Option.bind snakefish.Channel.Bytes.read
send_receive_run = refl

receive_bytes-Holds_example :
    (ch' : Channel) × (receive_bytes true wrapped ≡ (ok (7 ∷ 8 ∷ []), ch'))
    × Holds ch' [] (replicate 14 0 ++ frame (7 ∷ 8 ∷ []))
receive_bytes-Holds_example =
    receive_bytes-Holds true wrapped (7 ∷ 8 ∷ []) [] (replicate 14 0) wrapped-Holds

-- The payload of one byte ends well before the end of the memory, and leaves five bytes free.
send_bytes-Holds_example :
    (ch' : Channel) × (free' : List ℕ) × (send_bytes (5 ∷ replicate 8 9) 1 (new 32) ≡ (ok tt, ch'))
    × Holds ch' ((5 ∷ []) ∷ []) free'
    × (length free' + 9 ≡ 32)
unfolding new
send_bytes-Holds_example =
    send_bytes-Holds (new 32) [] (replicate 32 0) (5 ∷ []) (replicate 8 9)
      (new-Holds 32 (omega arith) (omega arith)) (omega arith) (omega arith)
      (λ p. (omega arith, omega arith, omega arith)) (omega arith)

new-Holds_example : Holds (new 32) [] (replicate 32 0)
new-Holds_example = new-Holds 32 (omega arith) (omega arith)

new-round_trip_example :
    send_then_receive (4 ∷ 5 ∷ 6 ∷ replicate 8 9) 3 true (new 20) ≡ ok (4 ∷ 5 ∷ 6 ∷ [])
new-round_trip_example =
    new-round_trip 20 (4 ∷ 5 ∷ 6 ∷ []) (replicate 8 9) true (omega arith) (omega arith)
      (omega arith) (omega arith)

send_bytes-full_example : send_bytes (replicate 20 9) 7 wrapped ≡ (err overflow_error, wrapped)
send_bytes-full_example =
    send_bytes-full wrapped ((7 ∷ 8 ∷ []) ∷ []) (replicate 14 0) (replicate 20 9) 7 wrapped-Holds
      (omega arith) (omega arith)

-- A ring of 40 bytes with the message 7, 8 at its end.
abbrev behind : Channel
behind = record {
  shared_mem = replicate 30 0 ++ (2 ∷ 0 ∷ 0 ∷ 0 ∷ 0 ∷ 0 ∷ 0 ∷ 0 ∷ 7 ∷ 8 ∷ []);
  lock = 1;
  start = 30;
  end = 0;
  full = false;
  n_unread = 1;
  capacity = 40;
}

behind-Holds : Holds behind ((7 ∷ 8 ∷ []) ∷ []) (replicate 30 0)
unfolding encode
behind-Holds = record {
  sized = refl;
  small = omega arith;
  start_in = omega arith;
  unlocked = refl;
  layout = refl;
  end_at = refl;
  full_when = refl;
  counted = refl;
  nonempty = (omega arith, tt);
}

-- 22 bytes fill the ring up to its start; the oldest message then has a length of nines.
send_bytes-clobber_example :
    (ch' : Channel) × (send_bytes (replicate 22 1 ++ replicate 8 9) 22 behind ≡ (ok tt, ch'))
    × (ch'.start ≡ 30)
    × (take 8 (rotation ch'.start ch'.shared_mem) ≡ replicate 8 9)
send_bytes-clobber_example =
    send_bytes-clobber behind ((7 ∷ 8 ∷ []) ∷ []) (replicate 30 0) (replicate 22 1) (replicate 8 9)
      behind-Holds (omega arith) refl (omega arith) (omega arith) (omega arith)

-- Objects are bytes, each pickled as itself.
abbrev dumps : ℕ → List ℕ
dumps n = n ∷ []

abbrev stray : ℕ → List ℕ
stray n = replicate 8 9

abbrev loads : List ℕ → Result ℕ
loads [] = err undefined
loads (n ∷ ns) = ok n

abbrev calls : List (Call ℕ)
calls = sends 5 ∷ receives false ∷ receives true ∷ []

one_byte : (n : ℕ) → 0 < length (dumps n)
one_byte n = omega arith

calls-HasRoom : HasRoom dumps stray loads calls (new 32)
unfolding HasRoom new available_space
calls-HasRoom = (
  record {
    fits = omega arith;
    slack = λ p. (omega arith, omega arith, omega arith);
    counts = omega arith;
  },
  tt,
)

on_channel-eq-on_queue_example :
    on_channel dumps stray loads calls (new 32) ≡ ok none ∷ ok (some 5) ∷ err blocked ∷ []
unfolding on_queue
on_channel-eq-on_queue_example =
    on_channel-eq-on_queue dumps stray loads one_byte (λ n. refl) calls [] (new 32) (replicate 32 0)
      (new-Holds 32 (omega arith) (omega arith)) calls-HasRoom
