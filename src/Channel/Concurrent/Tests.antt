-- ===== src/Channel/Concurrent/Tests.antt =====
-- A send of one byte and a receive that claims it before the send has given the lock back.
use snakefish.Prelude.{replicate, length, ℕ, ◌+◌, ◌<◌, ◌≡◌, refl, false, List, [], ◌∷◌, ◌++◌, arith}
use snakefish.Channel.{Channel, new, available_space, store, sem_value_max}
use snakefish.Channel.Bytes
use mathlib.Core.Option
use snakefish.Channel.Queue.{Holds}
use snakefish.Channel.Start.{new-Holds}
use snakefish.Channel.Concurrent.{
  Stage, sending, copied, counting, leaving, System, Step, Reach, here, later, quiet, copies,
  send_called, send_enters, send_copies, send_stores, send_counts, receive_claims,
}
use snakefish.Channel.Concurrent.Stages.{IsSafe}
use snakefish.Channel.Concurrent.Messages.{AllSafe, Reach-Holds}
use snakefish.Channel.Concurrent.Progress.{IsSafeNow, Next, GoesOn, to_do, Reach-GoesOn}

abbrev source : List ℕ
source = 5 ∷ replicate 8 9

abbrev memory : List ℕ
memory = 1 ∷ replicate 7 0 ++ (5 ∷ replicate 8 9 ++ replicate 15 0)

abbrev at : ℕ → List ℕ → ℕ → ℕ → ℕ → List (List ℕ × ℕ) → List Stage → List (List ℕ) → System
at lock mem end n_unread claims waiting inside sent = record {
  channel = record {
    shared_mem = mem;
    lock = lock;
    start = 0;
    end = end;
    full = false;
    n_unread = n_unread;
    capacity = 32;
  };
  waiting = waiting;
  claims = claims;
  inside = inside;
  sent = sent;
  received = [];
}

abbrev zeros : List ℕ
zeros = replicate 32 0

abbrev one : List (List ℕ)
one = (5 ∷ []) ∷ []

abbrev claimed_early : System
claimed_early = at 0 memory 9 0 1 [] (leaving ∷ []) one

-- The states on the way, from the call of the send to its post.
abbrev called : System
called = at 1 zeros 0 0 0 ((source, 1) ∷ []) [] []

abbrev entered : System
entered = at 0 zeros 0 0 0 [] (sending source 1 ∷ []) []

abbrev in_memory : System
in_memory = at 0 memory 0 0 0 [] (copied false 9 ∷ []) one

abbrev stored : System
stored = at 0 memory 9 0 0 [] (counting ∷ []) one

abbrev posted : System
posted = at 0 memory 9 1 0 [] (leaving ∷ []) one

reach_entered : Reach (quiet (new 32)) entered
unfolding quiet new
reach_entered =
    later {t = called} (later here (send_called source 1 (omega arith) refl))
      (send_enters source 1 [] [] refl (omega arith) refl)

reach_early : Reach (quiet (new 32)) claimed_early
unfolding quiet new copies available_space reach_entered snakefish.Channel.Bytes.encode
    snakefish.Channel.Bytes.memcpy store Option.bind
reach_early =
    later {t = posted}
      (later {t = stored}
        (later {t = in_memory}
          (later {t = entered} reach_entered
            (send_copies source 1 [] [] memory refl refl refl refl))
          (send_stores false 9 [] [] refl refl))
        (send_counts [] [] refl (omega arith) refl))
      (receive_claims (omega arith) refl)

source-IsSafe : IsSafe source 1 (entered.channel)
unfolding available_space
source-IsSafe = record {
  some_bytes = omega arith;
  readable = omega arith;
  sized = omega arith;
  slack = λ p. (omega arith, omega arith, omega arith);
}

all_safe : AllSafe reach_early
unfolding reach_early
all_safe = ((((((tt, tt), tt), source-IsSafe), tt), tt), tt)

Reach-Holds_example :
    (claimed_early.channel.lock + length claimed_early.inside ≡ 1)
    × (ms : List (List ℕ)) × (free' : List ℕ) × (one ≡ [] ++ ms)
    × (claimed_early.inside ≡ []
        → Holds (record (claimed_early.channel) { n_unread = 0 + 1 }) ms free')
    × ((front back : List Stage)
        → claimed_early.inside ≡ front ++ (counting ∷ back)
        → claimed_early.channel.n_unread < sem_value_max)
unfolding new
Reach-Holds_example =
    Reach-Holds (new 32) zeros claimed_early reach_early (new-Holds 32 (omega arith) (omega arith))
      (omega arith) all_safe

nobody_sending : IsSafeNow claimed_early
nobody_sending source len e = absurd (cc)

Reach-GoesOn_example :
    (0 < 0 + (1 + 1) → Next claimed_early)
    × ((t : System) (st : Step claimed_early t) → GoesOn st → to_do t < to_do claimed_early)
unfolding new
Reach-GoesOn_example =
    Reach-GoesOn (new 32) zeros claimed_early reach_early (new-Holds 32 (omega arith) (omega arith))
      (omega arith) all_safe nobody_sending
