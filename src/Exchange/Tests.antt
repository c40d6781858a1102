-- ===== src/Exchange/Tests.antt =====
-- examples/channel.py and examples/timestamp.py, on some interleavings.
use snakefish.Prelude.{
  ok, ℕ, ◌+◌, ◌*◌, ◌≤◌, ◌≡◌, refl, Bool, true, some, List, [], ◌∷◌, ◌++◌, arith,
}
use snakefish.Examples.Joining.{silent}
use snakefish.Exchange.{
  Sender, t1, t2, Take, System, start, Reach, sends_1, sends_2, receives, finds_nothing, here,
  later,
}
use snakefish.Exchange.Order.{Inv, Reach-Inv}
use snakefish.Exchange.Progress.{moves, Finished, all_received}
use snakefish.Exchange.Objects
use snakefish.Exchange.Objects.{Sent, int_list, str_dict, int_tuple, InOrder, channel_lem}
use snakefish.Exchange.Timestamps
use snakefish.Exchange.Timestamps.{Event, explosion, implosion, timestamp_lem}

-- The tuple is sent and received first.
abbrev tuple_sent : System Sent
tuple_sent = record {
  f1 = Objects.f1;
  f2 = [];
  queue = (t2, int_tuple) ∷ [];
  received = [];
  wanted = 3;
}

abbrev tuple_received : System Sent
tuple_received = record {
  f1 = Objects.f1;
  f2 = [];
  queue = [];
  received = (t2, int_tuple) ∷ [];
  wanted = 2;
}

abbrev oldest :
    {O : Type 0} (fifo : Bool) (m : Sender × O) (q : List (Sender × O)) → Take fifo (m ∷ q) m q
oldest fifo m q = record {
  front = [];
  back = q;
  before = refl;
  after = refl;
  others = refl;
  oldest = λ e. refl;
}

tuple_first : Reach true (start Objects.f1 Objects.f2 3) tuple_received
unfolding start
tuple_first =
    later {t = tuple_sent}
      (later {t = start Objects.f1 Objects.f2 3}
        (later {t = start Objects.f1 Objects.f2 3} here (finds_nothing refl (omega arith) refl))
        (sends_2 int_tuple [] refl refl))
      (receives (t2, int_tuple) [] 2 refl (oldest true (t2, int_tuple) []) refl)

Reach-Inv_example : Inv Objects.f1 Objects.f2 3 tuple_received
Reach-Inv_example = Reach-Inv Objects.f1 Objects.f2 3 tuple_received tuple_first

all_received_example :
    (moves tuple_first ≤ 2 * (2 + 1))
    × ((u : System Sent) × Reach true tuple_received u × Finished Objects.f1 Objects.f2 u)
    × (tuple_received.wanted ≡ 0 → Finished Objects.f1 Objects.f2 tuple_received)
all_received_example = all_received true Objects.f1 Objects.f2 tuple_received tuple_first

channel_lem_example :
    ((u : System Sent) × Reach true tuple_received u × Finished Objects.f1 Objects.f2 u)
    × (tuple_received.wanted ≡ 0 → InOrder (int_tuple ∷ []))
    × (Objects.main 5 6 7 ≡ ok (silent ++ (silent ++ silent)))
    × (Objects.process_main ≡ ok (silent ++ (silent ++ silent)))
channel_lem_example = channel_lem true tuple_received 5 6 7 tuple_first

-- The later event arrives first.
abbrev late_first : System (ℕ × Event)
late_first = record {
  f1 = [];
  f2 = [];
  queue = [];
  received = (t1, (9, explosion)) ∷ (t2, (4, implosion)) ∷ [];
  wanted = 0;
}

abbrev late_sent : System (ℕ × Event)
late_sent = record {
  f1 = [];
  f2 = Timestamps.f2 4;
  queue = (t1, (9, explosion)) ∷ [];
  received = [];
  wanted = 2;
}

abbrev late_received : System (ℕ × Event)
late_received = record {
  f1 = [];
  f2 = Timestamps.f2 4;
  queue = [];
  received = (t1, (9, explosion)) ∷ [];
  wanted = 1;
}

abbrev both_sent : System (ℕ × Event)
both_sent = record {
  f1 = [];
  f2 = [];
  queue = (t2, (4, implosion)) ∷ [];
  received = (t1, (9, explosion)) ∷ [];
  wanted = 1;
}

reach_late : Reach true (start (Timestamps.f1 9) (Timestamps.f2 4) 2) late_first
unfolding start
reach_late =
    later {t = both_sent}
      (later {t = late_received}
        (later {t = late_sent}
          (later {t = start (Timestamps.f1 9) (Timestamps.f2 4) 2} here
            (sends_1 (9, explosion) [] refl refl))
          (receives (t1, (9, explosion)) [] 1 refl (oldest true (t1, (9, explosion)) []) refl))
        (sends_2 (4, implosion) [] refl refl))
      (receives (t2, (4, implosion)) [] 0 refl (oldest true (t2, (4, implosion)) []) refl)

timestamp_lem_example :
    ((u : System (ℕ × Event)) × Reach true late_first u
      × Finished (Timestamps.f1 9) (Timestamps.f2 4) u)
    × (late_first.wanted ≡ 0
        → Timestamps.printed ((t1, (9, explosion)) ∷ (t2, (4, implosion)) ∷ [])
          ≡ some (implosion, explosion))
    × (Timestamps.main 5 6 7 ≡ ok (silent ++ (silent ++ silent)))
    × (Timestamps.process_main ≡ ok (silent ++ (silent ++ silent)))
timestamp_lem_example =
    timestamp_lem true 9 4 late_first 5 6 7 (λ e. absurd (omega arith)) reach_late
