-- ===== src/Exchange/Timestamps.antt =====
-- examples/timestamp.py, and examples/multiprocessing/timestamp.py on a `multiprocessing.Queue`. The time stamps are what
-- the clock gave, which both processes read.
use snakefish.Prelude.{
  Result, ok, ◌++◌, ltb, leb, if◌then◌else◌, length, ℕ, ◌≡◌, ap, ◌≢◌, Bool, Option, none, some,
  List, [], ◌∷◌, arith,
}
use snakefish.Examples.{Line}
use snakefish.Examples.Joining.{join_three, join_three_process, silent, join_three_lem}
use snakefish.Exchange.{Sender, t1, t2, from, System, start, Reach}
use snakefish.Exchange.Progress.{Finished, all_received, length-from}

pub data Event : Type 0 where
  explosion implosion : Event

-- What the two processes send, at the time `ts`.
abbrev pub f1 : ℕ → List (ℕ × Event)
f1 ts = (ts, explosion) ∷ []

abbrev pub f2 : ℕ → List (ℕ × Event)
f2 ts = (ts, implosion) ∷ []

-- "… occurred before …", of the two objects received.
unfoldable pub f3 : ℕ × Event → ℕ × Event → Event × Event
f3 (ts1, e1) (ts2, e2) = if leb ts1 ts2 then (e1, e2) else (e2, e1)

abbrev pub printed : List (Sender × (ℕ × Event)) → Option (Event × Event)
printed ((j, m) ∷ (k, n) ∷ []) = some (f3 m n)
printed _ = none

abbrev pub running : ℕ → ℕ → System (ℕ × Event)
running a b = start (f1 a) (f2 b) 2

-- The joins at the end.
abbrev pub main : ℕ → ℕ → ℕ → Result (List Line)
main = join_three

abbrev pub process_main : Result (List Line)
process_main = join_three_process

two-printed :
    (a b : ℕ) (r : List (Sender × (ℕ × Event)))
    → a ≢ b
    → from t1 r ≡ f1 a
    → from t2 r ≡ f2 b
    → length r ≡ 2
    → printed r ≡ some (if ltb a b then (explosion, implosion) else (implosion, explosion))
unfolding f3
two-printed a b [] ne e g l = absurd (omega arith)
two-printed a b (x ∷ []) ne e g l = absurd (omega arith)
two-printed a b (x ∷ y ∷ z ∷ r) ne e g l = absurd (omega arith)
two-printed a b ((t1, x) ∷ (t1, y) ∷ []) ne e g l = absurd (cc)
two-printed a b ((t2, x) ∷ (t2, y) ∷ []) ne e g l = absurd (cc)
two-printed a b ((t1, x) ∷ (t2, y) ∷ []) ne e g l = ground arith
two-printed a b ((t2, x) ∷ (t1, y) ∷ []) ne e g l = ground arith

-- With two different time stamps, whoever's object arrives first, on a channel or on a queue that keeps only
-- each sender's order: when the receiver is done it has printed that the event with the smaller stamp
-- occurred before the other, and it can always get there. The joins of both programs print status 0 and
-- `None` three times.
pub timestamp_lem :
    (fifo : Bool) (a b : ℕ) (s : System (ℕ × Event)) (pid1 pid2 pid3 : ℕ)
    → a ≢ b
    → Reach fifo (running a b) s
    → ((u : System (ℕ × Event)) × Reach fifo s u × Finished (f1 a) (f2 b) u)
      × (s.wanted ≡ 0
          → printed s.received
            ≡ some (if ltb a b then (explosion, implosion) else (implosion, explosion)))
      × (main pid1 pid2 pid3 ≡ ok (silent ++ (silent ++ silent)))
      × (process_main ≡ ok (silent ++ (silent ++ silent)))
timestamp_lem fifo a b s pid1 pid2 pid3 ne r =
    let (few, go_on, over) = all_received fifo (f1 a) (f2 b) s r in
    (
      go_on,
      λ w.
          let done = over w in
          two-printed a b s.received ne done.got_1 done.got_2
            (omega (arith, length-from s.received, ap length done.got_1, ap length done.got_2)),
      (join_three_lem pid1 pid2 pid3).0,
      (join_three_lem pid1 pid2 pid3).1,
    )
