-- ===== src/Exchange/Objects.antt =====
-- examples/channel.py, and examples/multiprocessing/channel.py on a `multiprocessing.Queue`.
use snakefish.Prelude.{
  length, Result, ok, ℕ, ◌≡◌, ap, ◌⊎◌, inl, inr, Bool, List, [], ◌∷◌, ◌++◌, arith,
}
use snakefish.Examples.{Line}
use snakefish.Examples.Joining.{join_three, join_three_process, silent, join_three_lem}
use snakefish.Exchange.{Sender, t1, t2, from, System, start, Reach}
use snakefish.Exchange.Progress.{Finished, all_received, length-from}

-- `[42]`, `{'1': 1}` and `(42,)`
pub data Sent : Type 0 where
  int_list str_dict int_tuple : Sent

-- What the first two processes send, in order.
abbrev pub f1 : List Sent
f1 = int_list ∷ str_dict ∷ []

abbrev pub f2 : List Sent
f2 = int_tuple ∷ []

-- What the third prints of the objects that it receives, by two receives that block and one that polls.
abbrev pub f3 : List (Sender × Sent) → List Sent
f3 [] = []
f3 ((j, o) ∷ received) = o ∷ f3 received

-- The program's state when the three have been started.
abbrev pub running : System Sent
running = start f1 f2 3

-- The joins at the end.
abbrev pub main : ℕ → ℕ → ℕ → Result (List Line)
main = join_three

abbrev pub process_main : Result (List Line)
process_main = join_three_process

-- The list before the dictionary, and the tuple anywhere.
abbrev pub InOrder : List Sent → Type 0
InOrder received =
    (received ≡ int_list ∷ str_dict ∷ int_tuple ∷ [])
    ⊎ (received ≡ int_list ∷ int_tuple ∷ str_dict ∷ [])
    ⊎ (received ≡ int_tuple ∷ int_list ∷ str_dict ∷ [])

three-InOrder :
    (r : List (Sender × Sent)) → from t1 r ≡ f1 → from t2 r ≡ f2 → length r ≡ 3 → InOrder (f3 r)
three-InOrder [] e g l = absurd (omega arith)
three-InOrder (x ∷ []) e g l = absurd (omega arith)
three-InOrder (x ∷ y ∷ []) e g l = absurd (omega arith)
three-InOrder (x ∷ y ∷ z ∷ w ∷ r) e g l = absurd (omega arith)
three-InOrder ((t1, a) ∷ (t1, b) ∷ (t1, c) ∷ []) e g l = absurd (cc)
three-InOrder ((t1, a) ∷ (t1, b) ∷ (t2, c) ∷ []) e g l = inl (cc)
three-InOrder ((t1, a) ∷ (t2, b) ∷ (t1, c) ∷ []) e g l = inr (inl (cc))
three-InOrder ((t1, a) ∷ (t2, b) ∷ (t2, c) ∷ []) e g l = absurd (cc)
three-InOrder ((t2, a) ∷ (t1, b) ∷ (t1, c) ∷ []) e g l = inr (inr (cc))
three-InOrder ((t2, a) ∷ (t1, b) ∷ (t2, c) ∷ []) e g l = absurd (cc)
three-InOrder ((t2, a) ∷ (t2, b) ∷ (z, c) ∷ []) e g l = absurd (cc)

-- However the three processes take turns, on a channel or on a queue that keeps only each sender's order:
-- from every state they can go on until all is received, and then the third has printed the three
-- objects, the list before the dictionary. The joins print status 0 and `None` three times.
pub channel_lem :
    (fifo : Bool) (s : System Sent) (pid1 pid2 pid3 : ℕ)
    → Reach fifo running s
    → ((u : System Sent) × Reach fifo s u × Finished f1 f2 u)
      × (s.wanted ≡ 0 → InOrder (f3 s.received))
      × (main pid1 pid2 pid3 ≡ ok (silent ++ (silent ++ silent)))
      × (process_main ≡ ok (silent ++ (silent ++ silent)))
channel_lem fifo s pid1 pid2 pid3 r =
    let (few, go_on, over) = all_received fifo f1 f2 s r in
    (
      go_on,
      λ w.
          let done = over w in
          three-InOrder s.received done.got_1 done.got_2
            (omega (arith, length-from s.received, ap length done.got_1, ap length done.got_2)),
      (join_three_lem pid1 pid2 pid3).0,
      (join_three_lem pid1 pid2 pid3).1,
    )
