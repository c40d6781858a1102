-- ===== src/Exchange.antt =====
-- examples/channel.py and examples/timestamp.py, and the programs of the same names in examples/multiprocessing: two
-- processes that send objects into one queue, and a third that receives.
--
-- A queue is a list of objects with their senders. snakefish's channel gives out its oldest object; of
-- `multiprocessing.Queue` only the order of each sender's objects is documented, so that another's may pass.
pub mod Order
pub mod Progress
pub mod Objects
pub mod Timestamps
mod Tests
use snakefish.Prelude.{if◌then◌else◌, ℕ, suc, ◌<◌, ◌≡◌, Bool, true, false, List, [], ◌∷◌, ◌++◌}

pub data Sender : Type 0 where
  t1 t2 : Sender

abbrev pub same : Sender → Sender → Bool
same t1 t1 = true
same t2 t2 = true
same _ _ = false

-- The objects of one sender, in order.
abbrev pub from : {O : Type 0} → Sender → List (Sender × O) → List O
from k [] = []
from k ((j, o) ∷ q) = if same j k then o ∷ from k q else from k q

-- What a receive takes from a queue: the object behind `front`, none of which is the same sender's.
-- Of a first-in first-out queue it is the oldest.
pub record Take {O : Type 0} (fifo : Bool) (q : List (Sender × O)) (m : Sender × O)
    (q' : List (Sender × O)) : Type 0 where
  pub front : List (Sender × O)
  pub back : List (Sender × O)
  pub before : q ≡ front ++ (m ∷ back)
  pub after : q' ≡ front ++ back
  pub others : from m.0 front ≡ []
  pub oldest : fifo ≡ true → front ≡ []

-- What `f1` and `f2` still have to send, the queue, what `f3` has received, and how often it will receive
-- again.
pub record System (O : Type 0) : Type 0 where
  pub f1 : List O
  pub f2 : List O
  pub queue : List (Sender × O)
  pub received : List (Sender × O)
  pub wanted : ℕ

unfoldable pub start : {O : Type 0} → List O → List O → ℕ → System O
start xs ys n = record { f1 = xs; f2 = ys; queue = []; received = []; wanted = n }

-- A step of one of the processes. A receive that blocks has no step on an empty queue; one that does not
-- raises there, and the loop around it asks again.
pub data Step {O : Type 0} (fifo : Bool) (s t : System O) : Type 0 where
  sends_1 :
      (o : O) (rest : List O)
      → s.f1 ≡ o ∷ rest
      → t ≡ record s { f1 = rest; queue = s.queue ++ ((t1, o) ∷ []) }
      → Step fifo s t
  sends_2 :
      (o : O) (rest : List O)
      → s.f2 ≡ o ∷ rest
      → t ≡ record s { f2 = rest; queue = s.queue ++ ((t2, o) ∷ []) }
      → Step fifo s t
  receives :
      (m : Sender × O) (q : List (Sender × O)) (n : ℕ)
      → s.wanted ≡ suc n
      → Take fifo s.queue m q
      → t ≡ record s { queue = q; received = s.received ++ (m ∷ []); wanted = n }
      → Step fifo s t
  finds_nothing : s.queue ≡ [] → 0 < s.wanted → t ≡ s → Step fifo s t

pub data Reach {O : Type 0} (fifo : Bool) (s : System O) : System O → Type 0 where
  here : Reach fifo s s
  later : {t u : System O} → Reach fifo s t → Step fifo t u → Reach fifo s u
