-- ===== src/Exchange/Progress.antt =====
-- That the processes of examples/channel.py and examples/timestamp.py come to an end, and with what.
use snakefish.Prelude.{
  List-cases, length, take, length-append, ℕ, zero, suc, ◌+◌, ◌-◌, ◌*◌, ◌≤◌, ◌<◌, ◌≡◌, refl, sym,
  ap, ◌∙◌, ◌⊎◌, inl, inr, Bool, List, [], ◌∷◌, ◌++◌, append-nil, arith,
}
use snakefish.Exchange.{
  Sender, t1, t2, from, Take, System, start, Step, Reach, sends_1, sends_2, receives, finds_nothing,
  here, later,
}
use snakefish.Exchange.Order.{Inv, Step-Inv, Reach-Inv}

nil_of_length : {A : Type 0} (l : List A) → length l ≡ 0 → l ≡ []
nil_of_length [] h = refl
nil_of_length (x ∷ l) h = absurd (omega arith)

module _ {O : Type 0} where
  -- Sends and receives to come, with an object that waits counted once.
  abbrev pub measure : System O → ℕ
  measure s = 2 * (length s.f1 + length s.f2) + length s.queue

  -- The steps of a run that are sends or receives.
  abbrev pub moves : {fifo : Bool} {s u : System O} → Reach fifo s u → ℕ
  moves here = 0
  moves (later r (finds_nothing e w t)) = moves r
  moves (later r (sends_1 o rest e t)) = moves r + 1
  moves (later r (sends_2 o rest e t)) = moves r + 1
  moves (later r (receives m q n w take t)) = moves r + 1

  Take-length :
      {fifo : Bool} (q q' : List (Sender × O)) (m : Sender × O)
      → Take fifo q m q'
      → length q ≡ length q' + 1
  Take-length q q' m t = omega (
    arith,
    ap length t.before,
    ap length t.after,
    length-append t.front (m ∷ t.back),
    length-append t.front t.back,
  )

  -- Each move uses up one.
  moves-measure :
      {fifo : Bool} {s u : System O} (r : Reach fifo s u) → moves r + measure u ≡ measure s
  moves-measure here = omega arith
  moves-measure (later {t = t} r (sends_1 o rest e eq)) =
      rw eq (omega (arith, moves-measure r, ap length e, length-append t.queue ((t1, o) ∷ [])))
  moves-measure (later {t = t} r (sends_2 o rest e eq)) =
      rw eq (omega (arith, moves-measure r, ap length e, length-append t.queue ((t2, o) ∷ [])))
  moves-measure (later {t = t} r (receives m q n w take eq)) =
      rw eq (omega (arith, moves-measure r, Take-length t.queue q m take))
  moves-measure (later r (finds_nothing e w eq)) = rw eq (moves-measure r)

  -- No object is of a third sender.
  pub length-from : (q : List (Sender × O)) → length q ≡ length (from t1 q) + length (from t2 q)
  length-from [] = omega arith
  length-from ((t1, o) ∷ q) = omega (arith, length-from q)
  length-from ((t2, o) ∷ q) = omega (arith, length-from q)

  -- Objects are neither lost nor doubled.
  conserved :
      {xs ys : List O} {n : ℕ} {s : System O}
      → Inv xs ys n s
      → length s.received + length s.queue + length s.f1 + length s.f2 ≡ length xs + length ys
  conserved {s = s} i = omega (
    arith,
    ap length i.first,
    ap length i.second,
    length-append (from t1 (s.received ++ s.queue)) s.f1,
    length-append (from t2 (s.received ++ s.queue)) s.f2,
    length-from (s.received ++ s.queue),
    length-append s.received s.queue,
  )

  -- All is sent and received.
  pub record Finished (xs ys : List O) (s : System O) : Type 0 where
    pub sent_1 : s.f1 ≡ []
    pub sent_2 : s.f2 ≡ []
    pub drained : s.queue ≡ []
    pub got_1 : from t1 s.received ≡ xs
    pub got_2 : from t2 s.received ≡ ys

  nothing_left :
      (k : Sender) (r q : List (Sender × O)) (rest xs : List O)
      → q ≡ []
      → rest ≡ []
      → from k (r ++ q) ++ rest ≡ xs
      → from k r ≡ xs
  nothing_left k r q rest xs e f h =
      ap (from k) (sym (append-nil r))
      ∙ ap (λ l. from k (r ++ l)) (sym e)
      ∙ sym (append-nil (from k (r ++ q)))
      ∙ ap (λ l. from k (r ++ q) ++ l) (sym f)
      ∙ h

  finished :
      {xs ys : List O} {n : ℕ} {s : System O}
      → Inv xs ys n s
      → s.f1 ≡ []
      → s.f2 ≡ []
      → s.queue ≡ []
      → Finished xs ys s
  finished {xs} {ys} {s = s} i e1 e2 eq = record {
    sent_1 = e1;
    sent_2 = e2;
    drained = eq;
    got_1 = nothing_left t1 s.received s.queue s.f1 xs eq e1 i.first;
    got_2 = nothing_left t2 s.received s.queue s.f2 ys eq e2 i.second;
  }

  -- The oldest object may be taken from either queue.
  Take-oldest :
      (fifo : Bool) (q q' : List (Sender × O)) (m : Sender × O) → q ≡ m ∷ q' → Take fifo q m q'
  Take-oldest fifo q q' m e = record {
    front = [];
    back = q';
    before = e;
    after = refl;
    others = refl;
    oldest = λ f. refl;
  }

  -- With as many receives as objects, either all is over or a process can send or receive.
  abbrev pub CanMove : Bool → System O → Type 0
  CanMove fifo s = (u : System O) × Step fifo s u × (measure u < measure s)

  progress :
      (fifo : Bool) {xs ys : List O} (s : System O)
      → Inv xs ys (length xs + length ys) s
      → Finished xs ys s ⊎ CanMove fifo s
  progress fifo s i = elim (List-cases s.f1) [
    | inr (o, rest, e) ↦ inr (
      record s { f1 = rest; queue = s.queue ++ ((t1, o) ∷ []) },
      sends_1 o rest e refl,
      omega (arith, ap length e, length-append s.queue ((t1, o) ∷ [])),
    )
    | inl e1 ↦ elim (List-cases s.f2) [
      | inr (o, rest, e) ↦ inr (
        record s { f2 = rest; queue = s.queue ++ ((t2, o) ∷ []) },
        sends_2 o rest e refl,
        omega (arith, ap length e, length-append s.queue ((t2, o) ∷ [])),
      )
      | inl e2 ↦ elim (List-cases s.queue) [
        | inl eq ↦ inl (finished i e1 e2 eq)
        | inr (m, q, e) ↦
            let some_wanted : 0 < s.wanted =
              omega (arith, conserved i, i.counted, ap length e1, ap length e2, ap length e) in
            inr (
              record s { queue = q; received = s.received ++ (m ∷ []); wanted = s.wanted - 1 },
              receives m q (s.wanted - 1) (omega arith) (Take-oldest fifo s.queue q m e) refl,
              omega (arith, ap length e),
            )
      ]
    ]
  ]

  prepend : {fifo : Bool} {s t u : System O} → Step fifo s t → Reach fifo t u → Reach fifo s u
  prepend st here = later here st
  prepend st (later r st') = later (prepend st r) st'

  can_finish :
      (fifo : Bool) {xs ys : List O} (k : ℕ) (s : System O)
      → Inv xs ys (length xs + length ys) s
      → measure s < k
      → (u : System O) × Reach fifo s u × Finished xs ys u
  can_finish fifo zero s i h = absurd (omega arith)
  can_finish fifo (suc k) s i h = elim (progress fifo s i) [
    | inl f ↦ (s, here, f)
    | inr (t, st, less) ↦
        let (u, r, f) = can_finish fifo k t (Step-Inv st i) (omega arith) in (u, prepend st r, f)
  ]

  all_over :
      {xs ys : List O} {s : System O}
      → Inv xs ys (length xs + length ys) s
      → s.wanted ≡ 0
      → Finished xs ys s
  all_over {s = s} i over =
      let none_left : length s.queue + length s.f1 + length s.f2 ≡ 0 =
        omega (arith, conserved i, i.counted) in
      finished i (nil_of_length s.f1 (omega arith)) (nil_of_length s.f2 (omega arith))
        (nil_of_length s.queue (omega arith))

  -- With as many receives as objects that are sent, in every interleaving and on either queue: the processes
  -- make at most two steps for each object, not counting polls that find nothing; whatever they have done,
  -- they can go on until all is over; and when the receiver is done, all is sent, the queue is empty and
  -- each sender's objects were received, every one once and in the sender's order.
  pub all_received :
      (fifo : Bool) (xs ys : List O) (s : System O)
      (r : Reach fifo (start xs ys (length xs + length ys)) s)
      → (moves r ≤ 2 * (length xs + length ys))
        × ((u : System O) × Reach fifo s u × Finished xs ys u)
        × (s.wanted ≡ 0 → Finished xs ys s)
  unfolding start
  all_received fifo xs ys s r =
      let i = Reach-Inv xs ys (length xs + length ys) s r in
      (
        omega (arith, moves-measure r),
        can_finish fifo (measure s + 1) s i (omega arith),
        λ over. all_over i over,
      )
