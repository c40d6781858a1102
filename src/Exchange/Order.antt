-- ===== src/Exchange/Order.antt =====
-- What the receiver of examples/channel.py and examples/timestamp.py can have received, in every interleaving.
use snakefish.Prelude.{
  Bool-cases, length, take, length-append, ℕ, ◌+◌, ◌≡◌, refl, sym, ap, ◌∙◌, inl, inr, Bool, true,
  false, List, [], ◌∷◌, ◌++◌, append-nil, append_assoc, arith,
}
use snakefish.Exchange.{
  Sender, t1, t2, same, from, Take, System, start, Step, Reach, sends_1, sends_2, receives,
  finds_nothing, here, later,
}

from-append :
    {O : Type 0} (k : Sender) (q r : List (Sender × O)) → from k (q ++ r) ≡ from k q ++ from k r
from-append k [] r = refl
from-append k ((j, o) ∷ q) r = elim (Bool-cases (same j k)) [
  | inl yours ↦ rw yours (ap (λ t. o ∷ t) (from-append k q r))
  | inr other ↦ rw other (from-append k q r)
]

same-eq : (j k : Sender) → same j k ≡ true → j ≡ k
same-eq t1 t1 e = refl
same-eq t1 t2 e = absurd (cc)
same-eq t2 t1 e = absurd (cc)
same-eq t2 t2 e = refl

module _ {O : Type 0} where
  -- Taking an object moves it from the queue behind what was received, in the eyes of each sender.
  moved :
      (k : Sender) (m : Sender × O) (front back : List (Sender × O))
      → from m.0 front ≡ []
      → from k (m ∷ (front ++ back)) ≡ from k (front ++ (m ∷ back))
  moved k (j, o) front back others = elim (Bool-cases (same j k)) [
    | inl yours ↦
        let none_before : from k front ≡ [] =
          ap (λ i. from i front) (sym (same-eq j k yours)) ∙ others in
        rw (from-append k front back, from-append k front ((j, o) ∷ back), none_before, yours) refl
    | inr other ↦ rw (from-append k front back, from-append k front ((j, o) ∷ back), other) refl
  ]

  taken-from :
      (k : Sender) {fifo : Bool} (r q q' : List (Sender × O)) (m : Sender × O)
      → Take fifo q m q'
      → from k ((r ++ (m ∷ [])) ++ q') ≡ from k (r ++ q)
  taken-from k r q q' m t =
      ap (λ l. from k ((r ++ (m ∷ [])) ++ l)) t.after
      ∙ ap (from k) (append_assoc r (m ∷ []) (t.front ++ t.back))
      ∙ from-append k r (m ∷ (t.front ++ t.back))
      ∙ ap (λ l. from k r ++ l) (moved k m t.front t.back t.others)
      ∙ sym (from-append k r (t.front ++ (m ∷ t.back)))
      ∙ ap (λ l. from k (r ++ l)) (sym t.before)

  -- Each sender's objects, received, waiting and not yet sent, are those of its program, in order.
  pub record Inv (xs ys : List O) (n : ℕ) (s : System O) : Type 0 where
    pub first : from t1 (s.received ++ s.queue) ++ s.f1 ≡ xs
    pub second : from t2 (s.received ++ s.queue) ++ s.f2 ≡ ys
    pub counted : length s.received + s.wanted ≡ n

  -- A sent object leaves the program and joins the queue.
  sent-own :
      (k : Sender) (r q : List (Sender × O)) (o : O) (rest : List O)
      → same k k ≡ true
      → from k (r ++ (q ++ ((k, o) ∷ []))) ++ rest ≡ from k (r ++ q) ++ (o ∷ rest)
  sent-own k r q o rest e =
      ap (λ l. from k l ++ rest) (sym (append_assoc r q ((k, o) ∷ [])))
      ∙ ap (λ l. l ++ rest) (from-append k (r ++ q) ((k, o) ∷ []))
      ∙ rw e (append_assoc (from k (r ++ q)) (o ∷ []) rest)

  sent-other :
      (j k : Sender) (r q : List (Sender × O)) (o : O) (rest : List O)
      → same j k ≡ false
      → from k (r ++ (q ++ ((j, o) ∷ []))) ++ rest ≡ from k (r ++ q) ++ rest
  sent-other j k r q o rest e =
      ap (λ l. from k l ++ rest) (sym (append_assoc r q ((j, o) ∷ [])))
      ∙ ap (λ l. l ++ rest) (from-append k (r ++ q) ((j, o) ∷ []))
      ∙ rw e (ap (λ l. l ++ rest) (append-nil (from k (r ++ q))))

  pub Step-Inv :
      {fifo : Bool} {xs ys : List O} {n : ℕ} {s u : System O}
      → Step fifo s u
      → Inv xs ys n s
      → Inv xs ys n u
  Step-Inv {s = s} (sends_1 o rest e t) i = rw t (record {
    first =
        sent-own t1 s.received s.queue o rest refl
        ∙ ap (λ l. from t1 (s.received ++ s.queue) ++ l) (sym e)
        ∙ i.first;
    second = sent-other t1 t2 s.received s.queue o s.f2 refl ∙ i.second;
    counted = i.counted;
  })
  Step-Inv {s = s} (sends_2 o rest e t) i = rw t (record {
    first = sent-other t2 t1 s.received s.queue o s.f1 refl ∙ i.first;
    second =
        sent-own t2 s.received s.queue o rest refl
        ∙ ap (λ l. from t2 (s.received ++ s.queue) ++ l) (sym e)
        ∙ i.second;
    counted = i.counted;
  })
  Step-Inv {s = s} (receives m q k w take t) i = rw t (record {
    first = ap (λ l. l ++ s.f1) (taken-from t1 s.received s.queue q m take) ∙ i.first;
    second = ap (λ l. l ++ s.f2) (taken-from t2 s.received s.queue q m take) ∙ i.second;
    counted = omega (arith, length-append s.received (m ∷ []), i.counted);
  })
  Step-Inv (finds_nothing e w t) i = rw t i

  -- In every interleaving, on a channel and on a queue that keeps only each sender's order: what was received
  -- from a sender, what of it waits and what it has not sent make up its program, in that order. The
  -- objects received are as many as the receives that are over.
  pub Reach-Inv :
      {fifo : Bool} (xs ys : List O) (n : ℕ) (s : System O)
      → Reach fifo (start xs ys n) s
      → Inv xs ys n s
  unfolding start
  Reach-Inv xs ys n s here = record { first = refl; second = refl; counted = omega arith }
  Reach-Inv xs ys n s (later {t = t} r st) = Step-Inv st (Reach-Inv xs ys n t r)
