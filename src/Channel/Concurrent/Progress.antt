-- ===== src/Channel/Concurrent/Progress.antt =====
-- Calls under way on a channel come to an end: none waits for another for ever.
use snakefish.Prelude.{
  ltb, length, length-append, Bool-cases, List-cases, ℕ, ◌+◌, ◌*◌, ◌<◌, ◌≤◌, ◌≡◌, inl, inr, refl,
  ap, List, [], ◌∷◌, ◌++◌, arith,
}
use mathlib.Core.Path.{subst}
use snakefish.Channel.{Channel, available_space, sem_value_max}
use snakefish.Channel.Bytes.{add_size, word_size}
use snakefish.Channel.Queue.{Holds, available_space-eq-length}
use snakefish.Channel.Concurrent.{
  Stage, sending, copied, counting, receiving, fetched, leaving, System, Step, Reach, quiet, copies,
  fetches, send_called, send_enters, send_refused, send_copies, send_stores, send_counts,
  send_fails, receive_claims, receive_empty, receive_enters, receive_fetches, receive_stores,
  leaves,
}
use snakefish.Channel.Concurrent.Stages.{IsSafe, copies-some, fetches-some}
use snakefish.Channel.Concurrent.Exclusion.{Inv, settled, countable, post_ready}
use snakefish.Channel.Concurrent.Messages.{AllSafe, quiet-Inv, Reach-Inv}

-- The steps that a call has before it at most.
abbrev pub left : Stage → ℕ
left (sending source len) = 11
left (copied fills end) = 10
left counting = 9
left receiving = 3
left (fetched bytes start) = 2
left leaving = 1

abbrev pub all_left : List Stage → ℕ
all_left [] = 0
all_left (x ∷ xs) = left x + all_left xs

-- The same of all calls under way, and of the receives that the unread messages allow.
abbrev pub to_do : System → ℕ
to_do s = 12 * length s.waiting + (5 * s.channel.n_unread + (4 * s.claims + all_left s.inside))

all_left-append : (xs ys : List Stage) → all_left (xs ++ ys) ≡ all_left xs + all_left ys
all_left-append [] ys = omega arith
all_left-append (x ∷ xs) ys = omega (arith, all_left-append xs ys)

-- Steps that are no new call, nor a look at an empty channel that is to be repeated.
abbrev pub GoesOn : {s t : System} → Step s t → Type 0
GoesOn (send_called source len p e) = ⊥
GoesOn (receive_empty p e) = ⊥
GoesOn (send_enters source len front back w p e) = Unit
GoesOn (send_refused source len front back w p e) = Unit
GoesOn (send_copies source len front back mem w room c e) = Unit
GoesOn (send_stores fills end front back w e) = Unit
GoesOn (send_counts front back w p e) = Unit
GoesOn (send_fails front back w p e) = Unit
GoesOn (receive_claims p e) = Unit
GoesOn (receive_enters p q e) = Unit
GoesOn (receive_fetches front back bytes start w f e) = Unit
GoesOn (receive_stores front back bytes start w e) = Unit
GoesOn (leaves front back w e) = Unit

-- The part of the sum that the call inside has.
part :
    (x : Stage) (inside front back : List Stage)
    → inside ≡ front ++ (x ∷ back)
    → all_left inside ≡ left x + all_left (front ++ back)
part x inside front back e =
    omega (arith, ap all_left e, all_left-append front (x ∷ back), all_left-append front back)

part_after :
    (y : Stage) (front back : List Stage)
    → all_left (front ++ (y ∷ back)) ≡ left y + all_left (front ++ back)
part_after y front back =
    omega (arith, all_left-append front (y ∷ back), all_left-append front back)

Step-lt : {s t : System} (st : Step s t) → GoesOn st → to_do t < to_do s
Step-lt (send_called source len p e) go = absurd go
Step-lt (receive_empty p e) go = absurd go
Step-lt {s} (send_enters source len front back w p e) go = omega (
  arith,
  ap to_do e,
  ap length w,
  length-append {0} front back,
  length-append {0} front ((source, len) ∷ back),
)
Step-lt {s} (send_refused source len front back w p e) go =
    omega (arith, ap to_do e, part (sending source len) s.inside front back w)
Step-lt {s} (send_copies source len front back mem w room c e) go = omega (
  arith,
  ap to_do e,
  part (sending source len) s.inside front back w,
  part_after (copied _ _) front back,
)
Step-lt {s} (send_stores fills end front back w e) go = omega (
  arith,
  ap to_do e,
  part (copied fills end) s.inside front back w,
  part_after counting front back,
)
Step-lt {s} (send_counts front back w p e) go =
    omega (arith, ap to_do e, part counting s.inside front back w, part_after leaving front back)
Step-lt {s} (send_fails front back w p e) go =
    omega (arith, ap to_do e, part counting s.inside front back w)
Step-lt (receive_claims p e) go = omega (arith, ap to_do e)
Step-lt (receive_enters p q e) go = omega (arith, ap to_do e)
Step-lt {s} (receive_fetches front back bytes start w f e) go = omega (
  arith,
  ap to_do e,
  part receiving s.inside front back w,
  part_after (fetched bytes start) front back,
)
Step-lt {s} (receive_stores front back bytes start w e) go = omega (
  arith,
  ap to_do e,
  part (fetched bytes start) s.inside front back w,
  part_after leaving front back,
)
Step-lt {s} (leaves front back w e) go =
    omega (arith, ap to_do e, part leaving s.inside front back w)

-- A send that has the lock is safe.
abbrev pub IsSafeNow : System → Type 0
IsSafeNow s =
    (source : List ℕ) (len : ℕ) → s.inside ≡ sending source len ∷ [] → IsSafe source len (s.channel)

abbrev pub Next : System → Type 0
Next s = (t : System) × (st : Step s t) × GoesOn st

module _ {s : System} (i : Inv s) (safe : IsSafeNow s) where
  sending_next : (source : List ℕ) (len : ℕ) → s.inside ≡ sending source len ∷ [] → Next s
  unfolding copies available_space
  sending_next source len e =
      elim (Bool-cases (ltb (available_space s.channel) (add_size word_size len))) [
        | inl full ↦ (_, send_refused source len [] [] e full refl, tt)
        | inr room ↦
            let now = safe source len e in
            let k = s.channel.n_unread + s.claims in
            let v : Channel = record (s.channel) { lock = 1; n_unread = k } in
            let h : Holds v i.ms i.free =
              subst (λ l. Holds (settled l k (s.channel)) i.ms i.free) e i.holds in
            let now_v : IsSafe source len v = record {
              some_bytes = now.some_bytes;
              readable = now.readable;
              sized = now.sized;
              slack = now.slack;
            } in
            let space = available_space-eq-length v i.ms i.free h in
            let ready =
              countable v i.ms i.free h i.modest
                (ground (arith, space, room, now.sized, now.some_bytes)) in
            let (mem, made) = copies-some source len v i.ms i.free h now_v ready room in
            (_, send_copies source len [] [] mem e room made refl, tt)
      ]

  receiving_next : s.inside ≡ receiving ∷ [] → Next s
  unfolding fetches
  receiving_next e =
      let k = s.channel.n_unread + s.claims in
      let h : Holds (record (s.channel) { lock = 1; n_unread = k + 1 }) i.ms i.free =
        subst (λ l. Holds (settled l k (s.channel)) i.ms i.free) e i.holds in
      let (bytes, start, made) = fetches-some _ i.ms i.free h (omega arith) in
      (_, receive_fetches [] [] bytes start e made refl, tt)

  inside_next : (x : Stage) → s.inside ≡ x ∷ [] → Next s
  inside_next (sending source len) e = sending_next source len e
  inside_next (copied fills end) e = (_, send_stores fills end [] [] e refl, tt)
  inside_next counting e = (_, send_counts [] [] e (post_ready i [] [] e) refl, tt)
  inside_next receiving e = receiving_next e
  inside_next (fetched bytes start) e = (_, receive_stores [] [] bytes start e refl, tt)
  inside_next leaving e = (_, leaves [] [] e refl, tt)

  waiting_next : s.inside ≡ [] → 0 < length s.waiting + s.claims → Next s
  waiting_next e p =
      let free_lock : 0 < s.channel.lock = omega (arith, i.exclusive, ap length e) in
      elim (List-cases s.waiting) [
        | inl none_waits ↦
            (_, receive_enters (omega (arith, ap length none_waits)) free_lock refl, tt)
        | inr ((source, len), rest, w) ↦ (_, send_enters source len [] rest w free_lock refl, tt)
      ]

  some_next : 0 < length s.waiting + (s.claims + length s.inside) → Next s
  some_next p = elim (List-cases s.inside) [
    | inl e ↦ waiting_next e (omega (arith, ap length e))
    | inr (x, [], e) ↦ inside_next x e
    | inr (x, y ∷ xs, e) ↦ absurd (omega (arith, i.exclusive, ap length e))
  ]

-- While a call of `send_bytes` or `receive_bytes` has the lock or waits for it, some such call can go on, if the
-- sends that have the lock are safe, and each step of one brings `to_do` down: with no new calls all
-- of them end, and no process waits for the lock for ever.
pub Reach-GoesOn :
    (ch : Channel) (free : List ℕ) (s : System) (r : Reach (quiet ch) s)
    → Holds ch [] free
    → ch.capacity ≤ 9 * sem_value_max
    → AllSafe r
    → IsSafeNow s
    → (0 < length s.waiting + (s.claims + length s.inside) → Next s)
      × ((t : System) (st : Step s t) → GoesOn st → to_do t < to_do s)
Reach-GoesOn ch free s r h modest safe now =
    let i = Reach-Inv r safe (quiet-Inv ch free h modest) in
    (λ p. some_next i now p, λ t st go. Step-lt st go)
