-- ===== src/Channel/Concurrent/Messages.antt =====
-- The two steps that copy bytes, and every state that can be reached.
use snakefish.Prelude.{
  ltb, ◌==◌, length, take, ℕ, ◌+◌, ◌-◌, ◌*◌, ◌<◌, ◌≤◌, ◌≡◌, refl, sym, ap, ◌∙◌, false, some, List,
  [], ◌∷◌, ◌++◌, append_assoc, arith,
}
use mathlib.Core.Path.{subst, ap₂}
use snakefish.Channel.{Channel, available_space, sem_value_max}
use snakefish.Channel.Bytes.{add_size, word_size}
use snakefish.Channel.Queue.{Holds, frame, available_space-eq-length}
use snakefish.Channel.Concurrent.{
  Stage, sending, copied, counting, receiving, fetched, leaving, System, Step, Reach, here, later,
  quiet, copies, fetches, new_end, send_called, send_enters, send_refused, send_copies, send_stores,
  send_counts, send_fails, receive_claims, receive_empty, receive_enters, receive_fetches,
  receive_stores, leaves,
}
use snakefish.Channel.Concurrent.Stages.{IsSafe, copied-Holds, fetched-Holds}
use snakefish.Channel.Concurrent.Exclusion.{
  Inv, only, settled, countable, left_by, moves, goes, enters, claimed, post_ready,
}

module _ {s : System} (i : Inv s) where
  received_one :
      (front back : List Stage) (bytes : List ℕ) (start : ℕ)
      → s.inside ≡ front ++ (receiving ∷ back)
      → fetches s.channel ≡ some (bytes, start)
      → Inv (record s {
        inside = front ++ (fetched bytes start ∷ back);
        received = s.received ++ (bytes ∷ []);
      })
  unfolding fetches
  received_one front back bytes start e f =
      let o = only s.inside front back s.channel.lock e i.exclusive in
      let k = s.channel.n_unread + s.claims in
      let (rest, oldest, holds) =
        fetched-Holds (settled (receiving ∷ []) k (s.channel)) i.ms i.free bytes start
          (left_by i receiving front back o) (omega arith) f in
      subst (λ inside. Inv (record s { inside = inside; received = s.received ++ (bytes ∷ []) }))
        (sym (o.replaced (fetched bytes start)))
        (record {
          exclusive = omega (arith, o.taken);
          modest = i.modest;
          ms = rest;
          free = i.free ++ frame bytes;
          holds =
              subst
                (λ n.
                  Holds (record (settled (fetched bytes start ∷ []) k (s.channel)) { n_unread = n })
                    rest (i.free ++ frame bytes))
                (omega arith) holds;
          history =
              i.history
              ∙ ap (λ ms. s.received ++ ms) oldest
              ∙ sym (append_assoc (s.received) (bytes ∷ []) rest);
        })

  sent_one :
      (source : List ℕ) (len : ℕ) (front back : List Stage) (mem : List ℕ)
      → IsSafe source len (s.channel)
      → s.inside ≡ front ++ (sending source len ∷ back)
      → ltb (available_space s.channel) (add_size word_size len) ≡ false
      → copies source len s.channel ≡ some mem
      → Inv (record s {
        channel = record (s.channel) { shared_mem = mem };
        inside =
            front
            ++ (copied (add_size word_size len == available_space s.channel) (new_end len s.channel)
                ∷ back);
        sent = s.sent ++ (take len source ∷ []);
      })
  unfolding copies available_space
  sent_one source len front back mem safe e room c =
      let o = only s.inside front back s.channel.lock e i.exclusive in
      let v = settled (sending source len ∷ []) (s.channel.n_unread + s.claims) (s.channel) in
      let h : Holds v i.ms i.free = left_by i (sending source len) front back o in
      let safe_now : IsSafe source len v = record {
        some_bytes = safe.some_bytes;
        readable = safe.readable;
        sized = safe.sized;
        slack = safe.slack;
      } in
      let space = available_space-eq-length v i.ms i.free h in
      let (free', holds) =
        copied-Holds source len v i.ms i.free mem h safe_now
          (countable v i.ms i.free h i.modest
            (ground (arith, space, room, safe.sized, safe.some_bytes)))
          room c in
      subst
        (λ inside. Inv (record s {
          channel = record (s.channel) { shared_mem = mem };
          inside = inside;
          sent = s.sent ++ (take len source ∷ []);
        }))
        (sym (o.replaced _))
        (record {
          exclusive = omega (arith, o.taken);
          modest = i.modest;
          ms = i.ms ++ (take len source ∷ []);
          free = free';
          holds = holds;
          history =
              ap (λ ms. ms ++ (take len source ∷ [])) i.history
              ∙ append_assoc (s.received) i.ms (take len source ∷ []);
        })

-- The sends of a run are safe when they copy.
abbrev pub IsSafeStep : {s t : System} → Step s t → Type 0
IsSafeStep {s} (send_copies source len front back mem e room c eq) = IsSafe source len (s.channel)
IsSafeStep (send_called source len p e) = Unit
IsSafeStep (send_enters source len front back w p e) = Unit
IsSafeStep (send_refused source len front back w p e) = Unit
IsSafeStep (send_stores fills end front back w e) = Unit
IsSafeStep (send_counts front back w p e) = Unit
IsSafeStep (send_fails front back w p e) = Unit
IsSafeStep (receive_claims p e) = Unit
IsSafeStep (receive_empty p e) = Unit
IsSafeStep (receive_enters p q e) = Unit
IsSafeStep (receive_fetches front back bytes start w f e) = Unit
IsSafeStep (receive_stores front back bytes start w e) = Unit
IsSafeStep (leaves front back w e) = Unit

abbrev pub AllSafe : {s t : System} → Reach s t → Type 0
AllSafe here = Unit
AllSafe (later r st) = AllSafe r × IsSafeStep st

Step-Inv : {s t : System} (st : Step s t) → IsSafeStep st → Inv s → Inv t
Step-Inv (send_called source len p e) safe i = subst Inv (sym e) (record {
  exclusive = i.exclusive;
  modest = i.modest;
  ms = i.ms;
  free = i.free;
  holds = i.holds;
  history = i.history;
})
Step-Inv {s} (send_enters source len front back w p e) safe i =
    subst Inv (sym e) (enters i (sending source len) s.claims (front ++ back) p refl)
Step-Inv (send_refused source len front back w p e) safe i =
    subst Inv (sym e) (goes i (sending source len) front back w refl)
Step-Inv (send_copies source len front back mem w room c e) safe i =
    subst Inv (sym e) (sent_one i source len front back mem safe w room c)
Step-Inv {s} (send_stores fills end front back w e) safe i =
    subst Inv (sym e) (moves i (copied fills end) counting _ front back w refl refl refl)
Step-Inv {s} (send_counts front back w p e) safe i = subst Inv (sym e) (
    moves i counting leaving _ front back w refl refl
      (ap (λ k. record (s.channel) { lock = 1; n_unread = k }) (omega arith)))
Step-Inv (send_fails front back w p e) safe i = absurd (omega (arith, post_ready i front back w))
Step-Inv (receive_claims p e) safe i = subst Inv (sym e) (claimed i p)
Step-Inv (receive_empty p e) safe i = subst Inv (sym e) i
Step-Inv {s} (receive_enters p q e) safe i = subst Inv (sym e) (
    enters i receiving (s.claims - 1) s.waiting q
      (ap (λ k. record (s.channel) { lock = 1; n_unread = k }) (omega arith)))
Step-Inv (receive_fetches front back bytes start w f e) safe i =
    subst Inv (sym e) (received_one i front back bytes start w f)
Step-Inv (receive_stores front back bytes start w e) safe i =
    subst Inv (sym e) (moves i (fetched bytes start) leaving _ front back w refl refl refl)
Step-Inv (leaves front back w e) safe i = subst Inv (sym e) (goes i leaving front back w refl)

pub quiet-Inv :
    (ch : Channel) (free : List ℕ)
    → Holds ch [] free
    → ch.capacity ≤ 9 * sem_value_max
    → Inv (quiet ch)
unfolding quiet
quiet-Inv ch free h modest = record {
  exclusive = ground (arith, h.unlocked);
  modest = modest;
  ms = [];
  free = free;
  holds =
      subst (λ c. Holds c [] free)
        (ap₂ (λ l k. record ch { lock = l; n_unread = k }) h.unlocked (omega arith)) h;
  history = refl;
}

pub Reach-Inv : {s t : System} (r : Reach s t) → AllSafe r → Inv s → Inv t
Reach-Inv here safe i = i
Reach-Inv (later r st) safe i = Step-Inv st safe.1 (Reach-Inv r safe.0 i)

-- However calls of `send_bytes` and `receive_bytes` take turns on a channel of at most nine times 2^31 - 1 bytes
-- that was empty, and whose sends do not copy past their end into what is taken: the lock is free or one call
-- has it; the messages sent, in the order in which their senders had the lock, are those received, in
-- order, and then those that the channel holds; when no call has the lock, the ring holds exactly
-- these, its semaphore counts them but for those claimed by a receive that waits for the lock, and
-- no post fails.
pub Reach-Holds :
    (ch : Channel) (free : List ℕ) (s : System) (r : Reach (quiet ch) s)
    → Holds ch [] free
    → ch.capacity ≤ 9 * sem_value_max
    → AllSafe r
    → (s.channel.lock + length s.inside ≡ 1)
      × (ms : List (List ℕ)) × (free' : List ℕ) × (s.sent ≡ s.received ++ ms)
      × (s.inside ≡ []
          → Holds (record (s.channel) { n_unread = s.channel.n_unread + s.claims }) ms free')
      × ((front back : List Stage)
          → s.inside ≡ front ++ (counting ∷ back)
          → s.channel.n_unread < sem_value_max)
Reach-Holds ch free s r h modest safe =
    let i = Reach-Inv r safe (quiet-Inv ch free h modest) in
    let total = s.channel.n_unread + s.claims in
    (
      i.exclusive,
      i.ms,
      i.free,
      i.history,
      λ e.
          subst (λ l. Holds (record (s.channel) { lock = l; n_unread = total }) i.ms i.free)
            (omega (arith, ap length e, i.exclusive))
            (subst (λ l. Holds (settled l total (s.channel)) i.ms i.free) e i.holds),
      λ front back e. post_ready i front back e,
    )
