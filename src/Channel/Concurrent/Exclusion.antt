-- ===== src/Channel/Concurrent/Exclusion.antt =====
-- However the calls take turns, one at most has the lock, and the channel is a queue of whole messages.
use snakefish.Prelude.{
  if◌then◌else◌, length, length-append, ℕ, ◌+◌, ◌-◌, ◌*◌, ◌<◌, ◌≤◌, ◌≡◌, refl, sym, ap, ◌∙◌, true,
  false, List, [], ◌∷◌, ◌++◌, arith,
}
use mathlib.Core.Path.{subst}
use snakefish.Channel.{Channel, release, sem_value_max}
use snakefish.Channel.Queue.{Holds, frame, frames, AllNonempty, length-frame, used-add-free}
use snakefish.Channel.Concurrent.{
  Stage, sending, copied, counting, receiving, fetched, leaving, System, take_lock,
}

-- The channel as it will be when the call that has the lock is through, once it has copied its bytes; `k` are
-- the messages counted as unread or claimed.
abbrev pub settled : List Stage → ℕ → Channel → Channel
settled [] k ch = record ch { lock = 1; n_unread = k }
settled (sending source len ∷ _) k ch = record ch { lock = 1; n_unread = k }
settled (copied fills end ∷ _) k ch = record ch {
  lock = 1;
  n_unread = k + 1;
  end = end;
  full = if fills then true else ch.full;
}
settled (counting ∷ _) k ch = record ch { lock = 1; n_unread = k + 1 }
settled (receiving ∷ _) k ch = record ch { lock = 1; n_unread = k + 1 }
settled (fetched bytes start ∷ _) k ch = record ch {
  lock = 1;
  n_unread = k;
  full = false;
  start = start;
}
settled (leaving ∷ _) k ch = record ch { lock = 1; n_unread = k }

-- The counts that the semaphores keep do not matter to it.
settled_counts :
    (inside : List Stage) (k lock n_unread : ℕ) (ch : Channel)
    → settled inside k (record ch { lock = lock; n_unread = n_unread }) ≡ settled inside k ch
settled_counts [] k l n ch = refl
settled_counts (sending source len ∷ _) k l n ch = refl
settled_counts (copied fills end ∷ _) k l n ch = refl
settled_counts (counting ∷ _) k l n ch = refl
settled_counts (receiving ∷ _) k l n ch = refl
settled_counts (fetched bytes start ∷ _) k l n ch = refl
settled_counts (leaving ∷ _) k l n ch = refl

-- The lock is free or one call has it; the messages copied in are those copied out and then those that the
-- settled channel holds.
pub record Inv (s : System) : Type 0 where
  pub exclusive : s.channel.lock + length s.inside ≡ 1
  pub modest : s.channel.capacity ≤ 9 * sem_value_max
  pub ms : List (List ℕ)
  pub free : List ℕ
  pub holds : Holds (settled s.inside (s.channel.n_unread + s.claims) s.channel) ms free
  pub history : s.sent ≡ s.received ++ ms

-- The one that has the lock.
pub record Only (inside front back : List Stage) (x : Stage) (lock : ℕ) : Type 0 where
  pub alone : inside ≡ x ∷ []
  pub taken : lock ≡ 0
  pub replaced : (y : Stage) → front ++ (y ∷ back) ≡ y ∷ []
  pub removed : front ++ back ≡ []

pub only :
    {x : Stage} (inside front back : List Stage) (lock : ℕ)
    → inside ≡ front ++ (x ∷ back)
    → lock + length inside ≡ 1
    → Only inside front back x lock
only inside [] [] lock e h = record {
  alone = e;
  taken = omega (arith, ap length e);
  replaced = λ y. refl;
  removed = refl;
}
only inside [] (y ∷ back) lock e h = absurd (omega (arith, ap length e))
only {x} inside (y ∷ front) back lock e h =
    absurd (omega (arith, ap length e, length-append {0} front (x ∷ back)))

nobody : (inside : List Stage) (lock : ℕ) → 0 < lock → lock + length inside ≡ 1 → inside ≡ []
nobody [] lock p h = refl
nobody (x ∷ inside) lock p h = absurd (omega arith)

frames_long : (ms : List (List ℕ)) → AllNonempty ms → 9 * length ms ≤ length (frames ms)
frames_long [] h = omega arith
frames_long (m ∷ ms) h =
    omega (arith, h.0, frames_long ms h.1, length-append {0} (frame m) (frames ms), length-frame m)

counted_few :
    (ch : Channel) (ms : List (List ℕ)) (free : List ℕ)
    → Holds ch ms free
    → ch.capacity ≤ 9 * sem_value_max
    → ch.n_unread ≤ sem_value_max
counted_few ch ms free h modest =
    omega (arith, used-add-free ch ms free h, h.counted, frames_long ms h.nonempty)

-- A message takes nine bytes or more, so the semaphore of unread messages has room for one more whenever
-- the ring has.
pub countable :
    (ch : Channel) (ms : List (List ℕ)) (free : List ℕ)
    → Holds ch ms free
    → ch.capacity ≤ 9 * sem_value_max
    → 9 ≤ length free
    → ch.n_unread < sem_value_max
countable ch ms free h modest room =
    omega (arith, used-add-free ch ms free h, h.counted, frames_long ms h.nonempty)

module _ {s : System} (i : Inv s) where
  -- The channel that the call inside will leave.
  pub left_by :
      (x : Stage) (front back : List Stage)
      → Only s.inside front back x s.channel.lock
      → Holds (settled (x ∷ []) (s.channel.n_unread + s.claims) (s.channel)) i.ms i.free
  left_by x front back o =
      subst (λ l. Holds (settled l (s.channel.n_unread + s.claims) (s.channel)) i.ms i.free) o.alone
        i.holds

  -- The call inside goes on, and will leave the same channel.
  pub moves :
      (x y : Stage) (ch : Channel) (front back : List Stage)
      → s.inside ≡ front ++ (x ∷ back)
      → ch.lock ≡ s.channel.lock
      → ch.capacity ≡ s.channel.capacity
      → settled (x ∷ []) (s.channel.n_unread + s.claims) (s.channel)
        ≡ settled (y ∷ []) (ch.n_unread + s.claims) ch
      → Inv (record s { channel = ch; inside = front ++ (y ∷ back) })
  moves x y ch front back e l c same =
      let o = only s.inside front back s.channel.lock e i.exclusive in
      subst (λ inside. Inv (record s { channel = ch; inside = inside })) (sym (o.replaced y))
        (record {
          exclusive = omega (arith, o.taken);
          modest = omega (arith, i.modest);
          ms = i.ms;
          free = i.free;
          holds = subst (λ v. Holds v i.ms i.free) same (left_by x front back o);
          history = i.history;
        })

  -- It gives the lock back.
  pub goes :
      (x : Stage) (front back : List Stage)
      → s.inside ≡ front ++ (x ∷ back)
      → settled (x ∷ []) (s.channel.n_unread + s.claims) (s.channel)
        ≡ settled [] (s.channel.n_unread + s.claims) (s.channel)
      → Inv (record s { channel = release s.channel; inside = front ++ back })
  goes x front back e same =
      let o = only s.inside front back s.channel.lock e i.exclusive in
      subst (λ inside. Inv (record s { channel = release s.channel; inside = inside }))
        (sym o.removed)
        (record {
          exclusive = omega (arith, o.taken);
          modest = i.modest;
          ms = i.ms;
          free = i.free;
          holds = subst (λ v. Holds v i.ms i.free) same (left_by x front back o);
          history = i.history;
        })

  -- A call takes the lock.
  pub enters :
      (x : Stage) (claims : ℕ) (waiting : List (List ℕ × ℕ))
      → 0 < s.channel.lock
      → settled [] (s.channel.n_unread + s.claims) (s.channel)
        ≡ settled (x ∷ s.inside) (s.channel.n_unread + claims) (take_lock s.channel)
      → Inv (record s {
        waiting = waiting;
        claims = claims;
        channel = take_lock s.channel;
        inside = x ∷ s.inside;
      })
  enters x claims waiting p same =
      let none_inside = nobody s.inside s.channel.lock p i.exclusive in
      record {
        exclusive = omega (arith, p, i.exclusive);
        modest = i.modest;
        ms = i.ms;
        free = i.free;
        holds =
            subst (λ v. Holds v i.ms i.free) same
              (subst
                (λ l. Holds (settled l (s.channel.n_unread + s.claims) (s.channel)) i.ms i.free)
                none_inside i.holds);
        history = i.history;
      }

  -- A receive takes an unread message off the semaphore.
  pub claimed :
      0 < s.channel.n_unread
      → Inv (record s {
        channel = record (s.channel) { n_unread = s.channel.n_unread - 1 };
        claims = s.claims + 1;
      })
  claimed p = record {
    exclusive = i.exclusive;
    modest = i.modest;
    ms = i.ms;
    free = i.free;
    holds =
        subst (λ v. Holds v i.ms i.free)
          (sym (
              settled_counts s.inside (s.channel.n_unread + s.claims) (s.channel.lock)
                (s.channel.n_unread - 1) (s.channel))
            ∙ ap
                (λ k. settled s.inside k (record (s.channel) { n_unread = s.channel.n_unread - 1 }))
                (omega arith))
          i.holds;
    history = i.history;
  }

  -- The post of a send never fails.
  pub post_ready :
      (front back : List Stage)
      → s.inside ≡ front ++ (counting ∷ back)
      → s.channel.n_unread < sem_value_max
  post_ready front back e =
      let o = only s.inside front back s.channel.lock e i.exclusive in
      let k = s.channel.n_unread + s.claims in
      let few : k + 1 ≤ sem_value_max =
        counted_few (settled (counting ∷ []) k (s.channel)) i.ms i.free
          (left_by counting front back o) i.modest in
      omega arith
