-- ===== src/Channel/Objects.antt =====
-- `send_pyobj` and `receive_pyobj` of src/channel.cpp. `pickle.dumps` and `pickle.loads` are parameters, and so is
-- what lies behind the bytes of a pickle in memory.
use snakefish.Prelude.{
  length, Result, ◌>>=◌, blocked, out_of_range, ok, err, ℕ, ◌+◌, ◌%◌, ◌≤◌, ◌<◌, ◌≡◌, refl, sym, ap,
  ◌∙◌, if◌then◌else◌, Bool, true, false, Option, none, some, List, [], ◌∷◌, ◌++◌, map,
}
use mathlib.Core.List.{map-append}
use mathlib.Core.Path.{subst}
use snakefish.Channel.{Channel, available_space, send_bytes, receive_bytes, sem_value_max}
use snakefish.Channel.Queue.{Holds, frame, available_space-eq-length}
use snakefish.Channel.Send.{send_bytes-Holds}
use snakefish.Channel.Receive.{receive_bytes-Holds, receive_bytes-empty}

-- A call on a channel that a process makes.
pub data Call (Obj : Type 0) : Type 0 where
  sends : Obj → Call Obj
  receives : Bool → Call Obj

-- What the calls answer on a queue of objects without bounds.
unfoldable pub on_queue : {Obj : Type 0} → List (Call Obj) → List Obj → List (Result (Option Obj))
on_queue [] os = []
on_queue (sends o ∷ calls) os = ok none ∷ on_queue calls (os ++ (o ∷ []))
on_queue (receives block ∷ calls) [] =
    err (if block then blocked else out_of_range) ∷ on_queue calls []
on_queue (receives block ∷ calls) (o ∷ os) = ok (some o) ∷ on_queue calls os

module _ {Obj : Type 0} (dumps stray : Obj → List ℕ) (loads : List ℕ → Result Obj) where
  unfoldable pub send_pyobj : Obj → Channel → Result (Unit {0}) × Channel
  send_pyobj o ch = send_bytes (dumps o ++ stray o) (length (dumps o)) ch

  unfoldable pub receive_pyobj : Bool → Channel → Result Obj × Channel
  receive_pyobj block ch = let (r, ch') = receive_bytes block ch in (r >>= loads, ch')

  -- What they answer on a channel.
  unfoldable pub on_channel : List (Call Obj) → Channel → List (Result (Option Obj))
  unfolding send_pyobj receive_pyobj
  on_channel [] ch = []
  on_channel (sends o ∷ calls) ch =
      let (r, ch') = send_pyobj o ch in (r >>= λ _. ok none) ∷ on_channel calls ch'
  on_channel (receives block ∷ calls) ch =
      let (r, ch') = receive_pyobj block ch in (r >>= λ o. ok (some o)) ∷ on_channel calls ch'

  -- Room for a pickle, and for the eight bytes that are copied behind it where it does not go round.
  pub record Room (o : Obj) (ch : Channel) : Type 0 where
    pub fits : 8 + length (dumps o) ≤ available_space ch
    pub slack :
        (ch.end + 8) % ch.capacity + length (dumps o) < ch.capacity
        → ((ch.end + 8) % ch.capacity + (8 + length (dumps o)) ≤ ch.capacity)
          × (8 ≤ length (stray o))
          × (16 + length (dumps o) ≤ available_space ch)
    pub counts : ch.n_unread < sem_value_max

  -- Every send of the calls finds room.
  unfoldable pub HasRoom : List (Call Obj) → Channel → Type 0
  unfolding send_pyobj receive_pyobj
  HasRoom [] ch = Unit
  HasRoom (sends o ∷ calls) ch = Room o ch × HasRoom calls (send_pyobj o ch).1
  HasRoom (receives block ∷ calls) ch = HasRoom calls (receive_pyobj block ch).1

  module _ (dumps_some : (o : Obj) → 0 < length (dumps o))
      (loads-dumps : (o : Obj) → loads (dumps o) ≡ ok o) where
    send_pyobj-Holds :
        (o : Obj) (ch : Channel) (os : List Obj) (free : List ℕ)
        → Holds ch (map dumps os) free
        → Room o ch
        → (ch' : Channel) × (free' : List ℕ) × (send_pyobj o ch ≡ (ok tt, ch'))
          × Holds ch' (map dumps (os ++ (o ∷ []))) free'
    unfolding send_pyobj
    send_pyobj-Holds o ch os free h room =
        let space = available_space-eq-length ch (map dumps os) free h in
        let (ch', free', e, holds, _) =
          send_bytes-Holds ch (map dumps os) free (dumps o) (stray o) h (dumps_some o)
            (subst (λ n. 8 + length (dumps o) ≤ n) space room.fits)
            (λ p. (
              (room.slack p).0,
              (room.slack p).1,
              subst (λ n. 16 + length (dumps o) ≤ n) space (room.slack p).2,
            ))
            room.counts in
        (ch', free', e, subst (λ ms. Holds ch' ms free') (sym (map-append dumps os (o ∷ []))) holds)

    receive_pyobj-Holds :
        (block : Bool) (o : Obj) (ch : Channel) (os : List Obj) (free : List ℕ)
        → Holds ch (map dumps (o ∷ os)) free
        → (ch' : Channel) × (receive_pyobj block ch ≡ (ok o, ch'))
          × Holds ch' (map dumps os) (free ++ frame (dumps o))
    unfolding receive_pyobj
    receive_pyobj-Holds block o ch os free h =
        let (ch', e, holds) = receive_bytes-Holds block ch (dumps o) (map dumps os) free h in
        (ch', rw (e, loads-dumps o) refl, holds)

    receive_pyobj-empty :
        (block : Bool) (ch : Channel) (free : List ℕ)
        → Holds ch [] free
        → receive_pyobj block ch ≡ (err (if block then blocked else out_of_range), ch)
    unfolding receive_pyobj
    receive_pyobj-empty true ch free h = rw ((receive_bytes-empty ch free h).0) refl
    receive_pyobj-empty false ch free h = rw ((receive_bytes-empty ch free h).1) refl

    answered :
        (block : Bool) (calls : List (Call Obj)) (ch : Channel) {r : Result Obj} {ch' : Channel}
        → receive_pyobj block ch ≡ (r, ch')
        → on_channel (receives block ∷ calls) ch ≡ (r >>= λ o. ok (some o)) ∷ on_channel calls ch'
    unfolding on_channel
    answered block calls ch e = ap (λ u. (u.0 >>= λ o. ok (some o)) ∷ on_channel calls u.1) e

    -- While every send finds room, a channel answers any calls of `send_pyobj` and `receive_pyobj`, blocking
    -- or not, as a queue does: objects are received once, in the order they were sent in and as they
    -- were, and on an empty channel a call that blocks waits and another raises. Pickling is taken
    -- to be undone by unpickling, and never to give no bytes.
    pub on_channel-eq-on_queue :
        (calls : List (Call Obj)) (os : List Obj) (ch : Channel) (free : List ℕ)
        → Holds ch (map dumps os) free
        → HasRoom calls ch
        → on_channel calls ch ≡ on_queue calls os
    unfolding on_channel on_queue HasRoom
    on_channel-eq-on_queue [] os ch free h room = refl
    on_channel-eq-on_queue (sends o ∷ calls) os ch free h room =
        let (ch', free', e, holds) = send_pyobj-Holds o ch os free h room.0 in
        ap (λ u. (u.0 >>= λ _. ok none) ∷ on_channel calls u.1) e
        ∙ ap (λ answers. ok none ∷ answers)
            (on_channel-eq-on_queue calls (os ++ (o ∷ [])) ch' free' holds
              (subst (HasRoom calls) (ap (λ u. u.1) e) room.1))
    on_channel-eq-on_queue (receives block ∷ calls) [] ch free h room =
        let e = receive_pyobj-empty block ch free h in
        answered block calls ch e
        ∙ ap (λ answers. err (if block then blocked else out_of_range) ∷ answers)
            (on_channel-eq-on_queue calls [] ch free h
              (subst (HasRoom calls) (ap (λ u. u.1) e) room))
    on_channel-eq-on_queue (receives block ∷ calls) (o ∷ os) ch free h room =
        let (ch', e, holds) = receive_pyobj-Holds block o ch os free h in
        answered block calls ch e
        ∙ ap (λ answers. ok (some o) ∷ answers)
            (on_channel-eq-on_queue calls os ch' (free ++ frame (dumps o)) holds
              (subst (HasRoom calls) (ap (λ u. u.1) e) room))
