-- ===== src/Wrappers/Thread.antt =====
-- `class Thread` of examples/multiprocessing/wrappers.py, a `multiprocessing.Process` whose child sends
-- what it has to say through a pipe. `Process` itself and the pipe's transport are the standard
-- library's: a start hands the child a copy of everything, and `recv` takes the oldest object sent.
use snakefish.Prelude.{
  ◌≡◌, ℕ, Bool, true, false, ◌&&◌, Option, none, some, List, [], ◌∷◌, ◌++◌, Exc, Result, ok, err,
  blocked, ◌>>=◌, if◌then◌else◌, arith,
}

-- How the child's call of `target` ends: it returns, or raises an exception.
pub data Outcome (Obj : Type 0) : Type 0 where
  returned : Obj → Outcome Obj
  raised : Obj → Outcome Obj

-- The attributes of the object, in the parent: `pipe` is what waits at `self.receiver`, and
-- `exitcode` that of `Process`, `none` until the child has been joined.
pub record Thread (Obj V : Type 0) : Type 0 where
  pub pipe : List Obj
  pub has_merge : Bool
  pub shared_vars : Option V
  pub ret_val : Option Obj
  pub traceback : Option Obj
  pub merging : Bool
  pub exitcode : Option ℕ

abbrev pub is_some {ℓ} : {V : Type ℓ} → Option V → Bool
is_some none = false
is_some (some v) = true

module _ {Obj V : Type 0} where
  -- `__init__`: merging wants both functions and the shared variables.
  unfoldable pub init : Bool → Bool → Option V → Thread Obj V
  init has_extract has_merge shared_vars = record {
    pipe = [];
    has_merge = has_merge;
    shared_vars = shared_vars;
    ret_val = none;
    traceback = none;
    merging = has_extract && has_merge && is_some shared_vars;
    exitcode = none;
  }

-- `self.receiver.recv()`, which waits for an object.
abbrev pub recv {ℓ} : {Obj : Type ℓ} → List Obj → Result (Obj × List Obj)
recv [] = err blocked
recv (o ∷ q) = ok (o, q)

module _ {Obj V : Type 0} (as_exception : Obj → Option Exc) (format_exc : Obj → Obj)
    (extract : Option V → Obj) (merge : Option V → Obj → Option V) where
  abbrev pub sent : Outcome Obj → List Obj
  sent (returned v) = v ∷ []
  sent (raised e) = e ∷ format_exc e ∷ []

  -- `wrapped_target`, run in the child: what it sends, given how `target` ended and what the
  -- child's shared variables are then.
  unfoldable pub wrapped_target : Thread Obj V → Outcome Obj → Option V → List Obj
  wrapped_target t out vars = sent out ++ (if t.merging then extract vars ∷ [] else [])

  -- The part of `join` after `ret_val` has come.
  receive_traceback : Thread Obj V → Obj → List Obj → Result (Thread Obj V)
  receive_traceback t v q = elim (as_exception v) [
    | none ↦ ok (record t { ret_val = some v; pipe = q })
    | some e ↦
        recv q >>= λ (tb, q'). ok (record t { ret_val = some v; traceback = some tb; pipe = q' })
  ]

  receive_globals : Thread Obj V → Result (Thread Obj V)
  receive_globals t =
      if t.merging
      then (recv t.pipe >>= λ (new, q).
          ok (record t { shared_vars = merge t.shared_vars new; pipe = q }))
      else ok t

  -- `join`: `status` is what `Process.join` left in `exitcode`.
  unfoldable pub join : Option ℕ → Thread Obj V → Result (Bool × Thread Obj V)
  unfolding receive_traceback receive_globals
  join none t = ok (false, t)
  join (some status) t = recv t.pipe >>= λ (v, q).
      receive_traceback (record t { exitcode = some status }) v q >>= λ t'.
      receive_globals t' >>= λ t''. ok (true, t'')

  -- `get_result`
  unfoldable pub get_result : Thread Obj V → Result (Option Obj)
  get_result t = elim t.ret_val [
    | none ↦ ok none
    | some v ↦ elim (as_exception v) [ none ↦ ok (some v) | some e ↦ err e ]
  ]

  -- What the parent has read of an outcome after a join.
  abbrev pub outcome_value : Outcome Obj → Obj
  outcome_value (returned v) = v
  outcome_value (raised e) = e

  abbrev pub outcome_traceback : Outcome Obj → Option Obj → Option Obj
  outcome_traceback (returned v) old = old
  outcome_traceback (raised e) old = some (format_exc e)

  -- A result that is no exception object, or an exception that is one.
  abbrev pub IsPlain : Outcome Obj → Type 0
  IsPlain (returned v) = as_exception v ≡ none
  IsPlain (raised e) = (x : Exc) × (as_exception e ≡ some x)

  -- Joining a child that has ended takes exactly what it sent, in order: the value or the exception
  -- with its traceback, and with merging the globals, which are merged whether or not it raised.
  pub join-wrapped_target :
      (t : Thread Obj V) (out : Outcome Obj) (vars : Option V) (status : ℕ)
      → IsPlain out
      → t.pipe ≡ wrapped_target t out vars
      → join (some status) t
        ≡ ok (
          true,
          record t {
            pipe = [];
            exitcode = some status;
            ret_val = some (outcome_value out);
            traceback = outcome_traceback out t.traceback;
            shared_vars = if t.merging then merge t.shared_vars (extract vars) else t.shared_vars;
          },
        )
  unfolding join wrapped_target
  join-wrapped_target t (returned v) vars status h e = ground arith
  join-wrapped_target t (raised v) vars status h e = ground arith

  -- A join of a child whose function returned an exception object, instead of raising it, never
  -- returns, with or without merging: it waits for a traceback that was not sent.
  pub join-returned_exception :
      (t : Thread Obj V) (v : Obj) (x : Exc) (vars : Option V) (status : ℕ)
      → as_exception v ≡ some x
      → t.pipe ≡ wrapped_target t (returned v) vars
      → join (some status) t ≡ err blocked
  unfolding join wrapped_target
  join-returned_exception t v x vars status h e = ground arith
