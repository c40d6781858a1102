-- ===== src/Thread.antt =====
-- src/thread.h, src/thread.cpp: a Python function run in a forked child, its result and the merged
-- globals brought back through a channel when the child is joined.
--
-- The channel is the queue of objects that it holds (module Channel says when it is one). What `fork` and
-- `waitpid` return is an argument of the operation that calls them.
pub mod Process
pub mod Lifecycle
pub mod Race
mod Tests
use snakefish.Prelude.{
  ◌==◌, if◌then◌else◌, Exc, Result, ◌>>=◌, ℤ, negate, runtime_error, crash, abort, pos, blocked,
  unspecified, ok, err, ℕ, Bool, true, false, not, ◌||◌, Option, none, some, List, [], ◌∷◌, ◌++◌,
}
use snakefish.Thread.Process.{Fork, Waited, Status, exited, signaled, other}

-- How the child's call of `func` ends. An exception comes with its type and formatted traceback.
pub data Outcome (Obj : Type 0) : Type 0 where
  returned : Obj → Outcome Obj
  raised : Obj → Obj → Obj → Outcome Obj

-- The members of `class thread` in one process. `alive` and `channel` lie in shared memory. A member that
-- still is the empty `py::object()` is `none`.
pub record Thread (Obj : Type 0) : Type 0 where
  pub is_parent : Bool
  pub child_pid : ℕ
  pub started : Bool
  pub joined : Bool
  pub alive : Bool
  pub child_status : Status
  pub ret_val : Option Obj
  pub exc_type : Option Obj
  pub exc_traceback : Option Obj
  pub channel : List Obj
  pub merging : Bool

-- What `get_result` does in the end: return a value, or raise an exception with a type, which may be
-- the empty object.
pub data Got (Obj : Type 0) : Type 0 where
  value : Obj → Got Obj
  raises : Option Obj → Obj → Got Obj

-- `receive_pyobj(true)`
abbrev pub receive : {Obj : Type 0} → List Obj → Result (Obj × List Obj)
receive [] = err blocked
receive (o ∷ q) = ok (o, q)

module _ {Obj : Type 0} where
  -- The two constructors: merging is having been given `extract` and `merge`.
  unfoldable pub init : Bool → Thread Obj
  init merging = record {
    is_parent = false;
    child_pid = 0;
    started = false;
    joined = false;
    alive = false;
    child_status = exited 0;
    ret_val = none;
    exc_type = none;
    exc_traceback = none;
    channel = [];
    merging = merging;
  }

  -- The parent behind `fork()`, and its last step in `start()`: `alive->store(true)`. The child may run in
  -- between, and in any order with the latter.
  abbrev pub forked : ℕ → Thread Obj → Thread Obj
  forked pid t = record t { is_parent = true; child_pid = pid; started = true }

  abbrev pub mark_alive : Thread Obj → Thread Obj
  mark_alive t = record t { alive = true }

  -- `start()`: the thread as it is then in the process that `fork` returns in. In the child `run` follows.
  unfoldable pub start : Fork → Thread Obj → Result (Thread Obj)
  start fork t = if t.started then err runtime_error else elim fork [
    | Fork.parent pid ↦ ok (mark_alive (forked pid t))
    | Fork.child ↦ ok (record t { is_parent = false; child_pid = 0; started = true })
    | Fork.failed ↦ err runtime_error
  ]

  -- `is_alive()`
  unfoldable pub is_alive : Thread Obj → Bool
  is_alive t = t.alive

  -- `get_exit_status()`
  unfoldable pub get_exit_status : Thread Obj → Result ℤ
  get_exit_status t =
      if not t.started || not t.joined then err runtime_error else elim t.child_status [
        | exited n ↦ ok (pos n)
        | signaled n ↦ ok (negate n)
        | other ↦ err abort
      ]

-- What `func` and the caller's `extract` and `merge` are to a thread: `extract` reads the child's globals
-- into an object, `merge` updates the parent's with it. `as_exception` is the test for an instance
-- of `Exception`, `join_lines` is `"".join`.
module _ {Obj G : Type 0} (as_exception : Obj → Option Exc) (join_lines : Obj → Obj)
    (extract : G → Obj) (merge : G → Obj → G) where
  -- What the child sends, in order, with its globals as `func` left them.
  abbrev pub sent : Bool → Outcome Obj → G → List Obj
  sent merging (returned v) g = (if merging then extract g ∷ [] else []) ++ (v ∷ [])
  sent merging (raised v type traceback) g =
      (if merging then extract g ∷ [] else []) ++ (v ∷ type ∷ traceback ∷ [])

  -- `run()` up to `std::exit(0)`
  unfoldable pub run : Outcome Obj → G → Thread Obj → Result (Thread Obj)
  run out g t =
      if t.is_parent
      then err abort
      else if not t.started
      then err abort
      else ok (record t { channel = t.channel ++ sent t.merging out g; alive = false })

  -- What `join` and `try_join` do with a child that has been waited for.
  unfoldable pub collect : Thread Obj → G → Result (Thread Obj × G)
  collect t g =
      if t.merging
      then (receive t.channel >>= λ (globals, q). receive q >>= λ (v, q').
          ok (record t { ret_val = some v; channel = q' }, merge g globals))
      else (receive t.channel >>= λ (v, q). ok (record t { ret_val = some v; channel = q }, g))

  -- `join()`: `waitpid` without `WNOHANG` does not return 0.
  unfoldable pub join : Waited → Thread Obj → G → Result (Thread Obj × G)
  unfolding collect
  join waited t g =
      if not t.started
      then err runtime_error
      else if not t.is_parent
      then err abort
      else elim waited [
        | Waited.failed ↦ err runtime_error
        | Waited.running ↦ err abort
        | Waited.ended pid status ↦
            if pid == t.child_pid
            then collect (record t { joined = true; child_status = status }) g
            else err abort
      ]

  -- `try_join()`: the test, the thread and the globals after.
  unfoldable pub try_join : Waited → Thread Obj → G → Result (Bool × Thread Obj × G)
  unfolding collect
  try_join waited t g =
      if not t.started
      then err runtime_error
      else if not t.is_parent
      then err abort
      else elim waited [
        | Waited.failed ↦ err runtime_error
        | Waited.running ↦ ok (false, t, g)
        | Waited.ended pid status ↦
            if pid == t.child_pid
            then (collect (record t { joined = true; child_status = status }) g >>= λ (t', g').
                ok (true, t', g'))
            else err abort
      ]

  -- The type and traceback of an exception are received by the first call of all that raises:
  -- `exc_received` is one static variable for the whole process.
  unfoldable pub receive_exception : Bool → Thread Obj → Result (Bool × Thread Obj)
  receive_exception exc_received t =
      if exc_received
      then ok (true, t)
      else (receive t.channel >>= λ (type, q). receive q >>= λ (lines, q'). ok (
        true,
        record t { exc_type = some type; exc_traceback = some (join_lines lines); channel = q' },
      ))

  -- `get_result()`, with `exc_received` before and after. The call of `py::print` on an empty `exc_traceback` is
  -- `unspecified`; what else it prints is not kept.
  unfoldable pub get_result : Bool → Thread Obj → Result (Got Obj × Bool × Thread Obj)
  unfolding receive_exception
  get_result exc_received t =
      if not t.started || not t.joined then err runtime_error else elim t.ret_val [
        | none ↦ err crash
        | some v ↦ elim (as_exception v) [
          | none ↦ ok (value v, exc_received, t)
          | some e ↦ receive_exception exc_received t >>= λ (received, t'). elim t'.exc_traceback [
            | none ↦ err unspecified
            | some lines ↦ ok (raises t'.exc_type v, received, t')
          ]
        ]
      ]
