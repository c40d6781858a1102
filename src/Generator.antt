-- ===== src/Generator.antt =====
-- src/generator.h and src/generator.cpp: a Python generator that runs in a forked process and makes an
-- object when it is asked to. Both channels are queues; what `fork` and `waitpid` answer is an argument.
pub mod Protocol
pub mod Ending
mod Tests
use snakefish.Prelude.{
  ◌==◌, if◌then◌else◌, Exc, Result, ◌>>=◌, ℤ, negate, out_of_range, runtime_error, abort, pos,
  blocked, ok, err, ℕ, Bool, true, false, not, ◌||◌, Option, none, some, List, [], ◌∷◌, ◌++◌,
}
use snakefish.Thread.{Got, value, raises}
use snakefish.Thread.Process.{Fork, Waited, Status, exited, signaled, other}

-- `enum generator_cmd`
pub data Command : Type 0 where
  next_command stop_command : Command

-- How a call of `_next` ends: an object, or an exception with its type and formatted traceback.
pub data Item (Obj : Type 0) : Type 0 where
  yields : Obj → Item Obj
  throws : Obj → Obj → Obj → Item Obj

-- The members of `class generator` in the parent, with the two channels, which are shared. `gen` is the
-- child's: how the calls of `_next` to come end. Behind them it is exhausted.
pub record Generator (Obj : Type 0) : Type 0 where
  pub is_parent : Bool
  pub child_pid : ℕ
  pub started : Bool
  pub joined : Bool
  pub child_status : Status
  pub channel : List Obj
  pub cmd_channel : List Command
  pub next_sent : Bool
  pub stop_sent : Bool
  pub merging : Bool
  pub gen : List (Item Obj)
  pub exited_run : Bool

-- The three objects of a `StopIteration`.
pub record Exhausted (Obj : Type 0) : Type 0 where
  pub stop_value : Obj
  pub stop_type : Obj
  pub stop_traceback : Obj

module _ {Obj : Type 0} where
  -- The constructors: `is_generator` is what `inspect.isgeneratorfunction` answers, merging is having been
  -- given `extract` and `merge`.
  unfoldable pub init : Bool → Bool → List (Item Obj) → Result (Generator Obj)
  init is_generator merging gen =
      if not is_generator
      then err runtime_error
      else ok (record {
        is_parent = false;
        child_pid = 0;
        started = false;
        joined = false;
        child_status = exited 0;
        channel = [];
        cmd_channel = [];
        next_sent = false;
        stop_sent = false;
        merging = merging;
        gen = gen;
        exited_run = false;
      })

  -- `start()`, as it returns in the parent; in the child `run` follows.
  unfoldable pub start : Fork → Generator Obj → Result (Generator Obj)
  start fork g = if g.started then err runtime_error else elim fork [
    | Fork.parent pid ↦ ok (record g { is_parent = true; child_pid = pid; started = true })
    | Fork.child ↦ ok (record g { is_parent = false; child_pid = 0; started = true })
    | Fork.failed ↦ err runtime_error
  ]

  -- `send_cmd(cmd)`
  unfoldable pub send_cmd : Command → Generator Obj → Result (Generator Obj)
  send_cmd cmd g =
      if not g.is_parent
      then err abort
      else ok (record g { cmd_channel = g.cmd_channel ++ (cmd ∷ []) })

  -- The first part of `next`: at most one request is under way.
  unfoldable pub ask : Generator Obj → Result (Generator Obj)
  unfolding send_cmd
  ask g =
      if g.next_sent
      then ok g
      else (send_cmd next_command g >>= λ g'. ok (record g' { next_sent = true }))

  -- The first part of `join` and `try_join`.
  unfoldable pub request_stop : Generator Obj → Result (Generator Obj)
  unfolding send_cmd
  request_stop g =
      if g.stop_sent
      then ok g
      else (send_cmd stop_command g >>= λ g'. ok (record g' { stop_sent = true }))

  -- `get_exit_status()`
  unfoldable pub get_exit_status : Generator Obj → Result ℤ
  get_exit_status g =
      if not g.started || not g.joined then err runtime_error else elim g.child_status [
        | exited n ↦ ok (pos n)
        | signaled n ↦ ok (negate n)
        | other ↦ err abort
      ]

module _ {Obj : Type 0} (as_exception : Obj → Option Exc) where
  -- The rest of `next`. A call that raises leaves the generator as it is then.
  unfoldable pub receive_next : Bool → Generator Obj → Result (Got Obj) × Generator Obj
  receive_next block g = elim g.channel [
    | [] ↦ (err (if block then blocked else out_of_range), g)
    | val ∷ rest ↦
        let got = record g { channel = rest; next_sent = false } in
        elim (as_exception val) [
          | none ↦ (ok (value val), got)
          | some e ↦ elim rest [
            | [] ↦ (err blocked, got)
            | type ∷ rest' ↦ elim rest' [
              | [] ↦ (err blocked, record got { channel = [] })
              | lines ∷ rest'' ↦ (ok (raises (some type) val), record got { channel = rest'' })
            ]
          ]
        ]
  ]

  -- `next(block)`
  unfoldable pub next : Bool → Generator Obj → Result (Got Obj) × Generator Obj
  unfolding ask receive_next
  next block g = elim (ask g) [ err e ↦ (err e, g) | ok g' ↦ receive_next block g' ]

module _ {Obj G : Type 0} (ending : Exhausted Obj) (extract : G → Obj) where
  -- `NEXT` in the loop of `run`. A generator that has raised is exhausted.
  unfoldable pub answer : Generator Obj → Generator Obj
  answer g = elim g.gen [
    | [] ↦ record g {
      channel = g.channel ++ (ending.stop_value ∷ ending.stop_type ∷ ending.stop_traceback ∷ []);
    }
    | item ∷ rest ↦ elim item [
      | yields v ↦ record g { channel = g.channel ++ (v ∷ []); gen = rest }
      | throws v type lines ↦ record g { channel = g.channel ++ (v ∷ type ∷ lines ∷ []); gen = [] }
    ]
  ]

  -- A round of `while (true)` in the child, and behind `STOP` the rest of `run`. With no command the
  -- child waits. `globals` are the child's.
  unfoldable pub run_round : G → Generator Obj → Generator Obj
  unfolding answer
  run_round globals g = if g.exited_run then g else elim g.cmd_channel [
    | [] ↦ g
    | cmd ∷ rest ↦ elim cmd [
      | next_command ↦ answer (record g { cmd_channel = rest })
      | stop_command ↦ record g {
        cmd_channel = rest;
        channel = g.channel ++ (if g.merging then extract globals ∷ [] else []);
        exited_run = true;
      }
    ]
  ]

module _ {Obj G : Type 0} (merge : G → Obj → G) where
  -- What `join` and `try_join` do with a child that has been waited for: the first object in the
  -- channel is merged.
  unfoldable pub collect : Generator Obj → G → Result (Generator Obj × G)
  collect g globals = if not g.merging then ok (g, globals) else elim g.channel [
    | [] ↦ err blocked
    | o ∷ rest ↦ ok (record g { channel = rest }, merge globals o)
  ]

  -- `join()` behind `request_stop`.
  unfoldable pub join_waited : Waited → Generator Obj → G → Result (Generator Obj × G)
  unfolding collect
  join_waited waited g globals = elim waited [
    | Waited.failed ↦ err runtime_error
    | Waited.running ↦ err abort
    | Waited.ended pid status ↦
        if pid == g.child_pid
        then collect (record g { joined = true; child_status = status }) globals
        else err abort
  ]

  -- `try_join()` behind it: the test, the generator and the globals after.
  unfoldable pub try_join_waited : Waited → Generator Obj → G → Result (Bool × Generator Obj × G)
  unfolding join_waited
  try_join_waited waited g globals = elim waited [
    | Waited.running ↦ ok (false, g, globals)
    | w ↦ join_waited w g globals >>= λ (g', globals'). ok (true, g', globals')
  ]

  -- Both with their guards; between the two parts the child goes on, `child` in the meantime.
  unfoldable pub join :
      (Generator Obj → Generator Obj) → Waited → Generator Obj → G → Result (Generator Obj × G)
  unfolding request_stop join_waited
  join child waited g globals =
      if not g.started
      then err runtime_error
      else if not g.is_parent
      then err abort
      else (request_stop g >>= λ g'. join_waited waited (child g') globals)

  unfoldable pub try_join :
      (Generator Obj → Generator Obj)
      → Waited
      → Generator Obj
      → G
      → Result (Bool × Generator Obj × G)
  unfolding request_stop try_join_waited
  try_join child waited g globals =
      if not g.started
      then err runtime_error
      else if not g.is_parent
      then err abort
      else (request_stop g >>= λ g'. try_join_waited waited (child g') globals)
