-- ===== src/Wrappers/Generator.antt =====
-- examples/multiprocessing/wrappers.py: the class `Generator`. `next` and `join` run in the parent, `serve` is a
-- round of the child's loop; the queue and the pipe between them are lists.
pub mod Draw
use snakefish.Prelude.{
  if◌then◌else◌, Exc, Result, out_of_range, stop_iteration, blocked, ok, err, ℕ, Bool, true, false,
  not, Option, none, some, List, [], ◌∷◌, ◌++◌,
}

pub data Command : Type 0 where
  next_command stop_command : Command

-- The objects in the queue: what the generator yields, an exception and the text of its traceback, and
-- what `extract` took.
pub data Message (A S : Type 0) : Type 0 where
  yielded : A → Message A S
  exception : Exc → Message A S
  format_exc : Message A S
  extracted : S → Message A S

-- Both sides' state. `gen` are the results of the calls of `next` on the child's generator to come; behind
-- them it is exhausted. `shared_vars` are the parent's, `child_vars` the child's copy.
pub record Generator (A S G : Type 0) : Type 0 where
  pub channel : List (Message A S)
  pub commands : List Command
  pub next_sent : Bool
  pub stop_sent : Bool
  pub merging : Bool
  pub shared_vars : G
  pub child_vars : G
  pub gen : List (Result A)
  pub exitcode : Option ℕ

module _ {A S G : Type 0} where
  -- `Generator(target, extract, merge, shared_vars)`, started: the arguments were given, or not.
  unfoldable pub init : Bool → G → List (Result A) → Generator A S G
  init given vars gen = record {
    channel = [];
    commands = [];
    next_sent = false;
    stop_sent = false;
    merging = given;
    shared_vars = vars;
    child_vars = vars;
    gen = gen;
    exitcode = none;
  }

  -- `self.channel.put(next(self.gen))`, or the exception and its traceback. A generator that has raised
  -- is exhausted.
  unfoldable pub put_next : Generator A S G → Generator A S G
  put_next g = elim g.gen [
    | [] ↦ record g { channel = g.channel ++ (exception stop_iteration ∷ format_exc ∷ []) }
    | r ∷ rest ↦ elim r [
      | ok a ↦ record g { channel = g.channel ++ (yielded a ∷ []); gen = rest }
      | err e ↦ record g { channel = g.channel ++ (exception e ∷ format_exc ∷ []); gen = [] }
    ]
  ]

  -- `next(block)` as far as the queue goes: `out_of_range` is `queue.Empty`.
  unfoldable pub next : Bool → Generator A S G → Result (Message A S) × Generator A S G
  next block g =
      let asked =
        if g.next_sent
        then g
        else (record g { commands = g.commands ++ (next_command ∷ []); next_sent = true }) in
      elim g.channel [
        | [] ↦ (err (if block then blocked else out_of_range), asked)
        | m ∷ rest ↦
            let got = record asked { channel = rest; next_sent = false } in
            elim m [
              | exception e ↦ elim rest [
                | [] ↦ (err blocked, got)
                | tb ∷ rest' ↦ (err e, record got { channel = rest' })
              ]
              | yielded a ↦ (ok (yielded a), got)
              | format_exc ↦ (ok format_exc, got)
              | extracted s ↦ (ok (extracted s), got)
            ]
      ]

  -- `join(timeout)` up to `super().join`, which waits for the child.
  unfoldable pub send_stop : Generator A S G → Generator A S G
  send_stop g =
      if g.stop_sent
      then g
      else (record g { commands = g.commands ++ (stop_command ∷ []); stop_sent = true })

  unfoldable pub get_exit_status : Generator A S G → Option ℕ
  get_exit_status g = g.exitcode

module _ {A S G : Type 0} (extract : G → S) where
  -- A round of the child's `while True`; with no command it waits. `STOP` ends the process.
  unfoldable pub wrapped_target : Generator A S G → Generator A S G
  unfolding put_next
  wrapped_target g = elim g.commands [
    | [] ↦ g
    | c ∷ rest ↦ elim c [
      | next_command ↦ put_next (record g { commands = rest })
      | stop_command ↦ record g {
        commands = rest;
        channel = g.channel ++ (if g.merging then extracted (extract g.child_vars) ∷ [] else []);
        exitcode = some 0;
      }
    ]
  ]

module _ {A S G : Type 0} (merge : G → Message A S → G) where
  -- `join(timeout)` behind `super().join`: what stands first in the queue is merged.
  unfoldable pub join : Generator A S G → Result (Bool × Generator A S G)
  join g = elim g.exitcode [
    | none ↦ ok (false, g)
    | some code ↦ if not g.merging then ok (true, g) else elim g.channel [
      | [] ↦ err blocked
      | m ∷ rest ↦ ok (true, record g { channel = rest; shared_vars = merge g.shared_vars m })
    ]
  ]
