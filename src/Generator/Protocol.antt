-- ===== src/Generator/Protocol.antt =====
-- The commands and answers between parent and child of src/generator.cpp, in every order of their steps: the
-- parent's calls of `next`, blocking or not, and the rounds of the child's loop.
use snakefish.Prelude.{
  Exc, Result, stop_iteration, ok, ℕ, ◌≡◌, refl, sym, ap, ◌∙◌, Bool, true, false, Option, none,
  some, List, [], ◌∷◌, ◌++◌, map, append-nil, append_assoc,
}
use snakefish.Thread.{Got, value}
use snakefish.Thread.Process.{exited}
use snakefish.Generator.{Generator, Item, Command, next_command, yields, Exhausted, next, run_round}

-- A generator that has been started, in the parent, and not been stopped.
abbrev pub running :
    {Obj : Type 0} → ℕ → Bool → Bool → List Command → List Obj → List (Item Obj) → Generator Obj
running pid merging next_sent cmds objects gen = record {
  is_parent = true;
  child_pid = pid;
  started = true;
  joined = false;
  child_status = exited 0;
  channel = objects;
  cmd_channel = cmds;
  next_sent = next_sent;
  stop_sent = false;
  merging = merging;
  gen = gen;
  exited_run = false;
}

module _ {Obj G : Type 0} (as_exception : Obj → Option Exc) (ending : Exhausted Obj)
    (extract : G → Obj) where
  -- The generator, and the values that the parent's calls have returned so far.
  abbrev pub System : Type 0
  System = Generator Obj × List Obj

  abbrev pub noted : Result (Got Obj) × Generator Obj → List Obj → System
  noted (ok (value v), g) received = (g, received ++ (v ∷ []))
  noted (r, g) received = (g, received)

  -- A call of `next` in the parent, one that blocks being in its wait; a round in the child.
  pub data Step (s t : System) : Type 0 where
    asks : (block : Bool) → t ≡ noted (next as_exception block s.0) s.1 → Step s t
    runs : (globals : G) → t ≡ (run_round ending extract globals s.0, s.1) → Step s t

  pub data Reach (s : System) : System → Type 0 where
    here : Reach s s
    later : {t u : System} → Reach s t → Step t u → Reach s u

  -- Values that are no exceptions.
  abbrev pub AllPlain : List Obj → Type 0
  AllPlain [] = Unit
  AllPlain (v ∷ vs) = (as_exception v ≡ none) × AllPlain vs

  abbrev pub stop_objects : List Obj
  stop_objects = ending.stop_value ∷ ending.stop_type ∷ ending.stop_traceback ∷ []

  module _ (pid : ℕ) (merging : Bool) (xs : List Obj) where
    -- Nothing is under way, or a command is, or its answer: a value, or that the generator is exhausted.
    -- The values received, under way and to come are `xs`.
    pub data Phase (s : System) : Type 0 where
      idle :
          (received rest : List Obj)
          → received ++ rest ≡ xs
          → AllPlain rest
          → s ≡ (running pid merging false [] [] (map yields rest), received)
          → Phase s
      asked :
          (received rest : List Obj)
          → received ++ rest ≡ xs
          → AllPlain rest
          → s ≡ (running pid merging true (next_command ∷ []) [] (map yields rest), received)
          → Phase s
      answered :
          (received rest : List Obj) (v : Obj)
          → received ++ (v ∷ rest) ≡ xs
          → AllPlain (v ∷ rest)
          → s ≡ (running pid merging true [] (v ∷ []) (map yields rest), received)
          → Phase s
      stopping :
          (received : List Obj)
          → received ≡ xs
          → s ≡ (running pid merging true [] stop_objects [], received)
          → Phase s

    module _ (is_stop : as_exception ending.stop_value ≡ some stop_iteration) where
      value_taken :
          (block : Bool) (received : List Obj) (v : Obj) (gen : List (Item Obj))
          → as_exception v ≡ none
          → noted (next as_exception block (running pid merging true [] (v ∷ []) gen)) received
            ≡ (running pid merging false [] [] gen, received ++ (v ∷ []))
      unfolding next
      value_taken block received v gen e = rw e refl

      stop_taken :
          (block : Bool) (received : List Obj)
          → noted (next as_exception block (running pid merging true [] stop_objects [])) received
            ≡ (running pid merging false [] [] [], received)
      unfolding next
      stop_taken block received = rw is_stop refl

      Step-Phase : {s t : System} → Step s t → Phase s → Phase t
      unfolding next run_round
      Step-Phase (asks block e) (idle received rest h plain eq) =
          asked received rest h plain (e ∙ ap (λ s. noted (next as_exception block s.0) s.1) eq)
      Step-Phase (asks block e) (asked received rest h plain eq) =
          asked received rest h plain (e ∙ ap (λ s. noted (next as_exception block s.0) s.1) eq)
      Step-Phase (asks block e) (answered received rest v h plain eq) =
          idle (received ++ (v ∷ [])) rest (append_assoc received (v ∷ []) rest ∙ h) plain.1 (
            e
            ∙ ap (λ s. noted (next as_exception block s.0) s.1) eq
            ∙ value_taken block received v (map yields rest) plain.0)
      Step-Phase (asks block e) (stopping received h eq) =
          idle received [] (append-nil received ∙ h) tt
            (e ∙ ap (λ s. noted (next as_exception block s.0) s.1) eq ∙ stop_taken block received)
      Step-Phase (runs globals e) (idle received rest h plain eq) =
          idle received rest h plain (e ∙ ap (λ s. (run_round ending extract globals s.0, s.1)) eq)
      Step-Phase (runs globals e) (asked received [] h plain eq) =
          stopping received (sym (append-nil received) ∙ h)
            (e ∙ ap (λ s. (run_round ending extract globals s.0, s.1)) eq)
      Step-Phase (runs globals e) (asked received (v ∷ rest) h plain eq) =
          answered received rest v h plain
            (e ∙ ap (λ s. (run_round ending extract globals s.0, s.1)) eq)
      Step-Phase (runs globals e) (answered received rest v h plain eq) =
          answered received rest v h plain
            (e ∙ ap (λ s. (run_round ending extract globals s.0, s.1)) eq)
      Step-Phase (runs globals e) (stopping received h eq) =
          stopping received h (e ∙ ap (λ s. (run_round ending extract globals s.0, s.1)) eq)

      -- For a generator that yields `xs`, however the parent's calls, blocking or not, and the child's rounds
      -- take turns: at most one command or one answer is under way, and exactly if the parent has noted that
      -- it asked; the values received, the one under way and those to come are `xs`, in order.
      pub Reach-Phase :
          AllPlain xs
          → (s : System) → Reach (running pid merging false [] [] (map yields xs), []) s
          → Phase s
      Reach-Phase plain s here = idle [] xs refl plain refl
      Reach-Phase plain s (later {t = t} r st) = Step-Phase st (Reach-Phase plain t r)
