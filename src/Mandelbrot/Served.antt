-- ===== src/Mandelbrot/Served.antt =====
-- The classes `Generator` of src/generator.cpp and of wrappers.py, as the polling loop of benchmark/*/mandelbrot.py sees them.
use snakefish.Prelude.{
  ==_self, if◌then◌else◌, ok, ℕ, ◌≡◌, refl, Bool, true, false, none, List, [], ◌∷◌, map,
}
use snakefish.Generator.{next_command, yields}
use snakefish.Generator
use snakefish.Generator.Protocol.{running}
use snakefish.Wrappers.Generator as Wrapper
use snakefish.Mandelbrot.{Plane, Row, compute_row}
use snakefish.Mandelbrot.Forked
use snakefish.Mandelbrot.Process
use snakefish.Mandelbrot.Loop.{Answer}
use snakefish.Mandelbrot.Polling.{Source, Serves}

module _ {C : Type 0} (plane : Plane C) (n : ℕ) (bytes : ℕ → List ℕ)
    (computes : (y : ℕ) → compute_row plane (y, n) ≡ ok (y, bytes y)) where
  abbrev make : ℕ → Row
  make y = (y, bytes y)

  module _ (pids : ℕ → ℕ) where
    abbrev pub forked_generator : Source → Generator.Generator Forked.Object
    forked_generator (k, asked, ys) =
        running (pids k) false asked (if asked then next_command ∷ [] else []) []
          (map (λ y. yields (Forked.row (make y))) ys)

    map-item :
        (ys : List ℕ)
        → map (λ j. Forked.item (compute_row plane j)) (map (λ y. (y, n)) ys)
          ≡ map (λ y. yields (Forked.row (make y))) ys
    map-item [] = refl
    map-item (y ∷ ys) = rw (computes y, map-item ys) refl

    forked-early :
        (k : ℕ) (asked : Bool) (ys : List ℕ)
        → (Forked.client plane pids).poll false (forked_generator (k, asked, ys))
          ≡ (Answer.not_ready, forked_generator (k, true, ys))
    unfolding Forked.client Forked.poll
    forked-early k true ys = refl
    forked-early k false ys = refl

    forked-served :
        (k : ℕ) (asked : Bool) (y : ℕ) (ys : List ℕ)
        → (Forked.client plane pids).poll true (forked_generator (k, asked, y ∷ ys))
          ≡ (Answer.row (make y), forked_generator (k, false, ys))
    unfolding Forked.client Forked.poll
    forked-served k true y ys = refl
    forked-served k false y ys = refl

    forked-stopped :
        (k : ℕ) (asked : Bool)
        → (Forked.client plane pids).poll true (forked_generator (k, asked, []))
          ≡ (Answer.exhausted, forked_generator (k, false, []))
    unfolding Forked.client Forked.poll
    forked-stopped k true = refl
    forked-stopped k false = refl

    pub forked-Serves : Serves (Forked.client plane pids) n make forked_generator
    unfolding Forked.client Forked.start_generator Forked.end_generator
    forked-Serves = record {
      starts = λ k ys. rw (map-item ys) refl;
      early = forked-early;
      served = forked-served;
      stopped = forked-stopped;
      ended = λ k. rw (==_self (pids k)) refl;
    }

  -- A generator of wrappers.py between two polls.
  abbrev pub process_generator : Source → Process.RowGenerator
  process_generator (k, asked, ys) = record {
    channel = [];
    commands = if asked then Wrapper.next_command ∷ [] else [];
    next_sent = asked;
    stop_sent = false;
    merging = false;
    shared_vars = tt;
    child_vars = tt;
    gen = map (λ y. ok (make y)) ys;
    exitcode = none;
  }

  map-result :
      (ys : List ℕ) → map (compute_row plane) (map (λ y. (y, n)) ys) ≡ map (λ y. ok (make y)) ys
  map-result [] = refl
  map-result (y ∷ ys) = rw (computes y, map-result ys) refl

  process-early :
      (k : ℕ) (asked : Bool) (ys : List ℕ)
      → (Process.client plane).poll false (process_generator (k, asked, ys))
        ≡ (Answer.not_ready, process_generator (k, true, ys))
  unfolding Process.client Process.poll
  process-early k true ys = refl
  process-early k false ys = refl

  process-served :
      (k : ℕ) (asked : Bool) (y : ℕ) (ys : List ℕ)
      → (Process.client plane).poll true (process_generator (k, asked, y ∷ ys))
        ≡ (Answer.row (make y), process_generator (k, false, ys))
  unfolding Process.client Process.poll
  process-served k true y ys = refl
  process-served k false y ys = refl

  process-stopped :
      (k : ℕ) (asked : Bool)
      → (Process.client plane).poll true (process_generator (k, asked, []))
        ≡ (Answer.exhausted, process_generator (k, false, []))
  unfolding Process.client Process.poll
  process-stopped k true = refl
  process-stopped k false = refl

  pub process-Serves : Serves (Process.client plane) n make process_generator
  unfolding Process.client Process.start_generator Process.end_generator
  process-Serves = record {
    starts = λ k ys. rw (map-result ys) refl;
    early = process-early;
    served = process-served;
    stopped = process-stopped;
    ended = λ k. refl;
  }
