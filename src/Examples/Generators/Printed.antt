-- ===== src/Examples/Generators/Printed.antt =====
-- What examples/generator.py and examples/generator_exception.py print.
use snakefish.Prelude.{
  ==_self, length, replicate, pos, user, ok, ℕ, zero, suc, ◌≡◌, refl, true, false, List, [], ◌∷◌,
  ◌++◌, map,
}
use snakefish.Examples.{
  Object, number, numbers, nested, exception, Line, was, is, joined, not_joined, exit_status,
  raised_type, next, not_ready, exhausted, extract, merge,
}
use snakefish.Examples.Generators.{
  ending, blocking, poll, polling, try_join_loop, main, main_exception, f_exception, until_stop,
}
use snakefish.Generator
use snakefish.Generator.{Generator, Item, stop_command, yields}
use snakefish.Generator.Protocol.{running}
use snakefish.Generator.Ending.{over, join-idle}

-- The generator with nothing under way, and the numbers to come.
abbrev at_rest : ℕ → List ℕ → Generator Object
at_rest pid xs = running pid true false [] [] (map (λ x. yields (number x)) xs)

abbrev shown : List ℕ → List Line
shown xs = map (λ x. next (number x)) xs

blocking-at_rest :
    (a : Object) (pid : ℕ) (xs rest : List ℕ)
    → blocking a (length xs) (at_rest pid (xs ++ rest)) ≡ ok (shown xs, at_rest pid rest)
unfolding blocking
blocking-at_rest a pid [] rest = refl
blocking-at_rest a pid (x ∷ xs) rest = rw (blocking-at_rest a pid xs rest) refl

-- The lines of polls for one value, and for several.
abbrev pub poll_lines : ℕ → ℕ → List Line
poll_lines n x = replicate n not_ready ++ (next (number x) ∷ [])

abbrev pub polling_lines : List (ℕ × ℕ) → List Line
polling_lines [] = []
polling_lines ((n, x) ∷ rest) = poll_lines n x ++ polling_lines rest

-- A request is under way or none is: the child answers it once.
poll-waiting :
    (a : Object) (pid n x : ℕ) (rest : List ℕ)
    → poll a n (
        running pid true true
          (Generator.next_command ∷ [])
          []
          (map (λ x. yields (number x)) (x ∷ rest)))
      ≡ ok (poll_lines n x, at_rest pid rest)
unfolding poll
poll-waiting a pid zero x rest = refl
poll-waiting a pid (suc n) x rest = rw (poll-waiting a pid n x rest) refl

poll-at_rest :
    (a : Object) (pid n x : ℕ) (rest : List ℕ)
    → poll a n (at_rest pid (x ∷ rest)) ≡ ok (poll_lines n x, at_rest pid rest)
unfolding poll
poll-at_rest a pid zero x rest = refl
poll-at_rest a pid (suc n) x rest = rw (poll-waiting a pid n x rest) refl

polling-at_rest :
    (a : Object) (pid : ℕ) (taken : List (ℕ × ℕ)) (rest : List ℕ)
    → polling a (map (λ p. p.0) taken) (at_rest pid (map (λ p. p.1) taken ++ rest))
      ≡ ok (polling_lines taken, at_rest pid rest)
unfolding polling
polling-at_rest a pid [] rest = refl
polling-at_rest a pid ((n, x) ∷ taken) rest =
    rw (poll-at_rest a pid n x (map (λ p. p.1) taken ++ rest), polling-at_rest a pid taken rest)
      refl

-- Stopping, with the request for it sent or not.
try_join_loop-asked :
    (a : Object) (pid n : ℕ) (rest : List ℕ) (globals : Object)
    → try_join_loop a pid n
        (record (at_rest pid rest) { cmd_channel = stop_command ∷ []; stop_sent = true })
        globals
      ≡ ok (
        replicate n not_joined ++ (joined ∷ []),
        over pid true false [] (map (λ x. yields (number x)) rest),
        merge globals (extract a),
      )
unfolding try_join_loop Generator.run_round
try_join_loop-asked a pid zero rest globals = rw (==_self pid) refl
try_join_loop-asked a pid (suc n) rest globals = rw (try_join_loop-asked a pid n rest globals) refl

try_join_loop-at_rest :
    (a : Object) (pid n : ℕ) (rest : List ℕ) (globals : Object)
    → try_join_loop a pid n (at_rest pid rest) globals
      ≡ ok (
        replicate n not_joined ++ (joined ∷ []),
        over pid true false [] (map (λ x. yields (number x)) rest),
        merge globals (extract a),
      )
unfolding try_join_loop Generator.run_round
try_join_loop-at_rest a pid zero rest globals = rw (==_self pid) refl
try_join_loop-at_rest a pid (suc n) rest globals =
    rw (try_join_loop-asked a pid n rest globals) refl

-- examples/generator.py prints three numbers, then for each number that it polls for a line for each poll that
-- found nothing, and the number: those that the generator makes, in order, none left out; then a line
-- for each failed `try_join`, status 0, and `a` as the child left it. This holds however often the child
-- is late.
pub generator_lem :
    (pid x1 x2 x3 x4 x5 x6 p1 p2 p3 n : ℕ) (rest : List ℕ)
    → main pid (x1 ∷ x2 ∷ x3 ∷ x4 ∷ x5 ∷ x6 ∷ rest) p1 p2 p3 n
      ≡ ok (
        was (number 1)
            ∷ ((next (number x1) ∷ next (number x2) ∷ next (number x3) ∷ [])
                ++ (polling_lines ((p1, x4) ∷ (p2, x5) ∷ (p3, x6) ∷ [])
                    ++ ((replicate n not_joined ++ (joined ∷ []))
                        ++ (exit_status (pos 0) ∷ is (numbers (42 ∷ [])) ∷ [])))),
        numbers (42 ∷ []),
      )
unfolding main
generator_lem pid x1 x2 x3 x4 x5 x6 p1 p2 p3 n rest =
    rw
      (
        blocking-at_rest (numbers (42 ∷ [])) pid (x1 ∷ x2 ∷ x3 ∷ []) (x4 ∷ x5 ∷ x6 ∷ rest),
        polling-at_rest (numbers (42 ∷ [])) pid ((p1, x4) ∷ (p2, x5) ∷ (p3, x6) ∷ []) rest,
        try_join_loop-at_rest (numbers (42 ∷ [])) pid n rest (number 1),
      )
      refl

until_stop-f :
    (a : Object) (pid x more : ℕ)
    → until_stop a (suc (suc (suc more))) (running pid true false [] [] (f_exception x))
      ≡ ok (
        next (number x) ∷ raised_type (exception (user 0)) ∷ exhausted ∷ [],
        running pid true false [] [] [],
      )
unfolding until_stop
until_stop-f a pid x more = refl

-- examples/generator_exception.py prints the number, the type of the exception that the generator raises, and that it
-- is exhausted after it; its loop is over after three rounds. The status is 0, and `a` is merged although the
-- generator raised.
pub generator_exception_lem :
    (pid x more : ℕ)
    → main_exception pid x (suc (suc (suc more)))
      ≡ ok (
        was (number 1)
            ∷ next (number x)
            ∷ raised_type (exception (user 0))
            ∷ exhausted
            ∷ exit_status (pos 0)
            ∷ is (nested ((42 ∷ []) ∷ []))
            ∷ [],
        nested ((42 ∷ []) ∷ []),
      )
unfolding main_exception
generator_exception_lem pid x more =
    let new_a : Object = nested ((42 ∷ []) ∷ []) in
    rw
      (
        until_stop-f new_a pid x more,
        (join-idle ending extract merge pid true [] new_a (number 1)).0,
      )
      refl
