-- ===== src/Examples/Generators/Alike.antt =====
-- The generator programs of examples/multiprocessing/ against those of examples/.
use snakefish.Prelude.{
  replicate, Result, ok, ℕ, zero, suc, ◌≡◌, refl, Bool, true, false, none, some, List, [], ◌∷◌,
  ◌++◌, map,
}
use snakefish.Examples.{Object, number, numbers, joined, not_joined, next}
use snakefish.Examples.Generators
use snakefish.Examples.Generators.Printed.{
  poll_lines, polling_lines, generator_lem, generator_exception_lem,
}
use snakefish.Examples.Generators.Process.{
  Gen, extract, merge_message, blocking, poll, polling, join_loop, until_stop,
}
use snakefish.Examples.Generators.Process
use snakefish.Wrappers.Generator.{Command, next_command, stop_command}

-- The generator with these commands sent, `asked` for a value, and the numbers to come.
abbrev state : Object → Bool → Bool → List Command → List (Result ℕ) → Gen
state a asked stopped cmds gen = record {
  channel = [];
  commands = cmds;
  next_sent = asked;
  stop_sent = stopped;
  merging = true;
  shared_vars = number 1;
  child_vars = a;
  gen = gen;
  exitcode = none;
}

abbrev at_rest : Object → List ℕ → Gen
at_rest a xs = state a false false [] (map (λ x. ok x) xs)

-- The generator behind the join.
abbrev ended : Object → List ℕ → Gen
ended a xs = record (state a false true [] (map (λ x. ok x) xs)) {
  shared_vars = a;
  exitcode = some 0;
}

poll-waiting_child :
    (a c : Object) (n x : ℕ) (rest : List ℕ)
    → poll a n (state c true false (next_command ∷ []) (map (λ x. ok x) (x ∷ rest)))
      ≡ ok (poll_lines n x, at_rest a rest)
unfolding poll
poll-waiting_child a c zero x rest = refl
poll-waiting_child a c (suc n) x rest = rw (poll-waiting_child a c n x rest) refl

poll-resting_child :
    (a c : Object) (n x : ℕ) (rest : List ℕ)
    → poll a n (at_rest c (x ∷ rest)) ≡ ok (poll_lines n x, at_rest a rest)
unfolding poll
poll-resting_child a c zero x rest = refl
poll-resting_child a c (suc n) x rest = rw (poll-waiting_child a c n x rest) refl

polling-resting_child :
    (a : Object) (taken : List (ℕ × ℕ)) (rest : List ℕ)
    → polling a (map (λ p. p.0) taken) (at_rest a (map (λ p. p.1) taken ++ rest))
      ≡ ok (polling_lines taken, at_rest a rest)
unfolding polling
polling-resting_child a [] rest = refl
polling-resting_child a ((n, x) ∷ taken) rest =
    rw
      (
        poll-resting_child a a n x (map (λ p. p.1) taken ++ rest),
        polling-resting_child a taken rest,
      )
      refl

join_loop-asked :
    (a : Object) (n : ℕ) (rest : List ℕ)
    → join_loop a n (state a false true (stop_command ∷ []) (map (λ x. ok x) rest))
      ≡ ok (replicate n not_joined ++ (joined ∷ []), ended a rest)
unfolding join_loop
join_loop-asked a zero rest = refl
join_loop-asked a (suc n) rest = rw (join_loop-asked a n rest) refl

join_loop-at_rest :
    (a : Object) (n : ℕ) (rest : List ℕ)
    → join_loop a n (at_rest a rest) ≡ ok (replicate n not_joined ++ (joined ∷ []), ended a rest)
unfolding join_loop
join_loop-at_rest a zero rest = refl
join_loop-at_rest a (suc n) rest = rw (join_loop-asked a n rest) refl

three_blocking :
    (a c : Object) (x1 x2 x3 : ℕ) (xs : List ℕ)
    → blocking a 3 (at_rest c (x1 ∷ x2 ∷ x3 ∷ xs))
      ≡ ok (next (number x1) ∷ next (number x2) ∷ next (number x3) ∷ [], at_rest a xs)
unfolding blocking
three_blocking a c x1 x2 x3 xs = refl

-- With the same numbers, the same polls and the same child's pace the programs on multiprocessing print what
-- those on snakefish print, and leave the same `a`: both of generator.py and both of
-- generator_exception.py.
pub generators_alike :
    (pid x1 x2 x3 x4 x5 x6 p1 p2 p3 n : ℕ) (rest : List ℕ) (x more : ℕ)
    → (Process.main (x1 ∷ x2 ∷ x3 ∷ x4 ∷ x5 ∷ x6 ∷ rest) p1 p2 p3 n
        ≡ Generators.main pid (x1 ∷ x2 ∷ x3 ∷ x4 ∷ x5 ∷ x6 ∷ rest) p1 p2 p3 n)
      × (Process.main_exception x (suc (suc (suc more)))
          ≡ Generators.main_exception pid x (suc (suc (suc more))))
unfolding Process.main Process.main_exception
generators_alike pid x1 x2 x3 x4 x5 x6 p1 p2 p3 n rest x more =
    let new_a : Object = numbers (42 ∷ []) in
    (
      rw
          (
            generator_lem pid x1 x2 x3 x4 x5 x6 p1 p2 p3 n rest,
            three_blocking new_a (number 1) x1 x2 x3 (x4 ∷ x5 ∷ x6 ∷ rest),
            polling-resting_child new_a ((p1, x4) ∷ (p2, x5) ∷ (p3, x6) ∷ []) rest,
            join_loop-at_rest new_a n rest,
          )
          refl,
      rw (generator_exception_lem pid x more) refl,
    )
