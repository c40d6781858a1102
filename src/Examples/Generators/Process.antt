-- ===== src/Examples/Generators/Process.antt =====
-- examples/multiprocessing/generator.py and examples/multiprocessing/generator_exception.py, on the class `Generator` of
-- wrappers.py. The exit code that `Process.join(0)` leaves is `none` until the child has ended.
use snakefish.Prelude.{
  Result, ◌>>=◌, out_of_range, stop_iteration, crash, blocked, user, ok, err, ℕ, zero, suc, Bool,
  true, false, List, [], ◌∷◌, ◌++◌, map,
}
use snakefish.Examples.{
  Object, number, numbers, nested, Line, was, is, joined, not_joined, raised_type, next, not_ready,
  exhausted, print_status,
}
use snakefish.Wrappers.Generator
use snakefish.Wrappers.Generator.{Message, yielded, extracted}

-- A process's objects: the numbers that the generator yields, and the global `a`.
abbrev pub Gen : Type 0
Gen = Generator.Generator ℕ Object Object

abbrev pub extract : Object → Object
extract a = a

abbrev pub merge_message : Object → Message ℕ Object → Object
merge_message a (extracted new) = new
merge_message a m = a

-- The child's loop, once `f` has set its global `a`.
abbrev pub child : Object → Gen → Gen
child a g = Generator.wrapped_target extract (record g { child_vars = a })

abbrev pub waiting_next : Object → Bool → Gen → Result (Message ℕ Object) × Gen
waiting_next a block g = Generator.next block (child a (Generator.next block g).1)

abbrev pub print_next : Result (Message ℕ Object) × Gen → Result (Line × Gen)
print_next (ok (yielded x), g) = ok (next (number x), g)
print_next (ok m, g) = err crash
print_next (err e, g) = err e

unfoldable pub blocking : Object → ℕ → Gen → Result (List Line × Gen)
unfolding Generator.next Generator.wrapped_target
blocking a zero g = ok ([], g)
blocking a (suc n) g = print_next (waiting_next a true g) >>= λ (line, g').
    blocking a n g' >>= λ (lines, g''). ok (line ∷ lines, g'')

-- `queue.Empty` is waited for.
unfoldable pub poll : Object → ℕ → Gen → Result (List Line × Gen)
unfolding Generator.next Generator.wrapped_target
poll a zero g = print_next (waiting_next a false g) >>= λ (line, g'). ok (line ∷ [], g')
poll a (suc n) g =
    let (r, g') = Generator.next false g in
    let rest = poll a n g' in
    elim r [
      | ok got ↦ print_next (ok got, g') >>= λ (line, g''). ok (line ∷ [], g'')
      | err e ↦ elim e [
        | out_of_range ↦ rest >>= λ (lines, g''). ok (not_ready ∷ lines, g'')
        | other ↦ err other
      ]
    ]

unfoldable pub polling : Object → List ℕ → Gen → Result (List Line × Gen)
polling a [] g = ok ([], g)
polling a (n ∷ ns) g =
    poll a n g >>= λ (lines, g'). polling a ns g' >>= λ (lines', g''). ok (lines ++ lines', g'')

-- `while True: if g.join(0) …`
unfoldable pub join_loop : Object → ℕ → Gen → Result (List Line × Gen)
unfolding Generator.send_stop Generator.join Generator.wrapped_target
join_loop a zero g = Generator.join merge_message (child a (Generator.send_stop g)) >>= λ (_, g').
    ok (joined ∷ [], g')
join_loop a (suc n) g = Generator.join merge_message (Generator.send_stop g) >>= λ (_, g').
    join_loop a n g' >>= λ (lines, g''). ok (not_joined ∷ lines, g'')

unfoldable pub main : List ℕ → ℕ → ℕ → ℕ → ℕ → Result (List Line × Object)
unfolding Generator.init Generator.get_exit_status print_status
main xs p1 p2 p3 n =
    let a = number 1 in
    let new_a = numbers (42 ∷ []) in
    let g : Gen = Generator.init true a (map (λ x. ok x) xs) in
    blocking new_a 3 g >>= λ (lines, g2). polling new_a (p1 ∷ p2 ∷ p3 ∷ []) g2 >>= λ (lines', g3).
    join_loop new_a n g3 >>= λ (lines'', g4).
    print_status (Generator.get_exit_status g4) >>= λ status.
    ok (
      was a ∷ (lines ++ (lines' ++ (lines'' ++ (status ∷ is g4.shared_vars ∷ [])))),
      g4.shared_vars,
    )

unfoldable pub until_stop : Object → ℕ → Gen → Result (List Line × Gen)
unfolding Generator.next Generator.wrapped_target
until_stop a zero g = err blocked
until_stop a (suc n) g =
    let (r, g') = waiting_next a true g in
    let more = until_stop a n g' in
    elim r [
      | ok m ↦
          print_next (ok m, g') >>= λ (line, _). more >>= λ (lines, g''). ok (line ∷ lines, g'')
      | err e ↦ elim e [
        | stop_iteration ↦ ok (exhausted ∷ [], g')
        | other ↦ more >>= λ (lines, g''). ok (raised_type (Object.exception other) ∷ lines, g'')
      ]
    ]

-- `f` yields one random number and raises `Exception("triggered")`.
unfoldable pub main_exception : ℕ → ℕ → Result (List Line × Object)
unfolding Generator.init Generator.send_stop Generator.join Generator.get_exit_status until_stop
    print_status
main_exception x rounds =
    let a = number 1 in
    let new_a = nested ((42 ∷ []) ∷ []) in
    let g : Gen = Generator.init true a (ok x ∷ err (user 0) ∷ []) in
    until_stop new_a rounds g >>= λ (lines, g2).
    Generator.join merge_message (child new_a (Generator.send_stop g2)) >>= λ (_, g3).
    print_status (Generator.get_exit_status g3) >>= λ status.
    ok (was a ∷ (lines ++ (status ∷ is g3.shared_vars ∷ [])), g3.shared_vars)
