-- ===== src/Thread/Tests.antt =====
-- Threads on concrete inputs. Objects are numbers, those from 100 on exceptions; the globals are a number.
use snakefish.Prelude.{
  ltb, if◌then◌else◌, Exc, ◌>>=◌, pos, user, unspecified, ok, err, ℕ, ◌+◌, ◌*◌, ◌≡◌, refl, Bool,
  List, true, false, Option, none, some, [], ◌∷◌,
}
use snakefish.Thread.{Thread, returned, raised, value, raises, is_alive, run, init, join}
use snakefish.Thread.Process.{Waited, exited}
use snakefish.Thread.Race.{
  System, state, Reach, here, later, marks, ends, Reach-joined, alive_after_join,
}
use snakefish.Thread.Lifecycle.{
  run_to_end, join_and_get, joined, both_results, join_and_get-run_to_end,
  get_result-second_exception,
}

abbrev as_exception : ℕ → Option Exc
as_exception n = if ltb n 100 then none else some (user n)

abbrev join_lines : ℕ → ℕ
join_lines n = n + 1000

abbrev extract : ℕ → ℕ
extract g = g * 2

abbrev merge : ℕ → ℕ → ℕ
merge g e = g + e

join_and_get-run_to_end_example :
    (run_to_end as_exception join_lines extract merge true 7 (raised 100 1 2) 5
      >>= join_and_get as_exception join_lines extract merge false 7 (exited 0) 3)
    ≡ ok (raises (some 1) 100, pos 0, 13)
join_and_get-run_to_end_example =
    join_and_get-run_to_end as_exception join_lines extract merge false true 7 (raised 100 1 2) 5 3
      (user 100, refl)

-- The second thread's exception 101 is not raised.
get_result-second_exception_example :
    (joined as_exception join_lines extract merge true 7 (raised 100 1 2) 5 3 >>= λ (a, g').
    joined as_exception join_lines extract merge false 8 (raised 101 1 2) 5 g' >>= λ (b, _).
    both_results as_exception join_lines extract merge false a b)
    ≡ ok (raises (some 1) 100, err unspecified)
get_result-second_exception_example =
    get_result-second_exception as_exception join_lines extract merge true false 7 8 100 1 2
      (raised 101 1 2) 5 5 3 (user 100, refl) (user 101, refl)

-- The states of a thread that returns 4, without merging.
abbrev raced : Bool → Bool → List ℕ → Bool → System ℕ
raced = state false 7

Reach-joined_example :
    (true ≡ false → is_alive (raced true true (4 ∷ []) true).parent ≡ true)
    × (true ≡ true
        → join_and_get as_exception join_lines extract merge true 7
            (exited 0)
            3
            (raced true true (4 ∷ []) true).parent
          ≡ ok (value 4, pos 0, 3))
unfolding run init
Reach-joined_example =
    Reach-joined as_exception join_lines extract merge (returned 4) 5 false 7 refl true 3
      (raced true true (4 ∷ []) true)
      (later {t = raced false true (4 ∷ []) false} (later here (ends refl refl)) (marks refl refl))
      refl

alive_after_join_example :
    (s : System ℕ) × (t : Thread ℕ) × (g' : ℕ) × Reach as_exception join_lines extract merge
      (returned 4)
      5
      (raced false false [] false)
      s
    × (s.marked ≡ true)
    × (s.ended ≡ true)
    × (join as_exception join_lines extract merge (Waited.ended 7 (exited 0)) s.parent 3
        ≡ ok (t, g'))
    × (is_alive t ≡ true)
alive_after_join_example =
    alive_after_join as_exception join_lines extract merge (returned 4) 5 false 7 3
