-- ===== src/Generator/Tests.antt =====
-- src/generator.cpp on numbers; those from 100 on are exceptions.
use snakefish.Prelude.{
  ltb, if◌then◌else◌, Exc, stop_iteration, pos, ok, ℕ, ◌+◌, ◌≡◌, refl, true, false, Option, none,
  some, [], ◌∷◌,
}
use snakefish.Thread.Process.{Waited, exited}
use snakefish.Generator.{
  Generator, next_command, yields, Exhausted, next, run_round, join, try_join, get_exit_status,
}
use snakefish.Generator.Protocol.{running, Reach, Phase, Reach-Phase, asks, runs, here, later}
use snakefish.Generator.Ending.{finish, over, join-idle, join-unread}

abbrev as_exception : ℕ → Option Exc
as_exception n = if ltb n 100 then none else some stop_iteration

abbrev ending : Exhausted ℕ
ending = record { stop_value = 100; stop_type = 101; stop_traceback = 102 }

abbrev own : ℕ → ℕ
own g = g + 1

abbrev first_asked : Generator ℕ
first_asked = running 7 true true (next_command ∷ []) [] (yields 3 ∷ yields 4 ∷ [])

abbrev first_answered : Generator ℕ
first_answered = running 7 true true [] (3 ∷ []) (yields 4 ∷ [])

answered_by_two_steps :
    Reach as_exception ending own
      (running 7 true false [] [] (yields 3 ∷ yields 4 ∷ []), [])
      (first_answered, [])
unfolding next run_round
answered_by_two_steps =
    later {t = (first_asked, [])}
      (later {t = (running 7 true false [] [] (yields 3 ∷ yields 4 ∷ []), [])} here
        (asks false refl))
      (runs 5 refl)

Reach-Phase_example : Phase as_exception ending own 7 true (3 ∷ 4 ∷ []) (first_answered, [])
Reach-Phase_example =
    Reach-Phase as_exception ending own 7 true (3 ∷ 4 ∷ []) refl (refl, (refl, tt))
      (first_answered, []) answered_by_two_steps

join-idle_example :
    (join ◌+◌ (finish ending own 5) (Waited.ended 7 (exited 0)) (running 7 true false [] [] []) 1
      ≡ ok (over 7 true false [] [], 7))
    × (get_exit_status (over {Obj = ℕ} 7 true false [] []) ≡ ok (pos 0))
    × ((g' : Generator ℕ) × (try_join ◌+◌ (λ c. c) Waited.running (running 7 true false [] [] []) 1
          ≡ ok (false, g', 1))
        × (try_join ◌+◌ (finish ending own 5) (Waited.ended 7 (exited 0)) g' 1
            ≡ ok (true, over 7 true false [] [], 7)))
join-idle_example = join-idle ending own ◌+◌ 7 true [] 5 1

join-unread_example :
    (join ◌+◌ (finish ending own 5) (Waited.ended 7 (exited 0)) first_answered 1
      ≡ ok (over 7 true true (6 ∷ []) (yields 4 ∷ []), 4))
    × (join ◌+◌
          (λ g. run_round ending own 5 (finish ending own 5 g))
          (Waited.ended 7 (exited 0))
          first_asked
          1
        ≡ ok (over 7 true true (6 ∷ []) (yields 4 ∷ []), 4))
join-unread_example = join-unread ending own ◌+◌ 7 3 (yields 4 ∷ []) 5 1
