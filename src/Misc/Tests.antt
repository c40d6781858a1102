-- ===== src/Misc/Tests.antt =====
-- `map` on concrete inputs. 9 makes the function raise; the globals count the calls, and merging adds up
-- the counts.
use snakefish.Prelude.{
  ◌==◌, if◌then◌else◌, Exc, Result, ◌>>=◌, map_result, crash, user, ok, err, ℕ, ◌+◌, ◌*◌, ◌≡◌, refl,
  true, false, [], ◌∷◌, arith,
}
use snakefish.Job.{Value, results, run_all}
use snakefish.Misc
use snakefish.Misc.{round_up_div}
use snakefish.Misc.Correct.{raised_again}
use snakefish.Misc.Total.{map-eq-map_result, map-nil}

abbrev double : ℕ → ℕ → Result ℕ × ℕ
double a g = (if a == 9 then err (user 9) else ok (2 * a), g + 1)

abbrev double_only : ℕ → Result ℕ
double_only a = if a == 9 then err (user 9) else ok (2 * a)

abbrev no_object : Exc → Value ℕ
no_object e = results []

abbrev same : Value ℕ → Value ℕ
same v = v

abbrev extract : ℕ → Value ℕ
extract g = results (g ∷ [])

abbrev merge : ℕ → Value ℕ → ℕ
merge g (results (n ∷ [])) = g + n
merge g v = g

-- Three chunks, in two batches of at most two: each child counts on from its fork.
map_run :
    Misc.map double no_object no_object same extract merge true 7 false 4 (1 ∷ 2 ∷ 3 ∷ []) 2 1 0
    ≡ ok (2 ∷ 4 ∷ 6 ∷ [], 5)
unfolding Misc.map Misc.batches round_up_div run_all Misc.split_args Misc.spawn_thread
map_run = refl

map-eq-map_result_example :
    (g' : ℕ) × (Misc.map double no_object no_object same extract merge false 7 true 4
        (1 ∷ 9 ∷ 3 ∷ [])
        0
        0
        0
      ≡ (raised_again (map_result double_only (1 ∷ 9 ∷ 3 ∷ [])) true >>= λ bs. ok (bs, g')))
    × (false ≡ false → g' ≡ 0)
map-eq-map_result_example =
    map-eq-map_result double no_object no_object same extract merge false 7 true double_only
      (λ a g. refl) 4 (1 ∷ 9 ∷ 3 ∷ []) 0 0 0 (omega arith, omega arith, omega arith)

map-nil_example :
    Misc.map double no_object no_object same extract merge true 7 false 4 [] 2 0 0 ≡ err crash
map-nil_example =
    map-nil double no_object no_object same extract merge true 7 false double_only (λ a g. refl) 4 2
      0 (omega arith) (omega arith)
