-- ===== src/Wrappers/Tests.antt =====
-- The wrappers on concrete inputs. Arguments are numbers; 9 makes the function raise.
use snakefish.Prelude.{
  Bool, Bool-cases, inl, inr, length, suc, ◌≤◌, ◌&&◌, ◌>>=◌, ltb, ◌==◌, if◌then◌else◌, Exc, Result,
  map_result, blocked, user, ok, err, ℕ, ◌+◌, ◌*◌, ◌≡◌, refl, true, false, Option, none, some, List,
  [], ◌∷◌, arith,
}
use snakefish.Job.{Value, results, exception, run_all}
use snakefish.Wrappers.Thread
use snakefish.Wrappers.Thread.{Thread, Outcome, returned, raised}
use snakefish.Wrappers.Thread.{join-wrapped_target, join-returned_exception}
use snakefish.Wrappers.Map
use snakefish.Wrappers.Map.{ceil_div, run_job, spawn, collect, batches}
use snakefish.Wrappers.Map.Correct.{process_map-eq-map_result}
use snakefish.Wrappers.Map.Limits.{join-run_job}

-- Twice the argument; the globals count the calls.
abbrev double : ℕ → ℕ → Result ℕ × ℕ
double a g = (if a == 9 then err (user 9) else ok (2 * a), g + 1)

abbrev double_only : ℕ → Result ℕ
double_only a = if a == 9 then err (user 9) else ok (2 * a)

abbrev format_exc : Value ℕ → Value ℕ
format_exc v = results []

abbrev extract : Option ℕ → Value ℕ
extract v = results []

abbrev merge : Option ℕ → Value ℕ → Option ℕ
merge v new = v

abbrev args : List ℕ
args = 1 ∷ 2 ∷ 3 ∷ 4 ∷ 5 ∷ []

-- A pipe that takes lists of fewer than six numbers.
abbrev short : List (Value ℕ) → Bool
short [] = true
short (results ns ∷ sent) = ltb (length ns) 6 && short sent
short (exception e ∷ sent) = short sent

abbrev AtMost : ℕ → Result (List ℕ) → Type 0
AtMost n (ok bs) = length bs ≤ n
AtMost n (err e) = Unit

AtMost-suc : (y n : ℕ) (r : Result (List ℕ)) → AtMost n r → AtMost (suc n) (r >>= λ ys. ok (y ∷ ys))
AtMost-suc y n (ok bs) h = omega arith
AtMost-suc y n (err e) h = tt

run_all-AtMost : (chunk : List ℕ) (g : ℕ) → AtMost (length chunk) (run_all double chunk g).0
unfolding run_all
run_all-AtMost [] g = omega arith
run_all-AtMost (x ∷ xs) g = elim (Bool-cases (x == 9)) [
  | inl e ↦ rw (AtMost, run_all, e) tt
  | inr e ↦
      rw (AtMost, run_all, e)
        (AtMost-suc (2 * x) (length xs) (run_all double xs (g + 1)).0 (run_all-AtMost xs (g + 1)))
]

sent_few :
    (n : ℕ) (r : Result (List ℕ))
    → n ≤ 3
    → AtMost n r
    → short (
        Thread.wrapped_target Map.as_exception format_exc extract merge
          (Thread.init true true none)
          (Map.outcome r)
          none)
      ≡ true
unfolding Thread.wrapped_target Thread.init
sent_few n (ok bs) h few = ground arith
sent_few n (err e) h few = refl

sent_short :
    (chunk : List ℕ)
    → length chunk ≤ 3
    → short (run_job double 0 format_exc extract merge true true chunk).pipe ≡ true
unfolding run_job
sent_short chunk h = sent_few (length chunk) (run_all double chunk 0).0 h (run_all-AtMost chunk 0)

map_run :
    Map.map double 0 format_exc extract merge short true true 4 args 2 1
    ≡ ok (2 ∷ 4 ∷ 6 ∷ 8 ∷ 10 ∷ [])
unfolding Map.map run_all
map_run = refl

process_map-eq-map_result_example :
    Map.map double 0 format_exc extract merge short true true 4 (1 ∷ 9 ∷ 3 ∷ []) 0 0
    ≡ map_result double_only (1 ∷ 9 ∷ 3 ∷ [])
process_map-eq-map_result_example =
    process_map-eq-map_result double 0 format_exc extract merge short double_only (λ a g. refl) true
      true 4 (1 ∷ 9 ∷ 3 ∷ []) 0 0 (omega arith) (omega arith) (omega arith)
      (omega arith, omega arith) sent_short

abbrev six : List ℕ
six = 1 ∷ 2 ∷ 3 ∷ 4 ∷ 5 ∷ 6 ∷ []

-- A thread of numbers, those from 100 on exceptions, whose child has sent 3 and its globals.
abbrev as_exception : ℕ → Option Exc
as_exception n = if ltb n 100 then none else some (user n)

abbrev sent_thread : List ℕ → Thread ℕ ℕ
sent_thread pipe = record {
  pipe = pipe;
  has_merge = true;
  shared_vars = some 1;
  ret_val = none;
  traceback = none;
  merging = true;
  exitcode = none;
}

abbrev extract_ℕ : Option ℕ → ℕ
extract_ℕ none = 0
extract_ℕ (some v) = v

abbrev merge_ℕ : Option ℕ → ℕ → Option ℕ
merge_ℕ v new = some new

join-wrapped_target_example :
    Thread.join as_exception
      (λ e. e + 1)
      extract_ℕ
      merge_ℕ
      (some 0)
      (sent_thread (100 ∷ 101 ∷ 7 ∷ []))
    ≡ ok (
      true,
      record (sent_thread []) {
        exitcode = some 0;
        ret_val = some 100;
        traceback = some 101;
        shared_vars = some 7;
      },
    )
unfolding Thread.wrapped_target
join-wrapped_target_example =
    join-wrapped_target as_exception (λ e. e + 1) extract_ℕ merge_ℕ
      (sent_thread (100 ∷ 101 ∷ 7 ∷ [])) (raised 100) (some 7) 0 (user 100, refl) refl

join-returned_exception_example :
    Thread.join as_exception (λ e. e + 1) extract_ℕ merge_ℕ (some 0) (sent_thread (100 ∷ 7 ∷ []))
    ≡ err blocked
unfolding Thread.wrapped_target
join-returned_exception_example =
    join-returned_exception as_exception (λ e. e + 1) extract_ℕ merge_ℕ (sent_thread (100 ∷ 7 ∷ []))
      100 (user 100) (some 7) 0 refl refl

abbrev joined_job : Thread (Value ℕ) ℕ
joined_job = record {
  pipe = [];
  has_merge = true;
  shared_vars = none;
  ret_val = some (results (2 ∷ 4 ∷ []));
  traceback = none;
  merging = false;
  exitcode = some 0;
}

join-run_job_example : (joined_job.merging ≡ false) × (joined_job.shared_vars ≡ none)
unfolding Thread.join run_job run_all
join-run_job_example =
    join-run_job double 0 format_exc extract merge true true (1 ∷ 2 ∷ []) {t = joined_job} refl
