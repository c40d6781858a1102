-- ===== src/Examples/Joining.antt =====
-- The end of examples/channel.py and examples/timestamp.py: a thread that returns `None` is joined, and its status and
-- result printed; and the same in examples/multiprocessing.
use snakefish.Prelude.{
  ◌++◌, ==_self, Result, ◌>>=◌, assertion_error, pos, ok, err, ℕ, ◌≡◌, refl, false, none, some,
  List, [], ◌∷◌,
}
use snakefish.Examples.{
  Object, nothing, Line, exit_status, result, as_exception, join_lines, format_exc, extract, merge,
  extract_shared, merge_shared, print_result, checked_status, print_status,
}
use snakefish.Thread
use snakefish.Thread.Process.{Fork, Waited, exited}
use snakefish.Thread.Lifecycle.{share}
use snakefish.Wrappers.Thread as Process

unfoldable pub join_silent : ℕ → Result (List Line)
unfolding Thread.init Thread.start Thread.run Thread.join Thread.get_result checked_status
join_silent pid =
    let t = Thread.init false in
    Thread.start (Fork.parent pid) t >>= λ p. Thread.start Fork.child t >>= λ c.
    Thread.run as_exception join_lines extract merge (Thread.returned nothing) nothing c >>= λ c'.
    Thread.join as_exception join_lines extract merge (Waited.ended pid (exited 0)) (share p c')
      nothing
    >>= λ (t', _). checked_status t' >>= λ status.
        Thread.get_result as_exception join_lines extract merge false t' >>= λ (got, _, _).
        print_result got >>= λ res. ok (status ∷ res ∷ [])

unfoldable pub join_silent_process : Result (List Line)
unfolding Process.init Process.wrapped_target Process.join Process.get_result print_status
join_silent_process =
    let t : Process.Thread Object Object = Process.init false false none in
    let sent =
      Process.wrapped_target as_exception format_exc extract_shared merge_shared t
        (Process.returned nothing) none in
    Process.join as_exception format_exc extract_shared merge_shared (some 0)
      (record t { pipe = sent })
    >>= λ (_, t'). print_status t'.exitcode >>= λ status.
        Process.get_result as_exception format_exc extract_shared merge_shared t' >>= λ got.
        elim got [ none ↦ err assertion_error | some v ↦ ok (status ∷ result v ∷ []) ]

-- What is printed of a thread that returns `None`.
abbrev pub silent : List Line
silent = exit_status (pos 0) ∷ result nothing ∷ []

join_silent_lem : (pid : ℕ) → join_silent pid ≡ ok silent
unfolding join_silent
join_silent_lem pid = rw (==_self pid) refl

join_silent_process_lem : join_silent_process ≡ ok silent
unfolding join_silent_process
join_silent_process_lem = refl

-- Three of them, one after another, as at the end of examples/channel.py and examples/timestamp.py.
unfoldable pub join_three : ℕ → ℕ → ℕ → Result (List Line)
join_three pid1 pid2 pid3 =
    join_silent pid1 >>= λ a. join_silent pid2 >>= λ b. join_silent pid3 >>= λ c. ok (a ++ (b ++ c))

unfoldable pub join_three_process : Result (List Line)
join_three_process = join_silent_process >>= λ a.
    join_silent_process >>= λ b. join_silent_process >>= λ c. ok (a ++ (b ++ c))

pub join_three_lem :
    (pid1 pid2 pid3 : ℕ)
    → (join_three pid1 pid2 pid3 ≡ ok (silent ++ (silent ++ silent)))
      × (join_three_process ≡ ok (silent ++ (silent ++ silent)))
unfolding join_three join_three_process
join_three_lem pid1 pid2 pid3 = (
  rw (join_silent_lem pid1, join_silent_lem pid2, join_silent_lem pid3) refl,
  rw join_silent_process_lem refl,
)
