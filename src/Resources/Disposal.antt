-- ===== src/Resources/Disposal.antt =====
-- What `dispose` gives back of what the constructors took, and what a constructor that raises leaves behind.
use snakefish.Prelude.{
  if◌then◌else◌, Result, runtime_error, abort, ok, err, ℕ, suc, ◌≡◌, refl, sym, ap, ◌∙◌, Bool, true,
  false, ◌&&◌, arith,
}
use mathlib.Core.Path.{subst₂, ap₂, fun_ext}
use snakefish.Resources.{
  Part, Call, munmap, sem_destroy, munmap_alive, Holdings, nothing, Action, ◌>>◌, on_first,
  on_second, call, open_channel, dispose_channel, open_thread, dispose_thread, open_generator,
  dispose_generator,
}

-- Every system call succeeds.
abbrev pub AllWork : (Call → Bool) → Type 0
AllWork works = (c : Call) → works c ≡ true

all_true : (works : Call → Bool) → AllWork works → (λ _. true) ≡ works
all_true works all_work = fun_ext (λ c. sym (all_work c))

-- Where all system calls succeed, a channel of some bytes, and a thread or generator with one, that is built and
-- disposed of holds nothing any more.
pub dispose-open :
    (works works_cmd : Call → Bool) (size : ℕ)
    → AllWork works
    → AllWork works_cmd
    → ((open_channel works (suc size) >> dispose_channel works) nothing ≡ (ok tt, nothing))
      × ((open_thread works (suc size) >> dispose_thread works) (nothing, false)
          ≡ (ok tt, (nothing, false)))
      × ((open_generator works works_cmd (suc size) true >> dispose_generator works works_cmd)
            (nothing, nothing)
          ≡ (ok tt, (nothing, nothing)))
unfolding open_thread dispose_thread open_generator dispose_generator
dispose-open works works_cmd size w w_cmd =
    subst₂
      (λ w w_cmd.
        ((open_channel w (suc size) >> dispose_channel w) nothing ≡ (ok tt, nothing))
        × ((open_thread w (suc size) >> dispose_thread w) (nothing, false)
            ≡ (ok tt, (nothing, false)))
        × ((open_generator w w_cmd (suc size) true >> dispose_generator w w_cmd) (nothing, nothing)
            ≡ (ok tt, (nothing, nothing))))
      (all_true works w) (all_true works_cmd w_cmd) (refl, refl, refl)

-- Everything that a channel takes.
abbrev pub everything : Holdings
everything = record {
  shared_mem = true;
  start = true;
  end = true;
  full = true;
  lock = true;
  lock_ready = true;
  n_unread = true;
  n_unread_ready = true;
}

-- The calls that `channel::dispose` makes all succeed.
abbrev pub all_work : (Call → Bool) → Bool
all_work works =
    works (munmap Part.shared_mem)
    && works (munmap Part.start)
    && works (munmap Part.end)
    && works (munmap Part.full)
    && works (sem_destroy Part.lock)
    && works (munmap Part.lock)
    && works (sem_destroy Part.n_unread)
    && works (munmap Part.n_unread)

dispose_channel_lem :
    (works : Call → Bool) (h : Holdings)
    → (dispose_channel works h).0 ≡ (if all_work works then ok tt else err abort)
unfolding dispose_channel
dispose_channel_lem works h = ground arith

-- One result, and the other if it is no error.
abbrev both : Result (Unit {0}) → Result (Unit {0}) → Result (Unit {0})
both (ok _) r = r
both (err e) r = err e

first_then_second :
    {S T : Type 0} (m : Action S) (k : Action T) (s : S) (t : T)
    → ((on_first m >> on_second k) (s, t)).0 ≡ both (m s).0 (k t).0
first_then_second m k s t = ground arith

second_then_first :
    {S T : Type 0} (m : Action S) (k : Action T) (s : S) (t : T)
    → ((on_second k >> on_first m) (s, t)).0 ≡ both (k t).0 (m s).0
second_then_first m k s t = ground arith

call_result :
    (b alive : Bool) → (call b abort (λ _. false) alive).0 ≡ (if b then ok tt else err abort)
call_result true alive = refl
call_result false alive = refl

dispose_thread_parts :
    (works : Call → Bool) (h : Holdings) (alive : Bool)
    → (dispose_thread works (h, alive)).0
      ≡ both (if works munmap_alive then ok tt else err abort) (dispose_channel works h).0
unfolding dispose_thread
dispose_thread_parts works h alive =
    second_then_first (dispose_channel works) (call (works munmap_alive) abort (λ _. false)) h alive
    ∙ ap (λ r. both r (dispose_channel works h).0) (call_result (works munmap_alive) alive)

dispose_generator_parts :
    (works works_cmd : Call → Bool) (h h_cmd : Holdings)
    → (dispose_generator works works_cmd (h, h_cmd)).0
      ≡ both (dispose_channel works h).0 (dispose_channel works_cmd h_cmd).0
unfolding dispose_generator
dispose_generator_parts works works_cmd h h_cmd =
    first_then_second (dispose_channel works) (dispose_channel works_cmd) h h_cmd

both_if :
    (a b : Bool)
    → both (if a then ok tt else err abort) (if b then ok tt else err abort)
      ≡ (if a && b then ok tt else err abort)
both_if true b = refl
both_if false b = refl

-- `dispose` returns exactly if each of its system calls succeeds, those of both channels for a generator, and
-- else kills the process.
pub dispose_lem :
    (works works_cmd : Call → Bool) (h h_cmd : Holdings) (alive : Bool)
    → ((dispose_channel works h).0 ≡ (if all_work works then ok tt else err abort))
      × ((dispose_thread works (h, alive)).0
          ≡ (if works munmap_alive && all_work works then ok tt else err abort))
      × ((dispose_generator works works_cmd (h, h_cmd)).0
          ≡ (if all_work works && all_work works_cmd then ok tt else err abort))
dispose_lem works works_cmd h h_cmd alive = (
  dispose_channel_lem works h,
  dispose_thread_parts works h alive
      ∙ ap (both (if works munmap_alive then ok tt else err abort)) (dispose_channel_lem works h)
      ∙ both_if (works munmap_alive) (all_work works),
  dispose_generator_parts works works_cmd h h_cmd
      ∙ ap₂ both (dispose_channel_lem works h) (dispose_channel_lem works_cmd h_cmd)
      ∙ both_if (all_work works) (all_work works_cmd),
)

-- A generator whose function is no generator function raises with all its memory and semaphores still
-- held, and there is no object to dispose of.
pub open_generator-leaks :
    (works works_cmd : Call → Bool) (size : ℕ)
    → AllWork works
    → AllWork works_cmd
    → open_generator works works_cmd (suc size) false (nothing, nothing)
      ≡ (err runtime_error, (everything, everything))
unfolding open_generator
open_generator-leaks works works_cmd size w w_cmd =
    subst₂
      (λ w w_cmd.
        open_generator w w_cmd (suc size) false (nothing, nothing)
        ≡ (err runtime_error, (everything, everything)))
      (all_true works w) (all_true works_cmd w_cmd) refl
