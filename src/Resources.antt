-- ===== src/Resources.antt =====
-- What the constructors of src/channel.cpp, src/thread.cpp and src/generator.cpp take from the operating system, and
-- what their `dispose` gives back. `works` says which calls succeed.
pub mod Disposal
mod Tests
use snakefish.Prelude.{
  if◌then◌else◌, Exc, Result, runtime_error, memory_error, abort, ok, err, ℕ, zero, suc, Bool, true,
  false,
}

-- The members of a channel that lie in shared memory.
pub data Part : Type 0 where
  shared_mem start end full lock n_unread : Part

-- A system call on one of them, or on the flag `alive` of a thread.
pub data Call : Type 0 where
  mmap munmap sem_init sem_destroy : Part → Call
  mmap_alive munmap_alive : Call

-- What a channel has: memory, and semaphores that are ready in theirs.
pub record Holdings : Type 0 where
  pub shared_mem : Bool
  pub start : Bool
  pub end : Bool
  pub full : Bool
  pub lock : Bool
  pub lock_ready : Bool
  pub n_unread : Bool
  pub n_unread_ready : Bool

abbrev pub nothing : Holdings
nothing = record {
  shared_mem = false;
  start = false;
  end = false;
  full = false;
  lock = false;
  lock_ready = false;
  n_unread = false;
  n_unread_ready = false;
}

-- Memory of a part is mapped or not.
abbrev pub put : Part → Bool → Holdings → Holdings
put Part.shared_mem b h = record h { shared_mem = b }
put Part.start b h = record h { start = b }
put Part.end b h = record h { end = b }
put Part.full b h = record h { full = b }
put Part.lock b h = record h { lock = b }
put Part.n_unread b h = record h { n_unread = b }

abbrev pub put_ready : Part → Bool → Holdings → Holdings
put_ready Part.lock b h = record h { lock_ready = b }
put_ready Part.n_unread b h = record h { n_unread_ready = b }
put_ready p b h = h

-- What goes on in a constructor or in `dispose`: a result, and what is held then.
abbrev pub Action : Type 0 → Type 0
Action S = S → Result (Unit {0}) × S

infixl 5 ◌>>◌
abbrev pub ◌>>◌ : {S : Type 0} → Action S → Action S → Action S
(m >> k) s = let (r, s') = m s in elim r [ ok _ ↦ k s' | err e ↦ (err e, s') ]

abbrev pub call : {S : Type 0} → Bool → Exc → (S → S) → Action S
call true e done s = (ok tt, done s)
call false e done s = (err e, s)

-- An action on one of two.
abbrev pub on_first : {S T : Type 0} → Action S → Action (S × T)
on_first m (s, t) = let (r, s') = m s in (r, (s', t))

abbrev pub on_second : {S T : Type 0} → Action T → Action (S × T)
on_second m (s, t) = let (r, t') = m t in (r, (s, t'))

module _ (works : Call → Bool) where
  -- `util::get_shared_mem`
  abbrev pub get_shared_mem : Part → Action Holdings
  get_shared_mem p = call (works (mmap p)) memory_error (put p true)

  -- The same for the bytes of a channel: none are not mapped.
  abbrev pub map_bytes : ℕ → Action Holdings
  map_bytes zero s = (ok tt, s)
  map_bytes (suc n) s = get_shared_mem Part.shared_mem s

  -- `semaphore_t::semaphore_t` and `semaphore_t::destroy`
  abbrev pub semaphore : Part → Action Holdings
  semaphore p = get_shared_mem p >> call (works (sem_init p)) runtime_error (put_ready p true)

  abbrev pub destroy : Part → Action Holdings
  destroy p =
      call (works (sem_destroy p)) runtime_error (put_ready p false)
      >> call (works (munmap p)) runtime_error (put p false)

  abbrev pub unmap : Part → Action Holdings
  unmap p = call (works (munmap p)) abort (put p false)

  -- `try { … } catch (...) { abort(); }`
  abbrev pub or_abort : {S : Type 0} → Action S → Action S
  or_abort m s = let (r, s') = m s in elim r [ ok _ ↦ (ok tt, s') | err e ↦ (err abort, s') ]

  -- `channel::channel(size)`
  unfoldable pub open_channel : ℕ → Action Holdings
  open_channel size =
      semaphore Part.lock
      >> semaphore Part.n_unread
      >> map_bytes size
      >> get_shared_mem Part.start
      >> get_shared_mem Part.end
      >> get_shared_mem Part.full

  -- `channel::dispose()`
  unfoldable pub dispose_channel : Action Holdings
  dispose_channel =
      unmap Part.shared_mem
      >> unmap Part.start
      >> unmap Part.end
      >> unmap Part.full
      >> or_abort (destroy Part.lock)
      >> or_abort (destroy Part.n_unread)

  -- The constructors of `thread`: the channel, then the flag; and `thread::dispose()`.
  unfoldable pub open_thread : ℕ → Action (Holdings × Bool)
  unfolding open_channel
  open_thread size =
      on_first (open_channel size) >> on_second (call (works mmap_alive) memory_error (λ _. true))

  unfoldable pub dispose_thread : Action (Holdings × Bool)
  unfolding dispose_channel
  dispose_thread =
      on_second (call (works munmap_alive) abort (λ _. false)) >> on_first dispose_channel

-- The constructors of `generator`: two channels, then the test of the function; and `generator::dispose()`. Each
-- channel has its own system calls.
module _ (works works_cmd : Call → Bool) where
  unfoldable pub open_generator : ℕ → Bool → Action (Holdings × Holdings)
  unfolding open_channel
  open_generator size is_generator =
      on_first (open_channel works size) >> on_second (open_channel works_cmd 1024) >> λ s.
      (if is_generator then ok tt else err runtime_error, s)

  unfoldable pub dispose_generator : Action (Holdings × Holdings)
  unfolding dispose_channel
  dispose_generator = on_first (dispose_channel works) >> on_second (dispose_channel works_cmd)
