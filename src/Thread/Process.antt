-- ===== src/Thread/Process.antt =====
-- What the operating system answers to `fork` and `waitpid`, as src/thread.cpp and src/generator.cpp tell
-- the answers apart.
use snakefish.Prelude.{ℕ}

-- The sign of what `fork()` returns.
pub data Fork : Type 0 where
  parent : ℕ → Fork
  child : Fork
  failed : Fork

-- `WIFEXITED` with `WEXITSTATUS`, `WIFSIGNALED` with `WTERMSIG`, or neither.
pub data Status : Type 0 where
  exited : ℕ → Status
  signaled : ℕ → Status
  other : Status

-- `waitpid`: -1, 0 (under `WNOHANG` only), or a child and how it ended.
pub data Waited : Type 0 where
  failed : Waited
  running : Waited
  ended : ℕ → Status → Waited
