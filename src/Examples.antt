-- ===== src/Examples.antt =====
-- examples/*.py and examples/multiprocessing/*.py: the objects that the programs exchange, the lines that they
-- print, and what several of them share. Their global variable `a` is the state of a process.
pub mod ForkJoin
pub mod Generators
pub mod Joining
pub mod Map
pub mod Polling
pub mod TryJoin
pub mod Raising
mod Tests
use snakefish.Prelude.{
  Exc, Result, ◌>>=◌, ℤ, assertion_error, crash, pos, ok, err, ℕ, zero, suc, ◌+◌, Bool, Option,
  none, some, List, [], ◌∷◌,
}
use snakefish.Thread
use snakefish.Thread.{Thread, Got, value, raises}

-- Numbers, `None`, a list of numbers, a list of such lists, `{'a': _}`, and exceptions with what
-- describes them.
pub data Object : Type 0 where
  nothing : Object
  number : ℕ → Object
  numbers : List ℕ → Object
  nested : List (List ℕ) → Object
  dict_of_a : Object → Object
  exception exception_type traceback_lines traceback : Exc → Object

-- The lines that are printed, by what they show.
pub data Line : Type 0 where
  was is : Object → Line
  alive : Bool → Line
  joined not_joined : Line
  exit_status : ℤ → Line
  result : Object → Line
  raised_type : Object → Line
  next : Object → Line
  not_ready exhausted : Line

abbrev pub as_exception : Object → Option Exc
as_exception (exception e) = some e
as_exception o = none

-- `"".join(traceback)`
abbrev pub join_lines : Object → Object
join_lines (traceback_lines e) = traceback e
join_lines o = o

-- `traceback.format_exc()`
abbrev pub format_exc : Object → Object
format_exc (exception e) = traceback e
format_exc o = o

-- `extract`, and `merge`: `old_globals.update(new_globals)`.
abbrev pub extract : Object → Object
extract a = dict_of_a a

abbrev pub merge : Object → Object → Object
merge a (dict_of_a new) = new
merge a o = a

-- The same on the shared variables of `wrappers.py`.
abbrev pub extract_shared : Option Object → Object
extract_shared none = nothing
extract_shared (some a) = dict_of_a a

abbrev pub merge_shared : Option Object → Object → Option Object
merge_shared none new = none
merge_shared (some a) new = some (merge a new)

-- `[i for i in range(n)]` from `i` on.
abbrev pub range_from : ℕ → ℕ → List ℕ
range_from zero i = []
range_from (suc n) i = i ∷ range_from n (i + 1)

-- `print("result of f():", t.get_result())`
abbrev pub print_result : Got Object → Result Line
print_result (value v) = ok (result v)
print_result (raises type (exception e)) = err e
print_result (raises type v) = err crash

-- The same in `try: … except Exception as e: print(…, type(e))`.
abbrev pub print_caught : Got Object → Result Line
print_caught (value v) = ok (result v)
print_caught (raises type v) = ok (raised_type v)

-- `assert (t.get_exit_status() == 0)`, then `print(…, t.get_exit_status())`.
unfoldable pub checked_status : Thread Object → Result Line
unfolding Thread.get_exit_status
checked_status t = Thread.get_exit_status t >>= λ code. elim code [
  | pos zero ↦ ok (exit_status (pos 0))
  | _ ↦ err assertion_error
]

unfoldable pub print_status : Option ℕ → Result Line
print_status none = err assertion_error
print_status (some zero) = ok (exit_status (pos 0))
print_status (some (suc n)) = err assertion_error
