-- ===== src/Examples/Map.antt =====
-- examples/map.py and examples/multiprocessing/map.py. The clock is what it shows when an argument is worked on.
use snakefish.Prelude.{
  ◌==◌, if◌then◌else◌, Exc, Result, ◌>>=◌, ok, ℕ, ◌+◌, ◌*◌, ◌^◌, Bool, true, false, Option, none,
  some, List, [], ◌∷◌, map,
}
use snakefish.Examples.{range_from}
use snakefish.Job.{Value, results, exception}
use snakefish.Misc
use snakefish.Wrappers.Map

-- A number, or an entry of the dictionary `calc_time`.
pub data Object : Type 0 where
  number : ℕ → Object
  entry : ℕ → ℕ → Object

abbrev pub Dict : Type 0
Dict = List (ℕ × ℕ)

-- `calc_time[i] = v`
abbrev pub put : ℕ → ℕ → Dict → Dict
put i v [] = (i, v) ∷ []
put i v ((j, w) ∷ d) = let rest = put i v d in if j == i then (i, v) ∷ d else (j, w) ∷ rest

abbrev pub entries : Dict → List Object
entries [] = []
entries ((i, v) ∷ d) = entry i v ∷ entries d

-- `old_globals["calc_time"].update(new_globals["calc_time"])`
abbrev pub update : Dict → List Object → Dict
update d [] = d
update d (entry i v ∷ es) = update (put i v d) es
update d (number n ∷ es) = update d es

abbrev pub extract : Dict → Value Object
extract d = results (entries d)

abbrev pub extract_shared : Option Dict → Value Object
extract_shared none = results []
extract_shared (some d) = extract d

abbrev pub merge : Dict → Value Object → Dict
merge d (results es) = update d es
merge d (exception e) = d

abbrev pub args1 : List ℕ
args1 = range_from 100 0

abbrev pub args2 : List (ℕ × ℕ)
args2 = map (λ i. (i, i + 1)) (range_from 50 0)

abbrev pub f2 : ℕ × ℕ → Dict → Result Object × Dict
f2 (i, j) calc_time = (ok (number (i * j)), calc_time)

-- The numbers of the assertions.
abbrev pub squares : List Object
squares = map (λ i. number (i ^ 2)) args1

abbrev pub products : List Object
products = map (λ (i, j). number (i * j)) args2

module _ (clock : ℕ → ℕ) where
  abbrev pub f1 : ℕ → Dict → Result Object × Dict
  f1 i calc_time = (ok (number (i ^ 2)), put i (clock i) calc_time)

  module _ (type_of traceback_of : Exc → Value Object) (join_lines : Value Object → Value Object)
      (pid : ℕ) (exc_received : Bool) (hardware : ℕ) where
    -- The results of `map` and `starmap`, and `calc_time` at the end.
    unfoldable pub main : Result (List Object × List Object × Dict)
    main =
        Misc.map f1 type_of traceback_of join_lines extract merge true pid exc_received hardware
          args1 4 7 []
        >>= λ (rs, calc_time).
            Misc.map f2 type_of traceback_of join_lines extract merge false pid exc_received
              hardware args2 0 0 calc_time
            >>= λ (rs', calc_time'). ok (rs, rs', calc_time')

  module _ (format_exc : Value Object → Value Object)
      (merge_shared : Option Dict → Value Object → Option Dict) (cpu_count : ℕ) where
    -- A child sends a list of some numbers, which a pipe takes.
    abbrev pub all_fit : List (Value Object) → Bool
    all_fit sent = true

    -- The results of `map` and `starmap` of wrappers.py, for an empty `calc_time`.
    unfoldable pub process_main : Result (List Object × List Object)
    process_main =
        Map.map f1 [] format_exc extract_shared merge_shared all_fit true true cpu_count args1 4 7
        >>= λ rs.
            Map.map f2 [] format_exc extract_shared merge_shared all_fit false false cpu_count args2
              0 0
            >>= λ rs'. ok (rs, rs')
