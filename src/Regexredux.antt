-- ===== src/Regexredux.antt =====
-- benchmark/sequential/regexredux.py; the other three variants of the program differ in the `map` that they
-- call. The text of the input file is an argument, and Python's `re` a parameter.
pub mod Correct
pub mod Forked
pub mod Process
pub mod Pooled
use Prim.Native.String.{String}
use snakefish.Prelude.{Result, ◌>>=◌, ok, ℕ, List, [], ◌∷◌, ◌++◌}
use snakefish.Bench.{Mapper}

-- `sub(pattern, replacement, text)`, the number of matches that `findall(pattern, text)` lists, and `len`.
pub record Re : Type 0 where
  pub sub : String → String → String → String
  pub findall_length : String → String → ℕ
  pub len : String → ℕ

-- The lines that `main` writes.
pub data Line : Type 0 where
  matches : String → ℕ → Line
  blank : Line
  size : ℕ → Line

abbrev pub variants : List String
variants =
    "agggtaaa|tttaccct" ∷ "[cgt]gggtaaa|tttaccc[acg]" ∷ "a[act]ggtaaa|tttacc[agt]t"
    ∷ "ag[act]gtaaa|tttac[agt]ct" ∷ "agg[act]taaa|ttta[agt]cct" ∷ "aggg[acg]aaa|ttt[cgt]ccct"
    ∷ "agggt[cgt]aa|tt[acg]accct" ∷ "agggta[cgt]a|t[acg]taccct" ∷ "agggtaa[cgt]|[acg]ttaccct" ∷ []

abbrev pub subst : List (String × String)
subst =
    ("tHa[Nt]", "<4>")
    ∷ ("aND|caN|Ha[DS]|WaS", "<3>")
    ∷ ("a[NSt]|BY", "<2>")
    ∷ ("<[^>]*>", "|")
    ∷ ("\\|[^|][^|]*\\|", "-")
    ∷ []

-- `for f in zip(variants, …)`
unfoldable pub match_lines : List String → List ℕ → List Line
match_lines [] counts = []
match_lines (f ∷ fs) [] = []
match_lines (f ∷ fs) (n ∷ counts) = matches f n ∷ match_lines fs counts

module _ (re : Re) where
  -- `seq` is the global that `main` has set before.
  unfoldable pub var_find : String → String → ℕ
  var_find seq f = re.findall_length f seq

  -- `for f, r in list(subst.items())`
  unfoldable pub substitute : List (String × String) → String → String
  substitute [] seq = seq
  substitute ((f, r) ∷ rest) seq = substitute rest (re.sub f r seq)

  -- The text without headers and line ends.
  abbrev pub clean : String → String
  clean text = re.sub ">.*\n|\n" "" text

  -- `chunkmap seq` maps `var_find` where the global is `seq`.
  unfoldable pub main : (String → Mapper String ℕ) → String → Result (List Line)
  unfolding match_lines substitute
  main chunkmap text =
      let seq = clean text in
      (chunkmap seq).run variants >>= λ counts. ok (
        match_lines variants counts
        ++ (blank
            ∷ size (re.len text)
            ∷ size (re.len seq)
            ∷ size (re.len (substitute subst seq))
            ∷ []))
