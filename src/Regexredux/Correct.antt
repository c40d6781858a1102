-- ===== src/Regexredux/Correct.antt =====
-- What benchmark/*/regexredux.py writes, whichever map it calls.
use mathlib.Core.Path.{fun_ext}
use Prim.Native.String.{String}
use snakefish.Prelude.{ok, ℕ, ◌≡◌, refl, ap, List, [], ◌∷◌, ◌++◌, map, arith}
use snakefish.Bench.{Mapper, IsMap}
use snakefish.Regexredux.{
  Re, matches, blank, size, variants, subst, match_lines, var_find, substitute, clean, main,
}

match_lines-map :
    (count : String → ℕ) (fs : List String)
    → match_lines fs (map count fs) ≡ map (λ f. matches f (count f)) fs
unfolding match_lines
match_lines-map count [] = refl
match_lines-map count (f ∷ fs) = ap (λ t. matches f (count f) ∷ t) (match_lines-map count fs)

module _ (re : Re) where
  -- With any map that gives the results of the calls in order the program writes a line for each variant, in
  -- their order, with its number of matches in the cleaned text, and then the three sizes.
  pub main-lines :
      (chunkmap : String → Mapper String ℕ) (text : String)
      → IsMap (chunkmap (clean re text))
      → ((f : String) → (chunkmap (clean re text)).f f ≡ var_find re (clean re text) f)
      → main re chunkmap text
        ≡ ok (
            map (λ f. matches f (re.findall_length f (clean re text))) variants
            ++ (blank
                ∷ size (re.len text)
                ∷ size (re.len (clean re text))
                ∷ size (re.len (substitute re subst (clean re text)))
                ∷ []))
  unfolding main var_find
  main-lines chunkmap text is_map calls =
      rw (is_map variants (omega arith, omega arith), fun_ext calls) refl
