-- ===== src/Wrappers/Map/Limits.antt =====
-- `wrappers.map` at its limits: no arguments, how many processes run at a time, and what becomes of
-- `extract` and `merge`.
use snakefish.Prelude.{
  ◌==◌, if◌then◌else◌, Bool-cases, length, take, drop, drop_all, take-nil, Result, zero_division,
  ok, err, ℕ, zero, suc, ◌+◌, ◌*◌, ◌^◌, ◌≤◌, ◌<◌, ◌≡◌, refl, ap, ◌∙◌, inl, inr, Bool, true, false,
  Option, none, some, List, [], arith,
}
use snakefish.Job.{Value}
use snakefish.Wrappers.Thread
use snakefish.Wrappers.Thread.{Thread}
use snakefish.Wrappers.Map
use snakefish.Wrappers.Map.{ceil_div, run_job, spawn, as_exception}
use snakefish.Wrappers.Map.Correct.{ceil_div_lem}

ceil_div_by_zero : (a b : ℕ) → b ≡ 0 → ceil_div a b ≡ err zero_division
unfolding ceil_div
ceil_div_by_zero a zero e = refl
ceil_div_by_zero a (suc b) e = absurd (omega arith)

ceil_div-zero : (b : ℕ) → 0 < b → b < 2 ^ 1022 → ceil_div 0 b ≡ ok 0
ceil_div-zero b b_pos below =
    let (q, e, covers, close) = ceil_div_lem 0 b b_pos (omega arith) below in
    e ∙ ap ok (no_quotient q b (omega arith))
  where
    no_quotient : (q d : ℕ) → q * d < d → q ≡ 0
    no_quotient zero d h = refl
    no_quotient (suc q) d h = absurd (omega arith)

module _ {G A B : Type 0} (f : A → G → Result B × G) (g : G) (format_exc : Value B → Value B)
    (extract : Option G → Value B) (merge : Option G → Value B → Option G) where
  -- On no arguments and the default chunk size `map` divides by zero, whatever the concurrency in the range of
  -- a float.
  pub process_map-nil :
      (fits : List (Value B) → Bool) (he hm : Bool) (cpu_count concurrency : ℕ)
      → cpu_count < 2 ^ 1022
      → concurrency < 2 ^ 1022
      → Map.map f g format_exc extract merge fits he hm cpu_count [] concurrency 0
        ≡ err zero_division
  unfolding Map.map
  process_map-nil fits he hm cpu_count concurrency hb cb = elim (Bool-cases (c == 0)) [
    | inl none_at_all ↦ rw (ceil_div_by_zero 0 c (ground arith))
    | inr some_level ↦
        rw (ceil_div-zero c (ground arith) (ground arith), ceil_div_by_zero 0 (c * 0) (omega arith))
  ]
    where
      c : ℕ
      c = if concurrency == 0 then cpu_count else concurrency

  -- A batch never has more processes than the concurrency asked for, and none that runs idle: each of
  -- them has an argument, so a batch past the end of the arguments is empty.
  pub length-spawn :
      (he hm : Bool) (args : List A) (c k n i j : ℕ)
      → (length (spawn f g format_exc extract merge he hm args c k n i j) ≤ n)
        × (length args ≤ (i * c + j) * k
            → spawn f g format_exc extract merge he hm args c k n i j ≡ [])
  unfolding spawn
  length-spawn he hm args c k zero i j = (omega arith, λ h. refl)
  length-spawn he hm args c k (suc n) i j = (
    ground (arith, length-spawn he hm args c k n i (j + 1)),
    λ h.
        let nothing : take k (drop ((i * c + j) * k) args) ≡ [] =
          ap (take k) (drop_all ((i * c + j) * k) args h) ∙ take-nil A k in
        rw (nothing, spawn),
  )

  -- A job of `map` never merges, also when `map` was given both functions: joined, its shared variables
  -- are still none.
  pub join-run_job :
      (he hm : Bool) (args : List A) {t : Thread (Value B) G}
      → Thread.join as_exception format_exc extract merge
          (some 0)
          (run_job f g format_exc extract merge he hm args)
        ≡ ok (true, t)
      → (t.merging ≡ false) × (t.shared_vars ≡ none)
  unfolding Thread.join run_job
  join-run_job he hm args e = ground arith
