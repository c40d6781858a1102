-- ===== src/Misc/Total.antt =====
-- The whole of `_map`: how many batches it makes, and that they are enough.
use snakefish.Prelude.{
  ◌==◌, if◌then◌else◌, Bool-cases, length, take, take_all, Exc, Result, ◌>>=◌, map_result,
  extend-nil, crash, ok, err, ℕ, zero, suc, ◌+◌, ◌-◌, ◌*◌, ◌/◌, ◌%◌, ◌^◌, ◌≤◌, ◌<◌, ◌≡◌, refl, ap,
  ◌∙◌, inl, inr, Bool, false, List, [], arith,
}
use snakefish.Job.{Value}
use snakefish.Misc
use snakefish.Misc.{round_up_div, batches}
use snakefish.Misc.Correct.{
  raised_again, map_result-raised_again, all_globals, batches-eq-map_result, all_globals_unmerged,
}

-- A quotient rounded up is no greater than what is divided.
quotient_small : (size d : ℕ) → 0 < d → (size + d - 1) / d ≤ size
quotient_small size d h = grind arith

quotient_covers : (size d : ℕ) → 0 < d → size ≤ (size + d - 1) / d * d
quotient_covers size d h = grind arith

quotient_close : (size d : ℕ) → 0 < d → (size + d - 1) / d * d < size + d
quotient_close size d h = grind arith

factor_pos : (k c : ℕ) → 0 < k * c → 0 < k
factor_pos zero c h = absurd (omega arith)
factor_pos (suc k) c h = omega arith

enough : (n p q size : ℕ) → p ≤ q → size ≤ n * p → size ≤ n * q
enough n p q size h k = grind arith

-- The number of chunks or batches: no wrap-around below 2^32, and the division rounds up.
pub round_up_div_lem :
    (size d : ℕ)
    → 0 < d
    → size + d < 2 ^ 33
    → size < 2 ^ 32
    → (q : ℕ) × (round_up_div size d ≡ ok q) × (size ≤ q * d) × (q * d < size + d)
unfolding round_up_div
round_up_div_lem size d d_pos sum small = (
  (size + d - 1) / d,
  rw no_wrap (ground (arith, quotient_small size d d_pos)),
  quotient_covers size d d_pos,
  quotient_close size d d_pos,
)
  where
    no_wrap : (size + d + 2 ^ 64 - 1) % 2 ^ 64 ≡ size + d - 1
    no_wrap = omega arith

round_up_div-zero : (d : ℕ) → 0 < d → d < 2 ^ 32 → round_up_div 0 d ≡ ok 0
round_up_div-zero d d_pos small =
    let (q, e, covers, close) = round_up_div_lem 0 d d_pos (omega arith) (omega arith) in
    e ∙ ap ok (no_quotient q d (omega arith))
  where
    no_quotient : (q d : ℕ) → q * d < d → q ≡ 0
    no_quotient zero d h = refl
    no_quotient (suc q) d h = absurd (omega arith)

round_up_div_by_zero : (size d : ℕ) → d ≡ 0 → round_up_div size d ≡ err crash
unfolding round_up_div
round_up_div_by_zero size d e = ground arith

module _ {G A B : Type 0} (f : A → G → Result B × G) (type_of traceback_of : Exc → Value B)
    (join_lines : Value B → Value B) (extract : G → Value B) (merge : G → Value B → G)
    (merging : Bool) (child_pid : ℕ) (exc_received : Bool) (h : A → Result B)
    (f_pure : (a : A) (g : G) → (f a g).0 ≡ h a) where
  -- With enough batches made, the arguments have all been handed out.
  all_batches :
      (c k p : ℕ) (args : List A) (g : G)
      → 0 < k
      → 0 < p
      → p ≤ c * k
      → p < 2 ^ 32
      → length args < 2 ^ 32
      → (g' : G) × ((round_up_div (length args) p >>= λ n_batch.
            batches f type_of traceback_of join_lines extract merge merging child_pid exc_received c
              k n_batch args [] g)
          ≡ (raised_again (map_result h args) exc_received >>= λ bs. ok (bs, g')))
        × (merging ≡ false → g' ≡ g)
  all_batches c k p args g k_pos p_pos le p_small small =
      let (n, e, covers, _) = round_up_div_lem (length args) p p_pos (omega arith) small in
      (
        all_globals f type_of traceback_of join_lines extract merge merging child_pid exc_received h
            f_pure c k n args g,
        rw e (
            batches-eq-map_result f type_of traceback_of join_lines extract merge merging child_pid
              exc_received h f_pure c k n (n * (c * k)) args [] g k_pos refl
            ∙ ap
                (λ t. t >>= λ bs. ok (
                  bs,
                  all_globals f type_of traceback_of join_lines extract merge merging child_pid
                      exc_received h f_pure c k n args g,
                ))
                (extend-nil _
                  ∙ map_result-raised_again h exc_received (take (n * (c * k)) args)
                  ∙ ap (λ t. raised_again (map_result h t) exc_received)
                      (take_all (n * (c * k)) args (enough n p (c * k) (length args) le covers)))),
        λ unmerged.
            all_globals_unmerged f type_of traceback_of join_lines extract merge merging child_pid
              exc_received h f_pure unmerged c k n args g,
      )

  -- For fewer than 2^32 arguments and a product of concurrency and chunk size that is no multiple of
  -- 2^32, `map` is the sequential map of a function whose result hangs only on its argument: the same
  -- results in the same order, or the exception of the first argument that raises; but where the process has
  -- received an exception of a thread before, the map of a list with an argument that raises is `unspecified`:
  -- `get_result` has lost the exception. With the default chunk size there must be an argument. Without
  -- merging the parent's globals stay as they are.
  pub map-eq-map_result :
      (hardware : ℕ) (args : List A) (concurrency chunksize : ℕ) (g : G)
      → (let c = if concurrency == 0 then hardware else concurrency in
          (0 < c)
          × (length args + c < 2 ^ 32)
          × (0 < (if chunksize == 0 then length args else (c * chunksize) % 2 ^ 32)))
      → (g' : G) × (Misc.map f type_of traceback_of join_lines extract merge merging child_pid
            exc_received hardware args concurrency chunksize g
          ≡ (raised_again (map_result h args) exc_received >>= λ bs. ok (bs, g')))
        × (merging ≡ false → g' ≡ g)
  unfolding Misc.map
  map-eq-map_result hardware args concurrency chunksize g (c_pos, sum, product) =
      elim (Bool-cases (chunksize == 0)) [
        | inl default_size ↦
            let (k, e, covers, close) =
              round_up_div_lem (length args) c c_pos (omega arith) (omega arith) in
            let below : c * k < 2 ^ 32 = omega arith in
            let some_left : 0 < length args = ground arith in
            let k_pos : 0 < k = factor_pos k c (omega arith) in
            let p_pos : 0 < (c * k) % 2 ^ 32 = omega arith in
            let (g', run, same) =
              all_batches c k ((c * k) % 2 ^ 32) args g k_pos p_pos (omega arith) (omega arith)
                (omega arith) in
            (g', rw (default_size, e) run, same)
        | inr given ↦
            let p_pos : 0 < (c * chunksize) % 2 ^ 32 = ground arith in
            let k_pos : 0 < chunksize = ground arith in
            let (g', run, same) =
              all_batches c chunksize ((c * chunksize) % 2 ^ 32) args g k_pos p_pos (omega arith)
                (omega arith) (omega arith) in
            (g', rw given run, same)
      ]
    where
      c : ℕ
      c = if concurrency == 0 then hardware else concurrency

  -- On no arguments and the default chunk size the process is killed by a division by zero, whatever
  -- the concurrency.
  pub map-nil :
      (hardware concurrency : ℕ) (g : G)
      → hardware < 2 ^ 32
      → concurrency < 2 ^ 32
      → Misc.map f type_of traceback_of join_lines extract merge merging child_pid exc_received
          hardware [] concurrency 0 g
        ≡ err crash
  unfolding Misc.map
  map-nil hardware concurrency g hb cb = elim (Bool-cases (c == 0)) [
    | inl none_at_all ↦ rw (round_up_div_by_zero 0 c (ground arith))
    | inr some_level ↦ rw (
      round_up_div-zero c (ground arith) (ground arith),
      round_up_div_by_zero 0 ((c * 0) % 2 ^ 32) (omega arith),
    )
  ]
    where
      c : ℕ
      c = if concurrency == 0 then hardware else concurrency
