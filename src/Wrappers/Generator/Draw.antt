-- ===== src/Wrappers/Generator/Draw.antt =====
-- A loop over a `Generator` of wrappers.py that polls without waiting, and its end.
use snakefish.Prelude.{
  if◌then◌else◌, length, replicate, Result, out_of_range, stop_iteration, ok, err, ℕ, zero, suc,
  ◌≡◌, refl, ap, Bool, true, false, some, List, [], ◌∷◌, ◌++◌, map,
}
use snakefish.Wrappers.Generator.{
  Generator, Message, yielded, extracted, init, wrapped_target, next, send_stop, join,
  get_exit_status,
}

module _ {A S G : Type 0} (extract : G → S) where
  -- A poll that comes too early, a round of the child, and a poll that is served.
  abbrev pub draw : Generator A S G → Result (Message A S) × Result (Message A S) × Generator A S G
  draw g =
      let (early, g1) = next false g in
      let (r, g2) = next false (wrapped_target extract g1) in (early, r, g2)

  -- That many times: what the early polls and the served ones gave.
  abbrev pub draws :
      ℕ
      → Generator A S G
      → List (Result (Message A S)) × List (Result (Message A S)) × Generator A S G
  draws zero g = ([], [], g)
  draws (suc n) g =
      let (early, r, g') = draw g in
      let (earlies, rs, g'') = draws n g' in (early ∷ earlies, r ∷ rs, g'')

  -- For a generator that yields `xs`: each early poll raises `Empty` and its request is not sent again, the
  -- served polls give `xs` in order and then `StopIteration`; behind them the generator is as it was
  -- started on nothing, so that polls go on to raise `StopIteration`.
  pub draws-init :
      (given : Bool) (vars : G) (xs : List A)
      → draws (suc (length xs)) (init given vars (map ok xs)) ≡ (
        replicate (suc (length xs)) (err out_of_range),
        map (λ x. ok (yielded x)) xs ++ (err stop_iteration ∷ []),
        init given vars [],
      )
  unfolding next init wrapped_target
  draws-init given vars [] = refl
  draws-init given vars (x ∷ xs) =
      ap (λ (es, rs, g). (err out_of_range ∷ es, ok (yielded x) ∷ rs, g)) (draws-init given vars xs)

module _ {A S G : Type 0} (extract : G → S) (merge : G → Message A S → G) where
  -- Before the end of the process a `join` gives false. Then it has ended with status 0 and `join` gives
  -- true; with merging the shared variables are merged with those that `extract` took from the child's.
  pub join-stopped :
      (given : Bool) (vars : G) (rest : List (Result A))
      → (let stopping = send_stop (init given vars rest) in
          let stopped = wrapped_target extract stopping in
          (join merge stopping ≡ ok (false, stopping))
          × (get_exit_status stopped ≡ some 0)
          × (join merge stopped
              ≡ ok (
                true,
                record stopped {
                  channel = [];
                  shared_vars = if given then merge vars (extracted (extract vars)) else vars;
                },
              )))
  unfolding init wrapped_target send_stop join get_exit_status
  join-stopped true vars rest = (refl, refl, refl)
  join-stopped false vars rest = (refl, refl, refl)
